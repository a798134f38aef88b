-- ===== src/Blocklist/Votes.antt =====
-- src/mirenai/domain/blocklist.py: the format that is detected is one with the most votes.
use mirenai.Blocklist.Format.{
  Format, format_eq, count_votes, outranks, best_vote, winner, detect_format,
}
use mirenai.Prelude.{
  All, Bool-cases, List, [], ap, arith, contains, false, if◌then◌else◌, inl, inr, list_eq, nat_eq,
  pair_beq_iff, pair_eq, refl, subst, sym, true, ℕ, ◌∷◌, ◌≡◌, ◌⊎◌,
}
use mirenai.Python.Str.Split.{splitlines}
use mirenai.Python.Text.{Text}

-- No vote of the list outranks the given one.
abbrev pub NoneOutranks : Format × ℕ → List (Format × ℕ) → Type 0
NoneOutranks best vs = All (λ (v : Format × ℕ). outranks v best ≡ false) vs

outranks-through :
    (a b c : Format × ℕ) → outranks a b ≡ false → outranks b c ≡ false → outranks a c ≡ false
outranks-through a b c h g = ground arith

outranks-before :
    (a b c : Format × ℕ) → outranks a b ≡ true → outranks a c ≡ false → outranks b c ≡ false
outranks-before a b c h g = ground arith

outranks_self : (a : Format × ℕ) → outranks a a ≡ false
outranks_self a = ground arith

best_vote-up :
    (best v : Format × ℕ) (vs : List (Format × ℕ))
    → outranks v best ≡ true
    → best_vote best (v ∷ vs) ≡ best_vote v vs
unfolding best_vote
best_vote-up best v vs h = ap (λ b. best_vote (if b then v else best) vs) h

best_vote-down :
    (best v : Format × ℕ) (vs : List (Format × ℕ))
    → outranks v best ≡ false
    → best_vote best (v ∷ vs) ≡ best_vote best vs
unfolding best_vote
best_vote-down best v vs h = ap (λ b. best_vote (if b then v else best) vs) h

-- The best vote is one of the votes, and no vote outranks it.
abbrev IsBestOf : Format × ℕ → List (Format × ℕ) → Type 0
IsBestOf best vs = (contains vs best ≡ true) × NoneOutranks best vs

best_vote-IsBestOf :
    (best : Format × ℕ) (vs : List (Format × ℕ)) → IsBestOf (best_vote best vs) (best ∷ vs)
unfolding best_vote
best_vote-IsBestOf best [] = (ground (arith, pair_beq_iff best best), (outranks_self best, tt))
best_vote-IsBestOf best (v ∷ vs) = elim (Bool-cases (outranks v best)) [
  | inl up ↦
      let rest = best_vote-IsBestOf v vs in
      subst (λ b. IsBestOf b (best ∷ v ∷ vs)) (sym (best_vote-up best v vs up))
        ((ground (arith, rest.0)), (outranks-before v best (best_vote v vs) up rest.1.0, rest.1))
  | inr down ↦
      let rest = best_vote-IsBestOf best vs in
      subst (λ b. IsBestOf b (best ∷ v ∷ vs)) (sym (best_vote-down best v vs down))
        (
          (ground (arith, rest.0)),
          (rest.1.0, (outranks-through v best (best_vote best vs) down rest.1.0, rest.1.1)),
        )
]

winner-best :
    (votes : List (Format × ℕ))
    → ((votes ≡ []) × (winner votes ≡ Format.unknown))
      ⊎ ((n : ℕ) × (contains votes (winner votes, n) ≡ true) × NoneOutranks (winner votes, n) votes)
unfolding winner
winner-best [] = inl (refl, refl)
winner-best (v ∷ vs) = let h = best_vote-IsBestOf v vs in inr ((best_vote v vs).1, h.0, h.1)

-- The format of a text is unknown if no line of the sample votes; else it is a format of the
-- sample such that no other has more votes, or as many and a higher priority.
detect_format-NoneOutranks :
    (text : Text)
    → let votes = count_votes [] 0 (splitlines text) in
      ((votes ≡ []) × (detect_format text ≡ Format.unknown))
      ⊎ ((n : ℕ) × (contains votes (detect_format text, n) ≡ true)
          × NoneOutranks (detect_format text, n) votes)
unfolding detect_format
detect_format-NoneOutranks text = winner-best (count_votes [] 0 (splitlines text))
