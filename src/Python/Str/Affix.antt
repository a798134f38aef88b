-- ===== src/Python/Str/Affix.antt =====
-- `startswith`, `endswith` and `find`.
use mirenai.Prelude.{
  Bool, Bool-cases, [], ap, arith, false, if◌then◌else◌, inl, inr, list_beq_iff, list_eq, nat_eq,
  pair_eq, refl, true, ℕ, ◌&&◌, ◌++◌, ◌==◌, ◌||◌, ◌∷◌, ◌≡◌,
}
use mirenai.Python.Text.{Text}

-- `s.startswith(p)`
abbrev pub starts_with : Text → Text → Bool
starts_with s [] = true
starts_with [] (c ∷ p) = false
starts_with (x ∷ s) (c ∷ p) = x == c && starts_with s p

-- `s.endswith(t)`
abbrev pub ends_with : Text → Text → Bool
ends_with [] t = [] == t
ends_with (x ∷ s) t = (x ∷ s) == t || ends_with s t

-- the part of `s` before the first character that satisfies the test
abbrev pub take_until : (ℕ → Bool) → Text → Text
take_until stop [] = []
take_until stop (x ∷ s) = if stop x then [] else x ∷ take_until stop s

-- `s.endswith(t)` means that `s` is some text followed by `t`.
pub ends_with_sound : (s t : Text) → ends_with s t ≡ true → (p : Text) × (s ≡ p ++ t)
ends_with_sound [] t h = ([], ((list_beq_iff [] t).0 h))
ends_with_sound (x ∷ s) t h = elim (Bool-cases ((x ∷ s) == t)) [
  | inl same ↦ ([], (list_beq_iff (x ∷ s) t).0 same)
  | inr other ↦ let (p, e) = ends_with_sound s t (ground arith) in (x ∷ p, ap (◌∷◌ x) e)
]

ends_with_self : (t : Text) → ends_with t t ≡ true
ends_with_self [] = refl
ends_with_self (x ∷ t) = ground (arith, list_beq_iff (x ∷ t) (x ∷ t))

pub ends_with-append : (p t : Text) → ends_with (p ++ t) t ≡ true
ends_with-append [] t = ends_with_self t
ends_with-append (x ∷ p) t = ground (arith, ends_with-append p t)
