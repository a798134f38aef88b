-- ===== src/Repository/Blocklists/Lookup.antt =====
-- src/mirenai/repository/blocklists.py: the domains that the DNS server loads, and the marking of
-- names that it would block. A set is a list, in any order and possibly with repetitions.
use mirenai.Prelude.{
  All, Bool, List, [], arith, contains, contains-append, false, if◌then◌else◌, list_beq_iff,
  list_eq, nat_eq, not, pair_eq, refl, true, ℕ, ◌&&◌, ◌++◌, ◌||◌, ◌∙◌, ◌∷◌, ◌≡◌,
}
use mirenai.Blocklist.{any_in, domain_suffixes, is_blocked, is_nil}
use mirenai.Python.Text.{Text}
use mirenai.Repository.Blocklists.{Blocklist, enabled_ids}
use mirenai.Repository.Blocklists.Domains.{DomainTable, chunks, chunks-joined, joined, match_chunk}

-- the domains of the rows whose list is one of the given
abbrev pub domains_in : List ℕ → DomainTable → List Text
domains_in ids [] = []
domains_in ids ((k, s) ∷ t) =
    let rest = domains_in ids t in if contains ids k.0 then k.1 ∷ rest else rest

-- no enabled list, no query
abbrev pub loaded_from : List ℕ → DomainTable → List Text
loaded_from [] t = []
loaded_from (i ∷ ids) t = domains_in (i ∷ ids) t

unfoldable pub load_blocklist_domains : List Blocklist → DomainTable → List Text
load_blocklist_domains bs t = loaded_from (enabled_ids bs) t

-- `{candidate for candidate in candidates if candidate}`
abbrev pub unique_candidates : List Text → List Text
unique_candidates [] = []
unique_candidates (c ∷ cs) =
    let rest = unique_candidates cs in if is_nil c || contains rest c then rest else c ∷ rest

-- the rows of one chunk
abbrev pub domains_among : List Text → List Text → List Text
domains_among chunk [] = []
domains_among chunk (d ∷ ds) =
    let rest = domains_among chunk ds in if contains chunk d then d ∷ rest else rest

-- `matched.update(rows)` for each chunk
abbrev pub matched_chunks : List Text → List (List Text) → List Text
matched_chunks loaded [] = []
matched_chunks loaded (c ∷ cs) = domains_among c loaded ++ matched_chunks loaded cs

-- no candidate or no enabled list, no query
abbrev pub matched_from : List Text → List ℕ → DomainTable → List Text
matched_from [] ids t = []
matched_from (c ∷ cs) [] t = []
matched_from (c ∷ cs) (i ∷ ids) t =
    matched_chunks (domains_in (i ∷ ids) t) (chunks match_chunk (c ∷ cs))

unfoldable pub find_blocked_domains : List Text → List Blocklist → DomainTable → List Text
find_blocked_domains candidates bs t =
    matched_from (unique_candidates candidates) (enabled_ids bs) t

abbrev pub all_suffixes : List Text → List Text
all_suffixes [] = []
all_suffixes (n ∷ names) = domain_suffixes n ++ all_suffixes names

-- the names of the rows with the field `blocked`
abbrev pub flagged : List Text → List Text → List (Text × Bool)
flagged matched [] = []
flagged matched (n ∷ names) = (n, is_blocked matched n) ∷ flagged matched names

unfoldable pub annotate_blocked : List Text → List Blocklist → DomainTable → List (Text × Bool)
annotate_blocked names bs t = flagged (find_blocked_domains (all_suffixes names) bs t) names

contains-unique_candidates :
    (cs : List Text) (d : Text)
    → contains (unique_candidates cs) d ≡ (contains cs d && not (is_nil d))
contains-unique_candidates [] d = refl
contains-unique_candidates (c ∷ cs) d =
    ground
      (arith, contains-unique_candidates cs d, contains-unique_candidates cs c, list_beq_iff c d)

contains-domains_among :
    (chunk ds : List Text) (d : Text)
    → contains (domains_among chunk ds) d ≡ (contains chunk d && contains ds d)
contains-domains_among chunk [] d = ground arith
contains-domains_among chunk (x ∷ ds) d =
    ground (arith, contains-domains_among chunk ds d, list_beq_iff x d)

contains-matched_chunks :
    (loaded : List Text) (cs : List (List Text)) (d : Text)
    → contains (matched_chunks loaded cs) d ≡ (contains (joined cs) d && contains loaded d)
contains-matched_chunks loaded [] d = refl
contains-matched_chunks loaded (c ∷ cs) d = ground (
  arith,
  contains-matched_chunks loaded cs d,
  contains-append (domains_among c loaded) (matched_chunks loaded cs) d,
  contains-domains_among c loaded d,
  contains-append c (joined cs) d,
)

contains-matched_from :
    (cs : List Text) (ids : List ℕ) (t : DomainTable) (d : Text)
    → contains (matched_from cs ids t) d ≡ (contains cs d && contains (loaded_from ids t) d)
contains-matched_from [] ids t d = refl
contains-matched_from (c ∷ cs) [] t d = ground arith
contains-matched_from (c ∷ cs) (i ∷ ids) t d =
    rw (chunks-joined match_chunk (c ∷ cs) (omega arith)) at
      (contains-matched_chunks (domains_in (i ∷ ids) t) (chunks match_chunk (c ∷ cs)) d)

-- The lookup in chunks finds a candidate exactly if it is not empty and the server loads it.
pub contains-find_blocked_domains :
    (candidates : List Text) (bs : List Blocklist) (t : DomainTable) (d : Text)
    → contains (find_blocked_domains candidates bs t) d
      ≡ (contains candidates d && not (is_nil d) && contains (load_blocklist_domains bs t) d)
unfolding find_blocked_domains load_blocklist_domains
contains-find_blocked_domains candidates bs t d =
    contains-matched_from (unique_candidates candidates) (enabled_ids bs) t d
    ∙ ground (arith, contains-unique_candidates candidates d)

-- A suffix that is looked up is found exactly if it is loaded.
any_in-agree :
    (matched loaded : List Text) (suffixes : List Text)
    → All (λ s. contains matched s ≡ contains loaded s) suffixes
    → any_in matched suffixes ≡ any_in loaded suffixes
any_in-agree matched loaded [] h = refl
any_in-agree matched loaded (s ∷ ss) h = ground (arith, h.0, any_in-agree matched loaded ss h.1)

contains-all_suffixes :
    (names : List Text) (n s : Text)
    → contains names n ≡ true
    → contains (domain_suffixes n) s ≡ true
    → contains (all_suffixes names) s ≡ true
contains-all_suffixes [] n s h k = cc
contains-all_suffixes (m ∷ names) n s h k = ground (
  arith,
  contains-append (domain_suffixes m) (all_suffixes names) s,
  contains-all_suffixes names n s,
  list_beq_iff m n,
)

suffix-agrees :
    (s : Text) (candidates loaded matched : List Text)
    → contains matched s ≡ (contains candidates s && not (is_nil s) && contains loaded s)
    → contains loaded [] ≡ false
    → contains candidates s ≡ true
    → contains matched s ≡ contains loaded s
suffix-agrees [] candidates loaded matched h e k = ground arith
suffix-agrees (x ∷ s) candidates loaded matched h e k = ground arith

suffixes-agree :
    (candidates loaded matched : List Text)
    → ((d : Text)
        → contains matched d ≡ (contains candidates d && not (is_nil d) && contains loaded d))
    → contains loaded [] ≡ false
    → (ss : List Text) → ((s : Text) → contains ss s ≡ true → contains candidates s ≡ true)
    → All (λ s. contains matched s ≡ contains loaded s) ss
suffixes-agree candidates loaded matched h e [] k = tt
suffixes-agree candidates loaded matched h e (s ∷ ss) k = (
  suffix-agrees s candidates loaded matched (h s) e (k s (ground (arith, list_beq_iff s s))),
  suffixes-agree candidates loaded matched h e ss (λ s' p. k s' (ground arith)),
)

flagged-agree :
    (names : List Text) (bs : List Blocklist) (t : DomainTable)
    → contains (load_blocklist_domains bs t) [] ≡ false
    → (rest : List Text) → ((n : Text) → contains rest n ≡ true → contains names n ≡ true)
    → flagged (find_blocked_domains (all_suffixes names) bs t) rest
      ≡ flagged (load_blocklist_domains bs t) rest
flagged-agree names bs t e [] k = refl
flagged-agree names bs t e (n ∷ rest) k =
    let matched = find_blocked_domains (all_suffixes names) bs t in
    let loaded = load_blocklist_domains bs t in
    let found : contains names n ≡ true = k n (ground (arith, list_beq_iff n n)) in
    let same : is_blocked matched n ≡ is_blocked loaded n =
      unfold is_blocked in
      any_in-agree matched loaded (domain_suffixes n) (
        suffixes-agree (all_suffixes names) loaded matched
          (contains-find_blocked_domains (all_suffixes names) bs t) e (domain_suffixes n)
          (λ s p. contains-all_suffixes names n s found p)) in
    let ih = flagged-agree names bs t e rest (λ m p. k m (ground arith)) in λ i. (n, same i) ∷ ih i

-- The flags that the API shows are the decisions of the DNS server on the loaded domains, as long
-- as no list holds the empty name.
pub annotate_blocked-eq-flagged :
    (names : List Text) (bs : List Blocklist) (t : DomainTable)
    → contains (load_blocklist_domains bs t) [] ≡ false
    → annotate_blocked names bs t ≡ flagged (load_blocklist_domains bs t) names
unfolding annotate_blocked
annotate_blocked-eq-flagged names bs t e = flagged-agree names bs t e names (λ n p. p)
