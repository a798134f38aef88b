-- ===== src/Resolver/Chain.antt =====
-- src/mirenai/domain/resolver.py: chains of local aliases.
use mirenai.Resolver.Dns.{Rr, Dnslib, qtype_a, qtype_aaaa, qtype_cname}
use mirenai.Resolver.Answers.{address_answers, address_chain, rtype_of, build_addr_rdata}
use mirenai.LocalZones.{LocalRecord, LocalRecords, owns, records_of, cname}
use mirenai.Prelude.{
  Bool-cases, List, Option-cases, [], arith, false, if◌then◌else◌, inl, inr, list_eq, nat_eq, none,
  pair_eq, refl, some, suc, true, zero, ℕ, ◌+◌, ◌==◌, ◌∷◌, ◌≡◌, ◌≤◌, ◌⊎◌,
}
use mirenai.Python.Text.{Text}
use mirenai.Resolver.Keys.{max_cname_depth}

List-cases {ℓ} : {A : Type ℓ} (xs : List A) → (xs ≡ []) ⊎ ((y : A) × (ys : List A) × (xs ≡ y ∷ ys))
List-cases [] = inl refl
List-cases (y ∷ ys) = inr (y, ys, refl)

module _ {R B : Type 0} (dns : Dnslib R B) (qtype : ℕ) (records : LocalRecords) where
  -- how many answers are aliases
  abbrev pub aliases : List (Rr R) → ℕ
  aliases [] = 0
  aliases (r ∷ rs) = (if r.rtype == qtype_cname then 1 else 0) + aliases rs

  -- one answer for each record whose value makes a record of the type, in order
  pub data IsAddresses (owner : Text) : List LocalRecord → List (Rr R) → Type 0 where
    no_more : IsAddresses owner [] []
    unusable :
        {r : LocalRecord} {rs : List LocalRecord} {answers : List (Rr R)}
        → build_addr_rdata dns qtype r.value ≡ none
        → IsAddresses owner rs answers
        → IsAddresses owner (r ∷ rs) answers
    usable :
        {r : LocalRecord} {rs : List LocalRecord} {answers : List (Rr R)} {rdata : R}
        → build_addr_rdata dns qtype r.value ≡ some rdata
        → IsAddresses owner rs answers
        → IsAddresses owner
            (r ∷ rs)
            (record { rname = owner; rtype = qtype; ttl = r.ttl; rdata = rdata } ∷ answers)

  abbrev pub alias_answer : Text → LocalRecord → Rr R
  alias_answer owner r = record {
    rname = owner;
    rtype = qtype_cname;
    ttl = r.ttl;
    rdata = dns.cname r.value;
  }

  -- The answers of a chain that may still follow some aliases: the addresses of the name if it has
  -- any; nothing if it has no alias either; else its alias, and the chain at the target if the
  -- local records own it. Behind the last alias that may be followed only addresses are looked for.
  pub data IsChain : ℕ → Text → Text → List (Rr R) → Type 0 where
    limit :
        {owner name : Text} {answers : List (Rr R)}
        → IsAddresses owner (records_of records name (rtype_of dns qtype)) answers
        → IsChain zero owner name answers
    addresses :
        {left : ℕ} {owner name : Text} {r : LocalRecord} {rs : List LocalRecord}
        {answers : List (Rr R)}
        → records_of records name (rtype_of dns qtype) ≡ r ∷ rs
        → IsAddresses owner (r ∷ rs) answers
        → IsChain (suc left) owner name answers
    nothing :
        {left : ℕ} {owner name : Text}
        → records_of records name (rtype_of dns qtype) ≡ []
        → cname records name ≡ none
        → IsChain (suc left) owner name []
    outside :
        {left : ℕ} {owner name : Text} {r : LocalRecord}
        → records_of records name (rtype_of dns qtype) ≡ []
        → cname records name ≡ some r
        → owns records r.value ≡ false
        → IsChain (suc left) owner name (alias_answer owner r ∷ [])
    alias :
        {left : ℕ} {owner name : Text} {r : LocalRecord} {answers : List (Rr R)}
        → records_of records name (rtype_of dns qtype) ≡ []
        → cname records name ≡ some r
        → owns records r.value ≡ true
        → IsChain left r.value r.value answers
        → IsChain (suc left) owner name (alias_answer owner r ∷ answers)

  address_answers-IsAddresses :
      (owner : Text) (rs : List LocalRecord)
      → IsAddresses owner rs (address_answers dns owner qtype rs)
  unfolding address_answers
  address_answers-IsAddresses owner [] = IsAddresses.no_more
  address_answers-IsAddresses owner (r ∷ rs) =
      elim (Option-cases (build_addr_rdata dns qtype r.value)) [
        | inl bad ↦
            rw (bad, address_answers)
              (IsAddresses.unusable bad (address_answers-IsAddresses owner rs))
        | inr (rdata, ok) ↦
            rw (ok, address_answers) (IsAddresses.usable ok (address_answers-IsAddresses owner rs))
      ]

  aliases-addresses :
      (owner : Text) (rs : List LocalRecord)
      → (qtype == qtype_cname) ≡ false
      → aliases (address_answers dns owner qtype rs) ≡ 0
  unfolding address_answers
  aliases-addresses owner [] h = refl
  aliases-addresses owner (r ∷ rs) h = elim (Option-cases (build_addr_rdata dns qtype r.value)) [
    | inl bad ↦ rw (bad, address_answers) (aliases-addresses owner rs h)
    | inr (rdata, ok) ↦
        rw (ok, address_answers) (rw h (omega (arith, aliases-addresses owner rs h)))
  ]

  -- what the theorem below says of a list of answers
  IsShort : ℕ → Text → Text → List (Rr R) → Type 0
  IsShort left owner name rs = IsChain left owner name rs × (aliases rs ≤ left)

  module _ (h : (qtype == qtype_cname) ≡ false) where
    limit-IsShort :
        (owner name : Text)
        → IsShort zero owner name (address_chain dns zero owner name qtype records)
    unfolding IsShort address_chain
    limit-IsShort owner name =
        let rs = records_of records name (rtype_of dns qtype) in
        (
          IsChain.limit (address_answers-IsAddresses owner rs),
          omega (arith, aliases-addresses owner rs h),
        )

    addresses-IsShort :
        (left : ℕ) (owner name : Text) (r : LocalRecord) (rs : List LocalRecord)
        → records_of records name (rtype_of dns qtype) ≡ r ∷ rs
        → IsShort (suc left) owner name (address_answers dns owner qtype (r ∷ rs))
    unfolding IsShort
    addresses-IsShort left owner name r rs e = (
      IsChain.addresses e (address_answers-IsAddresses owner (r ∷ rs)),
      omega (arith, aliases-addresses owner (r ∷ rs) h),
    )

    matched :
        (left : ℕ) (owner name : Text) (r : LocalRecord) (rs : List LocalRecord)
        → records_of records name (rtype_of dns qtype) ≡ r ∷ rs
        → address_chain dns (suc left) owner name qtype records
          ≡ address_answers dns owner qtype (r ∷ rs)
    unfolding address_chain
    matched left owner name r rs e = rw (e, address_chain) refl

    unmatched :
        (left : ℕ) (owner name : Text)
        → records_of records name (rtype_of dns qtype) ≡ []
        → cname records name ≡ none
        → address_chain dns (suc left) owner name qtype records ≡ []
    unfolding address_chain
    unmatched left owner name e c = rw (e, address_chain) (rw (c) refl)

    aliased :
        (left : ℕ) (owner name : Text) (r : LocalRecord)
        → records_of records name (rtype_of dns qtype) ≡ []
        → cname records name ≡ some r
        → address_chain dns (suc left) owner name qtype records
          ≡ record { rname = owner; rtype = qtype_cname; ttl = r.ttl; rdata = dns.cname r.value }
            ∷ (if owns records r.value
                then address_chain dns left r.value r.value qtype records
                else [])
    unfolding address_chain
    aliased left owner name r e c = elim (Bool-cases (owns records r.value)) [
      | inl own ↦ rw (e, address_chain) (rw c (rw own refl))
      | inr other ↦ rw (e, address_chain) (rw c (rw other refl))
    ]

    nothing-IsShort :
        (left : ℕ) (owner name : Text)
        → records_of records name (rtype_of dns qtype) ≡ []
        → cname records name ≡ none
        → IsShort (suc left) owner name []
    unfolding IsShort
    nothing-IsShort left owner name e c = (IsChain.nothing e c, omega arith)

    alias-IsShort :
        (left : ℕ) (owner name : Text) (r : LocalRecord) (answers : List (Rr R))
        → records_of records name (rtype_of dns qtype) ≡ []
        → cname records name ≡ some r
        → IsShort left r.value r.value answers
        → IsShort
            (suc left)
            owner
            name
            (alias_answer owner r ∷ (if owns records r.value then answers else []))
    unfolding IsShort
    alias-IsShort left owner name r answers e c (chain, short) =
        elim (Bool-cases (owns records r.value)) [
          | inl own ↦ rw own (IsChain.alias e c own chain, omega (arith, short))
          | inr other ↦ rw other (IsChain.outside e c other, omega arith)
        ]

    chain-IsShort :
        (left : ℕ) (owner name : Text)
        → IsShort left owner name (address_chain dns left owner name qtype records)
    chain-IsShort zero owner name = limit-IsShort owner name
    chain-IsShort (suc left) owner name =
        elim (List-cases (records_of records name (rtype_of dns qtype))) [
          | inr (r, rs, e) ↦
              rw (matched left owner name r rs e) (addresses-IsShort left owner name r rs e)
          | inl e ↦ elim (Option-cases (cname records name)) [
            | inl c ↦ rw (unmatched left owner name e c) (nothing-IsShort left owner name e c)
            | inr (r, c) ↦ rw (aliased left owner name r e c) (
                alias-IsShort left owner name r
                  (address_chain dns left r.value r.value qtype records) e c
                  (chain-IsShort left r.value r.value))
          ]
        ]

-- The answers to an address question on a local name are a chain: a name with addresses is answered
-- with them, in order, a name without them with its first alias, which is followed as long as the
-- local records own the target and at most eight times; so they hold at most eight aliases, also if
-- the local records make a loop of them.
pub address_chain-IsChain :
    {R B : Type 0} (dns : Dnslib R B) (qtype : ℕ) (records : LocalRecords) (owner name : Text)
    → (qtype ≡ qtype_a) ⊎ (qtype ≡ qtype_aaaa)
    → IsChain dns qtype records max_cname_depth owner name
        (address_chain dns max_cname_depth owner name qtype records)
      × (aliases dns qtype records (address_chain dns max_cname_depth owner name qtype records)
          ≤ max_cname_depth)
unfolding IsShort
address_chain-IsChain dns qtype records owner name (inl e) =
    chain-IsShort dns qtype records (ground arith) max_cname_depth owner name
address_chain-IsChain dns qtype records owner name (inr e) =
    chain-IsShort dns qtype records (ground arith) max_cname_depth owner name
