-- ===== src/Resolver/Local.antt =====
-- src/mirenai/domain/resolver.py: the answers of the local records to each type of question.
use mirenai.Prelude.{
  Bool-cases, List, [], ap, arith, false, inl, inr, list_beq_iff, list_eq, map, nat_beq_iff, nat_eq,
  pair_eq, refl, true, ◌&&◌, ◌==◌, ◌∷◌, ◌≡◌, ◌⊎◌,
}
use mirenai.LocalZones.{LocalRecord, local_records, rtype_cname, rtype_ptr}
use mirenai.LocalZones.Index.{local_records-answers, typed}
use mirenai.Python.Text.{Text}
use mirenai.Resolver.Answers.{local_answers, plain_answers}
use mirenai.Resolver.Chain.{IsChain, address_chain-IsChain, alias_answer}
use mirenai.Resolver.Dns.{Dnslib, Question, Rr, qtype_a, qtype_aaaa, qtype_cname, qtype_ptr}
use mirenai.Resolver.Keys.{max_cname_depth}

module _ {R B : Type 0} (dns : Dnslib R B) (records : List LocalRecord) (question : Question)
    (name : Text) where
  abbrev pub pointer_answer : LocalRecord → Rr R
  pointer_answer r = record {
    rname = question.qname;
    rtype = qtype_ptr;
    ttl = r.ttl;
    rdata = dns.ptr r.value;
  }

  -- What a list of local records answers about a name: the chain of its aliases for an address
  -- question, all its aliases or pointers, in order, for a question for these, else nothing.
  pub data IsLocalAnswer : List (Rr R) → Type 0 where
    chain :
        {answers : List (Rr R)}
        → (question.qtype ≡ qtype_a) ⊎ (question.qtype ≡ qtype_aaaa)
        → IsChain dns question.qtype
            (local_records records)
            max_cname_depth
            question.qname
            name
            answers
        → IsLocalAnswer answers
    aliased :
        question.qtype ≡ qtype_cname
        → IsLocalAnswer (
            map
              (alias_answer dns question.qtype (local_records records) question.qname)
              (typed name rtype_cname records))
    pointed :
        question.qtype ≡ qtype_ptr
        → IsLocalAnswer (map pointer_answer (typed name rtype_ptr records))
    unanswered :
        (question.qtype == qtype_a) ≡ false
        → (question.qtype == qtype_aaaa) ≡ false
        → (question.qtype == qtype_cname) ≡ false
        → (question.qtype == qtype_ptr) ≡ false
        → IsLocalAnswer []

  plain_answers-cname :
      (rs : List LocalRecord)
      → plain_answers dns question.qname (typed name rtype_cname rs)
        ≡ map
            (alias_answer dns question.qtype (local_records records) question.qname)
            (typed name rtype_cname rs)
  unfolding plain_answers
  plain_answers-cname [] = refl
  plain_answers-cname (r ∷ rs) = elim (Bool-cases (r.name == name && r.rtype == rtype_cname)) [
    | inl here ↦
        let type : (r.rtype == rtype_cname) ≡ true = ground arith in
        rw here (
          rw type (
            ap (◌∷◌ (alias_answer dns question.qtype (local_records records) question.qname r))
              (plain_answers-cname rs)))
    | inr other ↦ rw other (plain_answers-cname rs)
  ]

  plain_answers-ptr :
      (rs : List LocalRecord)
      → plain_answers dns question.qname (typed name rtype_ptr rs)
        ≡ map pointer_answer (typed name rtype_ptr rs)
  unfolding plain_answers
  plain_answers-ptr [] = refl
  plain_answers-ptr (r ∷ rs) = elim (Bool-cases (r.name == name && r.rtype == rtype_ptr)) [
    | inl here ↦
        let type : (r.rtype == rtype_ptr) ≡ true = ground arith in
        let apart : (r.rtype == rtype_cname) ≡ false =
          rw ((list_beq_iff r.rtype rtype_ptr).0 type) refl in
        rw here (rw (apart, type) (ap (◌∷◌ (pointer_answer r)) (plain_answers-ptr rs)))
    | inr other ↦ rw other (plain_answers-ptr rs)
  ]

  pub local_answers-IsLocalAnswer :
      IsLocalAnswer (local_answers dns (local_records records) question name)
  unfolding local_answers
  local_answers-IsLocalAnswer = elim (Bool-cases (question.qtype == qtype_a)) [
    | inl a ↦
        let e = (nat_beq_iff question.qtype qtype_a).0 a in
        rw a (
          IsLocalAnswer.chain (inl e)
            (address_chain-IsChain dns question.qtype (local_records records) question.qname name
              (inl e)).0)
    | inr not_a ↦ elim (Bool-cases (question.qtype == qtype_aaaa)) [
      | inl aaaa ↦
          let e = (nat_beq_iff question.qtype qtype_aaaa).0 aaaa in
          rw (not_a, aaaa)
            (IsLocalAnswer.chain (inr e)
              (address_chain-IsChain dns question.qtype (local_records records) question.qname name
                (inr e)).0)
      | inr not_aaaa ↦ elim (Bool-cases (question.qtype == qtype_cname)) [
        | inl c ↦
            rw
              (
                not_a,
                not_aaaa,
                c,
                (local_records-answers records name rtype_cname).1,
                plain_answers-cname records,
              )
              (IsLocalAnswer.aliased ((nat_beq_iff question.qtype qtype_cname).0 c))
        | inr not_c ↦ elim (Bool-cases (question.qtype == qtype_ptr)) [
          | inl p ↦
              rw
                (
                  not_a,
                  not_aaaa,
                  not_c,
                  p,
                  (local_records-answers records name rtype_ptr).1,
                  plain_answers-ptr records,
                )
                (IsLocalAnswer.pointed ((nat_beq_iff question.qtype qtype_ptr).0 p))
          | inr not_p ↦
              rw (not_a, not_aaaa, not_c, not_p)
                (IsLocalAnswer.unanswered not_a not_aaaa not_c not_p)
        ]
      ]
    ]
  ]
