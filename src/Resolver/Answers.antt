-- ===== src/Resolver/Answers.antt =====
-- src/mirenai/domain/resolver.py: the replies that need no upstream: denied names, overrides and
-- local records.
use mirenai.Resolver.Dns.{
  Rr, Question, Message, Dnslib, qtype_a, qtype_aaaa, qtype_cname, qtype_ptr, rcode_nxdomain,
}
use mirenai.LocalZones.{
  LocalRecord, LocalRecords, owns, records_of, cname, rtype_a, rtype_aaaa, rtype_cname, rtype_ptr,
}
use mirenai.Prelude.{◌>>=◌}
use mirenai.Prelude.{
  List, Option, [], false, if◌then◌else◌, list_eq, nat_eq, none, pair_eq, some, suc, true, zero, ℕ,
  ◌++◌, ◌==◌, ◌||◌, ◌∷◌,
}
use mirenai.Blocklist.{is_nil}
use mirenai.Policy.{PolicyRule, normalize_domain}
use mirenai.Python.Ip.{addr_text, ip_address, ipv4, ipv6}
use mirenai.Python.Str.Split.{split}
use mirenai.Python.Str.Strip.{strip}
use mirenai.Python.Text.{Text}
use mirenai.Resolver.Keys.{max_cname_depth}

-- `[item.strip() for item in text.split(",") if item.strip()]`
abbrev pub stripped_items : List Text → List Text
stripped_items [] = []
stripped_items (item ∷ items) =
    let rest = stripped_items items in if is_nil (strip item) then rest else strip item ∷ rest

-- `(rule.override_response or "")`, cut at the commas
unfoldable pub override_values : Option Text → List Text
unfolding split strip
override_values none = stripped_items (split b',' [])
override_values (some text) = stripped_items (split b',' text)

module _ {R B : Type 0} (dns : Dnslib R B) where
  unfoldable pub deny : Message R → Message R
  deny request = record (dns.reply request) { rcode = rcode_nxdomain }

  unfoldable pub nodata : Message R → Message R
  nodata request = dns.reply request

  -- The answer of one value: `some none` if there is none, `none` if making the rdata raises.
  unfoldable pub override_answer : Question → ℕ → Text → Option (Option (Rr R))
  unfolding ip_address addr_text
  override_answer question ttl value = elim (ip_address value) [
    | none ↦ some none
    | some (ipv4 n) ↦
        if question.qtype == qtype_a
        then (do
          rdata ← dns.a (addr_text (ipv4 n))
          some
              (some (record { rname = question.qname; rtype = qtype_a; ttl = ttl; rdata = rdata })))
        else some none
    | some (ipv6 n scope) ↦
        if question.qtype == qtype_aaaa
        then (do
          rdata ← dns.aaaa (addr_text (ipv6 n scope))
          some (
              some
                (record { rname = question.qname; rtype = qtype_aaaa; ttl = ttl; rdata = rdata })))
        else some none
  ]

  -- `reply.add_answer` for each value in turn
  unfoldable pub override_answers : Question → ℕ → List Text → Option (List (Rr R))
  override_answers question ttl [] = some []
  override_answers question ttl (value ∷ values) = do
    answer ← override_answer question ttl value
    rest ← override_answers question ttl values
    some (elim answer [ none ↦ rest | some r ↦ r ∷ rest ])

  unfoldable pub override : Message R → PolicyRule → Option (Message R)
  override request rule = do
    answers ←
        override_answers request.question rule.override_ttl (override_values rule.override_response)
    some (record (dns.reply request) { rr = (dns.reply request).rr ++ answers })

  -- `_build_addr_rdata`
  unfoldable pub build_addr_rdata : ℕ → Text → Option R
  build_addr_rdata qtype value = if qtype == qtype_a then dns.a value else dns.aaaa value

  -- the answers of the matching address records
  unfoldable pub address_answers : Text → ℕ → List LocalRecord → List (Rr R)
  address_answers owner qtype [] = []
  address_answers owner qtype (r ∷ rs) =
      let rest = address_answers owner qtype rs in
      elim (build_addr_rdata qtype r.value) [
        | none ↦ rest
        | some rdata ↦ record { rname = owner; rtype = qtype; ttl = r.ttl; rdata = rdata } ∷ rest
      ]

  abbrev pub rtype_of : ℕ → Text
  rtype_of qtype = if qtype == qtype_a then rtype_a else rtype_aaaa

  -- `_add_address_chain`: the answers that it adds. The number is how many aliases may still be
  -- followed, `_MAX_CNAME_DEPTH - depth`. The owner of the answers of an alias is its target.
  unfoldable pub address_chain : ℕ → Text → Text → ℕ → LocalRecords → List (Rr R)
  unfolding records_of cname owns
  address_chain zero owner name qtype records =
      address_answers owner qtype (records_of records name (rtype_of qtype))
  address_chain (suc left) owner name qtype records =
      elim (records_of records name (rtype_of qtype)) [
        | r ∷ rs ↦ address_answers owner qtype (r ∷ rs)
        | [] ↦ elim (cname records name) [
          | none ↦ []
          | some alias ↦
              record {
                rname = owner;
                rtype = qtype_cname;
                ttl = alias.ttl;
                rdata = dns.cname alias.value;
              }
              ∷ (elim (owns records alias.value) [
                | true ↦ address_chain left alias.value alias.value qtype records
                | false ↦ []
              ])
        ]
      ]

  -- `_add_records`
  unfoldable pub plain_answers : Text → List LocalRecord → List (Rr R)
  plain_answers owner [] = []
  plain_answers owner (r ∷ rs) =
      let rest = plain_answers owner rs in
      if r.rtype == rtype_cname
      then record { rname = owner; rtype = qtype_cname; ttl = r.ttl; rdata = dns.cname r.value }
        ∷ rest
      else if r.rtype == rtype_ptr
      then record { rname = owner; rtype = qtype_ptr; ttl = r.ttl; rdata = dns.ptr r.value } ∷ rest
      else rest

  -- the answers to a name that the local records own
  unfoldable pub local_answers : LocalRecords → Question → Text → List (Rr R)
  unfolding records_of
  local_answers records question name =
      if question.qtype == qtype_a || question.qtype == qtype_aaaa
      then address_chain max_cname_depth question.qname name question.qtype records
      else if question.qtype == qtype_cname
      then plain_answers question.qname (records_of records name rtype_cname)
      else if question.qtype == qtype_ptr
      then plain_answers question.qname (records_of records name rtype_ptr)
      else []

  -- `_local`
  unfoldable pub local_reply : LocalRecords → Message R → Option (Message R)
  unfolding owns normalize_domain
  local_reply records request =
      let name = normalize_domain request.question.qname in
      if owns records name
      then some (record (dns.reply request) {
        rr = (dns.reply request).rr ++ local_answers records request.question name;
      })
      else none
