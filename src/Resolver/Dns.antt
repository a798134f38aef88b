-- ===== src/Resolver/Dns.antt =====
-- What src/mirenai/domain/resolver.py uses of the package `dnslib`, which is a parameter of the
-- model: messages with the attributes that the program reads and writes, and its calls.
use mirenai.Prelude.{Bool, List, Option, [], list_eq, nat_eq, pair_eq, some, ℕ, ◌≡◌}
use mirenai.Python.Text.{Text}

abbrev pub qtype_a : ℕ
qtype_a = 1

abbrev pub qtype_cname : ℕ
qtype_cname = 5

abbrev pub qtype_soa : ℕ
qtype_soa = 6

abbrev pub qtype_ptr : ℕ
qtype_ptr = 12

abbrev pub qtype_aaaa : ℕ
qtype_aaaa = 28

abbrev pub rcode_noerror : ℕ
rcode_noerror = 0

abbrev pub rcode_servfail : ℕ
rcode_servfail = 2

abbrev pub rcode_nxdomain : ℕ
rcode_nxdomain = 3

-- A question; the name is the text that `str(question.qname)` gives.
pub record Question : Type 0 where
  pub qname : Text
  pub qtype : ℕ
  pub qclass : ℕ

-- `RR` with rdata of a type `R`
pub record Rr (R : Type 0) : Type 0 where
  pub rname : Text
  pub rtype : ℕ
  pub ttl : ℕ
  pub rdata : R

-- `DNSRecord`: the header's id, response code and truncation bit, the first question, and the
-- three sections
pub record Message (R : Type 0) : Type 0 where
  pub id : ℕ
  pub rcode : ℕ
  pub tc : Bool
  pub question : Question
  pub rr : List (Rr R)
  pub auth : List (Rr R)
  pub ar : List (Rr R)

-- The calls of dnslib, for rdata `R` and packed messages `B`. A result `none` is an exception.
pub record Dnslib (R B : Type 0) : Type 0 where
  -- `DNSRecord.parse(data)`, `record.pack()` and `request.reply()`
  pub parse : B → Option (Message R)
  pub pack : Message R → B
  pub reply : Message R → Message R
  -- `QTYPE[value]` and `RCODE[value]`
  pub qtype_of : ℕ → Option Text
  pub rcode_of : ℕ → Option Text
  -- `str(record.rdata)`, and `record.rdata.times[4]` of a SOA record
  pub rdata_text : R → Text
  pub soa_minimum : R → ℕ
  -- `A(value)`, `AAAA(value)`, `CNAME(value)` and `PTR(value)`
  pub a : Text → Option R
  pub aaaa : Text → Option R
  pub cname : Text → R
  pub ptr : Text → R

-- What the program relies on: a reply is to the same question, with the same id, and has no
-- records; and parsing reads what packing writes.
pub record IsDnslib {R B : Type 0} (dns : Dnslib R B) : Type 0 where
  pub reply-id : (m : Message R) → (dns.reply m).id ≡ m.id
  pub reply-question : (m : Message R) → (dns.reply m).question ≡ m.question
  pub reply-rr : (m : Message R) → (dns.reply m).rr ≡ []
  pub reply-auth : (m : Message R) → (dns.reply m).auth ≡ []
  pub reply-ar : (m : Message R) → (dns.reply m).ar ≡ []
  pub parse-pack : (m : Message R) → dns.parse (dns.pack m) ≡ some m
