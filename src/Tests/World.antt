-- ===== src/Tests/World.antt =====
-- A small world for the tests of the resolver. The package dnslib is replaced by functions in which a
-- packed message is the message itself, and rdata is its text.
use mirenai.Resolver.Dns.{Rr, Message, Dnslib, IsDnslib}
use mirenai.Resolver.Forward.{Env, Forwarder}
use mirenai.Resolver.Handle.{Resolver}
use mirenai.LocalZones.{LocalRecord, local_records, rtype_cname, rtype_a}
use mirenai.State.{UpstreamServer, RuntimeState, empty_state}
use mirenai.Cache.{second}
use mirenai.Prelude.{
  List, [], false, if◌then◌else◌, list_eq, nat_eq, none, pair_eq, refl, some, ℕ, ◌*◌, ◌==◌, ◌∷◌,
}
use mirenai.Python.Text.{Text, codes}

abbrev pub M : Type 0
M = Message Text

abbrev pub toy_dns : Dnslib Text M
toy_dns = record {
  parse = λ m. some m;
  pack = λ m. m;
  reply = λ m. record {
    id = m.id;
    rcode = 0;
    tc = false;
    question = m.question;
    rr = [];
    auth = [];
    ar = [];
  };
  qtype_of = λ n. none;
  rcode_of = λ n. none;
  rdata_text = λ t. t;
  soa_minimum = λ t. 60;
  a = λ t. some t;
  aaaa = λ t. some t;
  cname = λ t. t;
  ptr = λ t. t;
}

pub toy_dns-IsDnslib : IsDnslib toy_dns
toy_dns-IsDnslib = record {
  reply-id = λ m. refl;
  reply-question = λ m. refl;
  reply-rr = λ m. refl;
  reply-auth = λ m. refl;
  reply-ar = λ m. refl;
  parse-pack = λ m. refl;
}

abbrev pub ask : Text → ℕ → M
ask name qtype = record {
  id = 77;
  rcode = 0;
  tc = false;
  question = record { qname = name; qtype = qtype; qclass = 1 };
  rr = [];
  auth = [];
  ar = [];
}

abbrev pub www_answer : Rr Text
www_answer = record { rname = codes "www.org"; rtype = 1; ttl = 120; rdata = codes "1.2.3.4" }

abbrev pub www_reply : M
www_reply = record (ask (codes "www.org") 1) { rr = www_answer ∷ [] }

-- The upstream with number 53 answers, all others are silent.
abbrev pub one_answers : Env Text M
one_answers = record {
  send = λ i u tcp timeout request. if u.port == 53 then some www_reply else none;
  elapsed = λ i. 900;
  shuffle = λ us. us;
  clock_get = 20 * second;
  clock_hit = 20 * second;
  clock_set = 10 * second;
  wall_stats = 7_200_000_001;
  wall_events = 7_200_000_001;
  wall_outcome = 7_200_000_001;
  wall_rtt = 7_200_000_001;
}

abbrev pub none_answers : Env Text M
none_answers = record one_answers { send = λ i u tcp timeout request. none }

abbrev pub upstream : ℕ → ℕ → UpstreamServer
upstream port priority = record {
  address = codes "9.9.9.9";
  port = port;
  protocol = codes "udp";
  priority = priority;
}

abbrev pub two_upstreams : List UpstreamServer
two_upstreams = upstream 53 20 ∷ upstream 54 10 ∷ []

abbrev pub empty_forwarder : Forwarder M
empty_forwarder = record {
  cache = record { max_entries = 2; entries = [] };
  rtt = record { flush_seconds = 5; accumulators = []; covered_hour = none; covered = [] };
  uncached = record { flush_seconds = 5; max_keys = 2; skips = [] };
  outcomes = record { flush_seconds = 5; counts = [] };
}

abbrev pub idle : Resolver M
idle = record {
  forwarder = empty_forwarder;
  buffer = record { flush_seconds = 5; counters = [] };
  stats = record { flush_seconds = 5; counters = [] };
  requests = record { flush_seconds = 5; counts = [] };
  events = record { flush_seconds = 5; max_events = 3; events = [] };
  foreign = record { flush_seconds = 5; max_clients = 3; counts = [] };
}

abbrev pub home_records : List LocalRecord
home_records =
    record { name = codes "a.lan"; rtype = rtype_cname; value = codes "b.lan"; ttl = 60 }
    ∷ record { name = codes "b.lan"; rtype = rtype_a; value = codes "10.0.0.9"; ttl = 30 }
    ∷ []

abbrev pub home_state : RuntimeState
home_state = record empty_state {
  upstreams = two_upstreams;
  blocklist = codes "ads.com" ∷ [];
  local_records = local_records home_records;
}

abbrev pub client : Text
client = codes "10.0.0.5"
