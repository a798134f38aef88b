-- ===== src/Repository/Hosts/Records.antt =====
-- What the functions of src/mirenai/repository/hosts.py leave in the tables.
use mirenai.Prelude.{
  All, Eq, List, Option-cases, [], arith, false, if◌then◌else◌, inl, inr, list_beq_iff, list_eq,
  nat_eq, none, not, pair_eq, refl, some, true, ℕ, ◌++◌, ◌+◌, ◌==◌, ◌∷◌, ◌≡◌,
}
use mirenai.Buffers.Queries.{QueryKey}
use mirenai.Buffers.Requests.{RequestKey}
use mirenai.Buffers.Stats.{StatKey}
use mirenai.Buffers.Tally.{handed}
use mirenai.Python.Dict.{Dict}
use mirenai.Python.Text.{Text}
use mirenai.Repository.Hosts.{
  Host, HostTables, change_ip, delete_host, get_host, host_of_ip, new_host, record_hosts,
  seen_again,
}
use mirenai.Repository.Rows.{get-other_rows, next_row_id}
use mirenai.Repository.Select.{All-where_rows, get-where_rows, where_rows}
use mirenai.Python.Dict
use mirenai.Repository.Policies.{Policy}
use mirenai.Repository.Hosts.{record_host}

-- the count of an address, 0 if it is unknown
abbrev pub count_of : Text → List Host → ℕ
count_of ip [] = 0
count_of ip (h ∷ hs) = if h.ip == ip then h.query_count else count_of ip hs

count-change_ip :
    (now n : ℕ) (ip j : Text) (hs : List Host) (h : Host)
    → host_of_ip ip hs ≡ some h
    → count_of j (change_ip ip (seen_again now n) hs) ≡ count_of j hs + (if ip == j then n else 0)
count-change_ip now n ip j [] h f = cc
count-change_ip now n ip j (g ∷ hs) h f = ground (
  arith,
  count-change_ip now n ip j hs h,
  list_beq_iff g.ip ip,
  list_beq_iff g.ip j,
  list_beq_iff ip j,
)

count-append_host :
    (now id n : ℕ) (ip j : Text) (hs : List Host)
    → host_of_ip ip hs ≡ none
    → count_of j (hs ++ new_host now id ip n ∷ []) ≡ count_of j hs + (if ip == j then n else 0)
count-append_host now id n ip j [] f = ground arith
count-append_host now id n ip j (g ∷ hs) f = ground (
  arith,
  count-append_host now id n ip j hs,
  list_beq_iff g.ip ip,
  list_beq_iff g.ip j,
  list_beq_iff ip j,
)

count-record_host :
    (now : ℕ) (x : Text × ℕ) (j : Text) (hs : List Host)
    → count_of j (record_host now x hs) ≡ count_of j hs + (if x.0 == j then x.1 else 0)
unfolding record_host
count-record_host now x j hs = elim (Option-cases (host_of_ip x.0 hs)) [
  | inl new ↦
      rw (new, record_host)
        (count-append_host now (next_row_id (λ (h : Host). h.id) hs) x.1 x.0 j hs new)
  | inr (h, known) ↦ rw (known, record_host) (count-change_ip now x.1 x.0 j hs h known)
]

-- A flush adds to the count of each address what the flush counts for it, new addresses included.
pub count-record_hosts :
    (now : ℕ) (counts : Dict Text ℕ) (j : Text) (hs : List Host)
    → count_of j (record_hosts now counts hs)
      ≡ count_of j hs + handed (λ k (x : Text × ℕ). if x.0 == k then x.1 else 0) j counts
unfolding record_hosts
count-record_hosts now [] j hs = omega arith
count-record_hosts now (x ∷ counts) j hs =
    omega
      (arith, count-record_hosts now counts j (record_host now x hs), count-record_host now x j hs)

get-without :
    {V K : Type 0} ⦃e : Eq K⦄ (client : K → Text) (ip : Text) (k : K) (t : Dict K V)
    → Dict.get k (where_rows (λ (x : K × V). not (client x.0 == ip)) t)
      ≡ (if client k == ip then none else Dict.get k t)
get-without client ip k t = ground (
  arith,
  get-where_rows (λ x. not (client x.0 == ip)) (λ j. not (client j == ip)) (λ x. refl) k t,
)

-- The deletion of a host that is there leaves no statistics, requests, log entries or policies of its
-- address, and keeps those of every other client, the policies in their order, and the other hosts.
pub delete_host_cascade :
    (id : ℕ) (s : HostTables) (h : Host)
    → get_host id s.hosts ≡ some h
    → let (s', found) = delete_host id s in
      (found ≡ true)
      × ((j : ℕ) → get_host j s'.hosts ≡ (if j == id then none else get_host j s.hosts))
      × ((k : StatKey) → Dict.get k s'.stats ≡ (if k.1 == h.ip then none else Dict.get k s.stats))
      × ((k : RequestKey)
          → Dict.get k s'.requests ≡ (if k.0 == h.ip then none else Dict.get k s.requests))
      × ((k : QueryKey) → Dict.get k s'.log ≡ (if k.0 == h.ip then none else Dict.get k s.log))
      × (s'.policies ≡ where_rows (λ (p : Policy). not (p.client == h.ip)) s.policies)
      × All (λ p. (p.client == h.ip) ≡ false) s'.policies
unfolding delete_host
delete_host_cascade id s h found =
    rw (found, delete_host)
      (
        refl,
        λ j. get-other_rows (λ (x : Host). x.id) id j s.hosts,
        λ k. get-without (λ (i : StatKey). i.1) h.ip k s.stats,
        λ k. get-without (λ (i : RequestKey). i.0) h.ip k s.requests,
        λ k. get-without (λ (i : QueryKey). i.0) h.ip k s.log,
        refl,
        All-where_rows (λ p. (p.client == h.ip) ≡ false) (λ p. not (p.client == h.ip))
            (λ p e. ground arith) s.policies,
      )
