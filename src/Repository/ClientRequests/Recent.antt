-- ===== src/Repository/ClientRequests/Recent.antt =====
-- src/mirenai/repository/client_requests.py: the domains that were first seen last.
use mirenai.Python.Dict
use mirenai.Repository.QueryLog.Totals.{LogRow}
use mirenai.Prelude.{
  Bool, List, Option, [], arith, contains, if◌then◌else◌, length, length-take-le, list_eq, ltb, map,
  nat_eq, none, not, pair_beq_iff, pair_eq, refl, some, take, true, ℕ, ◌==◌, ◌∷◌, ◌≡◌, ◌≤◌,
}
use mirenai.Python.Dict.{Dict, is_some}
use mirenai.Python.Text.{Text}
use mirenai.Repository.ClientRequests.{RequestTable}
use mirenai.Repository.ClientRequests.NewDomains.{RequestRow, first_seens}
use mirenai.Repository.QueryLog.{LogTable}
use mirenai.Repository.Select.{order_by, where_rows}

abbrev pub Pair : Type 0
Pair = Text × Text

-- the client and the domain of a row of the log
abbrev pub pair_of : LogRow → Pair
pair_of x = (x.0.0, x.0.1.0)

-- what the log last recorded: the action and the query type
abbrev pub Action : Type 0
Action = Text × Text

-- `actions.setdefault((client, domain), (last_action, qtype))`
abbrev pub set_default : Pair → Action → Dict Pair Action → Dict Pair Action
set_default k a d = if is_some (Dict.get k d) then d else Dict.put k a d

abbrev pub default_all : List LogRow → Dict Pair Action → Dict Pair Action
default_all [] d = d
default_all (x ∷ rows) d = default_all rows (set_default (pair_of x) (x.1.last_action, x.0.1.1) d)

-- by `last_seen` and then by id, both descending
abbrev pub log_later : LogRow → LogRow → Bool
log_later x y = ltb y.1.last_seen x.1.last_seen

-- `_last_actions_for`
unfoldable pub last_actions_for : List Pair → LogTable → Dict Pair Action
last_actions_for [] t = []
last_actions_for (p ∷ pairs) t =
    default_all (order_by log_later (where_rows (λ x. contains (p ∷ pairs) (pair_of x)) t)) []

pub record RecentDomain : Type 0 where
  pub client : Text
  pub domain : Text
  pub first_seen : ℕ
  pub last_action : Option Text
  pub last_qtype : Option Text

-- `actions.get((row.client, row.domain), (None, None))`
abbrev pub recent_row : Dict Pair Action → Pair × ℕ → RecentDomain
recent_row actions x = record {
  client = x.0.0;
  domain = x.0.1;
  first_seen = x.1;
  last_action = elim (Dict.get x.0 actions) [ none ↦ none | some a ↦ some a.0 ];
  last_qtype = elim (Dict.get x.0 actions) [ none ↦ none | some a ↦ some a.1 ];
}

abbrev pub pairs_of : List (Pair × ℕ) → List Pair
pairs_of [] = []
pairs_of (x ∷ rows) = x.0 ∷ pairs_of rows

-- the pairs by the time they were first seen, newest first
abbrev pub recent_pairs : ℕ → List Text → RequestTable → List (Pair × ℕ)
recent_pairs limit exclude requests = take limit (
    order_by (λ x y. not (ltb x.1 y.1))
      (first_seens (where_rows (λ (x : RequestRow). not (contains exclude x.0.0)) requests)))

unfoldable pub list_recent_new_domains : ℕ → List Text → RequestTable → LogTable → List RecentDomain
list_recent_new_domains limit exclude requests t =
    let rows = recent_pairs limit exclude requests in
    map (recent_row (last_actions_for (pairs_of rows) t)) rows

-- the first row of a pair
abbrev pub first_action : Pair → List LogRow → Option Action
first_action p [] = none
first_action p (x ∷ rows) =
    if pair_of x == p then some (x.1.last_action, x.0.1.1) else first_action p rows

abbrev pub or_else : Option Action → Option Action → Option Action
or_else none o = o
or_else (some a) o = some a

get-default_all :
    (p : Pair) (rows : List LogRow) (d : Dict Pair Action)
    → Dict.get p (default_all rows d) ≡ or_else (Dict.get p d) (first_action p rows)
get-default_all p [] d = ground arith
get-default_all p (x ∷ rows) d = ground (
  arith,
  get-default_all p rows (set_default (pair_of x) (x.1.last_action, x.0.1.1) d),
  Dict.get-put (pair_of x) p (x.1.last_action, x.0.1.1) d,
  pair_beq_iff (pair_of x) p,
)

-- The action that is shown for a pair is that of its row of the log that was seen last, the later id
-- first; a pair that is not asked for, or that the log does not have, has none.
pub get-last_actions_for :
    (pairs : List Pair) (t : LogTable) (p : Pair)
    → contains pairs p ≡ true
    → Dict.get p (last_actions_for pairs t)
      ≡ first_action p
          (order_by log_later (where_rows (λ (x : LogRow). contains pairs (pair_of x)) t))
unfolding last_actions_for Dict.get
get-last_actions_for [] t p h = cc
get-last_actions_for (q ∷ pairs) t p h =
    get-default_all p
      (order_by log_later (where_rows (λ (x : LogRow). contains (q ∷ pairs) (pair_of x)) t)) []

-- No client that is excluded is shown, and at most the limit of rows.
pub length-list_recent_new_domains :
    (limit : ℕ) (exclude : List Text) (requests : RequestTable) (t : LogTable)
    → length (list_recent_new_domains limit exclude requests t) ≤ limit
unfolding list_recent_new_domains
length-list_recent_new_domains limit exclude requests t =
    let rows = recent_pairs limit exclude requests in
    omega (
      arith,
      length-map (recent_row (last_actions_for (pairs_of rows) t)) rows,
      length-take-le limit (
          order_by (λ (x : Pair × ℕ) (y : Pair × ℕ). not (ltb x.1 y.1))
            (first_seens (where_rows (λ (x : RequestRow). not (contains exclude x.0.0)) requests))),
    )
  where
    length-map :
        (f : Pair × ℕ → RecentDomain) (xs : List (Pair × ℕ)) → length (map f xs) ≡ length xs
    length-map f [] = refl
    length-map f (x ∷ xs) = omega (arith, length-map f xs)
