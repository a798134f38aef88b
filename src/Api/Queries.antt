-- ===== src/Api/Queries.antt =====
-- src/mirenai/api/errors.py: the query parameters of a request. An integer has its sign, `true` for
-- minus.
use mirenai.Prelude.{
  Bool, Bool-cases, List, Option, [], arith, drop, false, if◌then◌else◌, inl, inr, length,
  length-drop, list_eq, nat_eq, none, not, pair_eq, some, suc, take, zero, ℕ, ◌&&◌, ◌==◌, ◌∷◌, ◌≡◌,
  ◌≤◌,
}
use mirenai.Python.Int.{parse_int}
use mirenai.Python.Int.Digits.{show}
use mirenai.Python.Int.Round.{parse_int-show}
use mirenai.Python.Text.{Text}

abbrev pub SignedInt : Type 0
SignedInt = Bool × ℕ

-- `(paginate, limit, offset, error)`
pub data Pagination : Type 0 where
  all_rows : Pagination
  page_of : Option SignedInt → SignedInt → Pagination
  not_integers : Pagination

abbrev pub Param : Type 0
Param = Option Text

-- an absent parameter, or what `int` makes of it
abbrev pub int_result : Option SignedInt → Option (Option SignedInt)
int_result none = none
int_result (some i) = some (some i)

abbrev pub int_or : Option SignedInt → Param → Option (Option SignedInt)
int_or default none = some default
int_or default (some raw) = int_result (parse_int raw)

abbrev pub offset_or_zero : Option SignedInt → SignedInt
offset_or_zero none = (false, 0)
offset_or_zero (some i) = i

abbrev pub page_or_error : Option (Option SignedInt) → Option (Option SignedInt) → Pagination
page_or_error (some limit) (some offset) = page_of limit (offset_or_zero offset)
page_or_error none offset = not_integers
page_or_error (some limit) none = not_integers

unfoldable pub read_pagination : Param → Param → Pagination
read_pagination none none = all_rows
read_pagination (some l) offset = page_or_error (int_or none (some l)) (int_or none offset)
read_pagination none (some o) = page_or_error (some none) (int_or none (some o))

-- `read_int_query`: an absent or empty value, an integer, or an error
unfoldable pub read_int_query : Param → Option (Option SignedInt)
read_int_query none = some none
read_int_query (some []) = some none
read_int_query (some (c ∷ raw)) = int_or none (some (c ∷ raw))

abbrev pub is_negative : SignedInt → Bool
is_negative i = i.0 && not (i.1 == 0)

-- `stmt.limit(limit).offset(offset)`: SQLite reads a negative limit as none and a negative offset as
-- zero
abbrev pub skipped {ℓ} : {A : Type ℓ} → SignedInt → List A → List A
skipped offset rows = if is_negative offset then rows else drop offset.1 rows

abbrev pub page_signed {ℓ} : {A : Type ℓ} → Option SignedInt → SignedInt → List A → List A
page_signed none offset rows = rows
page_signed (some limit) offset rows =
    if is_negative limit then skipped offset rows else take limit.1 (skipped offset rows)

-- a list handler: the rows, and how many there are in all
pub record Listing (A : Type 0) : Type 0 where
  pub rows : List A
  pub total : ℕ

-- `if err is not None`, `if not paginate`, and the page; `none` is the reply with status 422
unfoldable pub list_reply : {A : Type 0} → Pagination → List A → Option (Listing A)
list_reply all_rows rows = some (record { rows = rows; total = length rows })
list_reply (page_of limit offset) rows =
    some (record { rows = page_signed limit offset rows; total = length rows })
list_reply not_integers rows = none

length-skipped-le :
    {A : Type 0} (offset : SignedInt) (rows : List A) → length (skipped offset rows) ≤ length rows
length-skipped-le offset rows = elim (Bool-cases (is_negative offset)) [
  | inl e ↦ rw e (omega arith)
  | inr e ↦ rw e (omega (arith, length-drop offset.1 rows))
]

length-take-min : {A : Type 0} (n : ℕ) (rows : List A) → length (take n rows) ≤ length rows
length-take-min zero rows = omega arith
length-take-min (suc n) [] = omega arith
length-take-min (suc n) (x ∷ rows) = omega (arith, length-take-min n rows)

length-page_signed-le :
    {A : Type 0} (limit : Option SignedInt) (offset : SignedInt) (rows : List A)
    → length (page_signed limit offset rows) ≤ length rows
length-page_signed-le none offset rows = omega arith
length-page_signed-le (some limit) offset rows = elim (Bool-cases (is_negative limit)) [
  | inl e ↦ rw e (length-skipped-le offset rows)
  | inr e ↦
      rw e (
        omega (arith, length-take-min limit.1 (skipped offset rows), length-skipped-le offset rows))
]

-- Two numbers of at most 4,300 digits in the request give the rows from the offset on, at most as
-- many as the limit; the total counts all rows; a parameter that is no integer is refused.
pub read_pagination_lem :
    {A : Type 0} (l o : ℕ) (rows : List A)
    → length (show l) ≤ 4300
    → length (show o) ≤ 4300
    → (list_reply (read_pagination (some (show l)) (some (show o))) rows
        ≡ some (record { rows = take l (drop o rows); total = length rows }))
      × ((raw : Text) (offset : Param)
          → parse_int raw ≡ none
          → list_reply (read_pagination (some raw) offset) rows ≡ none)
unfolding read_pagination list_reply
read_pagination_lem {A} l o rows few_l few_o = (
  λ i.
      list_reply
        (page_or_error (int_result (parse_int-show l few_l i))
          (int_result (parse_int-show o few_o i)))
        rows,
  λ raw offset bad i. list_reply (page_or_error (int_result (bad i)) (int_or none offset)) rows,
)

-- An offset without a limit is accepted and has no effect.
pub read_pagination-offset_only :
    {A : Type 0} (o : ℕ) (rows : List A)
    → length (show o) ≤ 4300
    → list_reply (read_pagination none (some (show o))) rows
      ≡ list_reply (read_pagination none none) rows
unfolding read_pagination list_reply
read_pagination-offset_only o rows few i =
    list_reply (page_or_error (some none) (int_result (parse_int-show o few i))) rows
