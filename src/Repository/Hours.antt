-- ===== src/Repository/Hours.antt =====
-- The window of hours of a chart: `_fill_hours` of src/mirenai/repository/client_stats.py,
-- upstream_stats.py and cache_outcome.py.
use mirenai.Prelude.{
  All, List, Option, [], arith, false, if◌then◌else◌, leb, length, list_eq, map, nat_eq, none,
  pair_eq, refl, some, suc, true, zero, ℕ, ◌%◌, ◌*◌, ◌++◌, ◌+◌, ◌-◌, ◌/◌, ◌<◌, ◌==◌, ◌∷◌, ◌≡◌, ◌≤◌,
}
use mirenai.Buffers.Tally.{floor_hour, hour}

-- the hours from a bucket back, newest first
abbrev pub hours_back : ℕ → ℕ → List ℕ
hours_back zero bucket = []
hours_back (suc n) bucket = bucket ∷ hours_back n (bucket - hour)

pub length-hours_back : (n bucket : ℕ) → length (hours_back n bucket) ≡ n
length-hours_back zero bucket = refl
length-hours_back (suc n) bucket = omega (arith, length-hours_back n (bucket - hour))

-- how many hours the window of `hours` hours back from now has: it begins inside an hour that it
-- leaves out, unless now is a full hour
abbrev pub window_length : ℕ → ℕ → ℕ
window_length hours now = hours + (if now % hour == 0 then 1 else 0)

module _ {R : Type 0} where
  abbrev pub rows_or_fail : List R → Option (List R) → Option (List R)
  rows_or_fail rows none = none
  rows_or_fail rows (some rest) = some (rows ++ rest)

  -- The `while` loop, on fuel: `rows_at` gives the rows of a bucket.
  unfoldable pub fill_loop : (ℕ → List R) → ℕ → ℕ → ℕ → Option (List R)
  fill_loop rows_at cutoff zero bucket = none
  fill_loop rows_at cutoff (suc fuel) bucket =
      let rest = fill_loop rows_at cutoff fuel (bucket - hour) in
      if leb cutoff bucket then rows_or_fail (rows_at bucket) rest else some []

  -- from the current hour back to the cutoff, on one round of fuel more than there are hours
  unfoldable pub fill_window : (ℕ → List R) → ℕ → ℕ → Option (List R)
  fill_window rows_at hours now =
      fill_loop rows_at (now - hours * hour) (suc (suc hours)) (floor_hour now)

  -- the rows of each of the hours in turn
  abbrev pub rows_of_hours : (ℕ → List R) → List ℕ → List R
  rows_of_hours rows_at [] = []
  rows_of_hours rows_at (h ∷ hs) = rows_at h ++ rows_of_hours rows_at hs

  fill_loop-hours_back :
      (rows_at : ℕ → List R) (cutoff n fuel bucket : ℕ)
      → 0 < cutoff
      → n < fuel
      → bucket < cutoff + n * hour
      → cutoff + n * hour ≤ bucket + hour
      → fill_loop rows_at cutoff fuel bucket ≡ some (rows_of_hours rows_at (hours_back n bucket))
  unfolding fill_loop
  fill_loop-hours_back rows_at cutoff n zero bucket p f above below = absurd (omega arith)
  fill_loop-hours_back rows_at cutoff zero (suc fuel) bucket p f above below =
      let late : leb cutoff bucket ≡ false = ground arith in rw late refl
  fill_loop-hours_back rows_at cutoff (suc n) (suc fuel) bucket p f above below =
      let inside : leb cutoff bucket ≡ true = ground arith in
      let ih =
        fill_loop-hours_back rows_at cutoff n fuel (bucket - hour) p (omega arith) (omega arith)
          (omega arith) in
      rw (inside, ih) refl

  -- The loop ends, after one round for each hour of the window.
  pub fill_window-hours_back :
      (rows_at : ℕ → List R) (hours now : ℕ)
      → hours * hour < now
      → fill_window rows_at hours now
        ≡ some (rows_of_hours rows_at (hours_back (window_length hours now) (floor_hour now)))
  unfolding fill_window floor_hour
  fill_window-hours_back rows_at hours now h =
      fill_loop-hours_back rows_at (now - hours * hour) (window_length hours now) (suc (suc hours))
        (now / hour * hour) (omega arith) (ground arith) (ground arith) (ground arith)

-- Every hour of the window is one of its rows, and not before the cutoff.
pub hours_back-All :
    (cutoff n bucket : ℕ)
    → cutoff + n * hour ≤ bucket + hour
    → All (λ h. leb cutoff h ≡ true) (hours_back n bucket)
hours_back-All cutoff zero bucket h = tt
hours_back-All cutoff (suc n) bucket h =
    (ground arith, hours_back-All cutoff n (bucket - hour) (omega arith))

pub window-All :
    (hours now : ℕ)
    → hours * hour < now
    → All
        (λ h. leb (now - hours * hour) h ≡ true)
        (hours_back (window_length hours now) (floor_hour now))
unfolding floor_hour
window-All hours now h =
    hours_back-All (now - hours * hour) (window_length hours now) (now / hour * hour) (ground arith)

module _ {R : Type 0} where
  -- If each hour has one row, the window is a list of rows by hour.
  pub rows_of_hours-map :
      (rows_at : ℕ → List R) (entry : ℕ → R) (hs : List ℕ)
      → All (λ h. rows_at h ≡ entry h ∷ []) hs
      → rows_of_hours rows_at hs ≡ map entry hs
  rows_of_hours-map rows_at entry [] a = refl
  rows_of_hours-map rows_at entry (h ∷ hs) a = rw (a.0, rows_of_hours-map rows_at entry hs a.1) refl

  pub rows_of_hours-agree :
      (f g : ℕ → List R) (hs : List ℕ)
      → All (λ h. f h ≡ g h) hs
      → rows_of_hours f hs ≡ rows_of_hours g hs
  rows_of_hours-agree f g [] a = refl
  rows_of_hours-agree f g (h ∷ hs) a = rw (a.0, rows_of_hours-agree f g hs a.1) refl

pub All-mono {ℓ κ ι} :
    {A : Type ℓ} (P : A → Type κ) (Q : A → Type ι)
    → ((a : A) → P a → Q a)
    → (xs : List A) → All P xs
    → All Q xs
All-mono P Q f [] h = tt
All-mono P Q f (x ∷ xs) h = (f x h.0, All-mono P Q f xs h.1)
