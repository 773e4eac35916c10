-- ===== src/Tracker/Capacity.antt =====
-- How many clients a window admits: internal/throttle/tracker/impl/fixed_window_tracker.go.
use Prim.Native.Nat.{min}
use goqueuesim.Common.{
  ℕ, suc, ◌+◌, ◌-◌, ◌≤◌, ◌≡◌, refl, ◌≢◌, inl, inr, true, none, some, List, [], ◌∷◌, arith, leb,
  if◌then◌else◌, Bool-cases, ℤ, ==ℤ_iff, length, All, AllDistinct,
}
use goqueuesim.Common.Map.{
  int_key, lookup, insert, lookup-insert, lookup-insert_self, length-insert, length-insert-le,
}
use goqueuesim.Tracker.{Ids, FixedWindowTracker, should_proceed, window}
use goqueuesim.Tracker.Windows.{
  can_pass, should_proceed-result, should_proceed-checkouts, should_proceed-pollers,
}

-- The checkouts and the pollers recorded for the current window.
abbrev pub checkouts : FixedWindowTracker → Ids
checkouts t = window t.cur_window_index t.windowed_checkout_util

abbrev pub pollers : FixedWindowTracker → Ids
pollers t = window t.cur_window_index t.windowed_polling_util

-- No window records more than one client above the configured maximum.
abbrev pub IsWithin : FixedWindowTracker → Type 0
IsWithin t = (j : ℤ) → length (window j t.windowed_checkout_util) ≤ t.max_checkouts_per_window + 1

pub should_proceed-max :
    (id : ℤ) (t : FixedWindowTracker)
    → (should_proceed id t).0.max_checkouts_per_window ≡ t.max_checkouts_per_window
unfolding should_proceed
should_proceed-max id t = refl

should_proceed-index :
    (id : ℤ) (t : FixedWindowTracker)
    → (should_proceed id t).0.cur_window_index ≡ t.cur_window_index
unfolding should_proceed
should_proceed-index id t = refl

-- A call keeps every window within the maximum plus one.
pub should_proceed-IsWithin :
    (id : ℤ) (t : FixedWindowTracker) → IsWithin t → IsWithin (should_proceed id t).0
unfolding can_pass
should_proceed-IsWithin id t h j = ground (
  arith,
  h j,
  should_proceed-max id t,
  should_proceed-checkouts id j t,
  length-insert-le id true (window j t.windowed_checkout_util),
  ==ℤ_iff t.cur_window_index j,
)

-- A call records the client as polling. It lets the client pass exactly when the current window holds
-- at most the maximum before the call; then it records the client as checking out, and otherwise
-- the checkouts of the window stay as they were.
pub should_proceed_effect :
    (id : ℤ) (t : FixedWindowTracker)
    → let (t', passed) = should_proceed id t in
      (lookup id (pollers t') ≡ some true)
      × (passed ≡ leb (length (checkouts t)) t.max_checkouts_per_window)
      × (checkouts t' ≡ (if passed then insert id true (checkouts t) else checkouts t))
unfolding can_pass
should_proceed_effect id t = ground (
  arith,
  should_proceed-index id t,
  should_proceed-result id t,
  should_proceed-pollers id t.cur_window_index t,
  should_proceed-checkouts id t.cur_window_index t,
  ==ℤ_iff t.cur_window_index t.cur_window_index,
  lookup-insert_self id true (pollers t),
)

-- The clients admitted when a list of clients asks in turn, within one window.
pub admitted : List ℤ → FixedWindowTracker → ℕ
admitted [] t = 0
admitted (id ∷ ids) t =
    let (t', passed) = should_proceed id t in
    if passed then suc (admitted ids t') else admitted ids t'

abbrev pub AreNew : Ids → List ℤ → Type 0
AreNew w = All (λ id. lookup id w ≡ none)

AreNew-insert :
    (id : ℤ) (w : Ids) (ids : List ℤ)
    → All (λ j. id ≢ j) ids
    → AreNew w ids
    → AreNew (insert id true w) ids
AreNew-insert id w [] d n = tt
AreNew-insert id w (j ∷ ids) d n =
    (ground (arith, lookup-insert id j true w, ==ℤ_iff id j, d.0), AreNew-insert id w ids d.1 n.1)

checkouts-should_proceed :
    (id : ℤ) (t : FixedWindowTracker)
    → checkouts (should_proceed id t).0
      ≡ (if can_pass t then insert id true (checkouts t) else checkouts t)
checkouts-should_proceed id t = ground (
  arith,
  should_proceed-index id t,
  should_proceed-checkouts id t.cur_window_index t,
  ==ℤ_iff t.cur_window_index t.cur_window_index,
)

AreNew-should_proceed :
    (id : ℤ) (ids : List ℤ) (t : FixedWindowTracker)
    → All (λ j. id ≢ j) ids
    → AreNew (checkouts t) ids
    → AreNew (checkouts (should_proceed id t).0) ids
AreNew-should_proceed id ids t d n = elim (Bool-cases (can_pass t)) [
  | inl passed ↦ rw (checkouts-should_proceed id t, passed) (AreNew-insert id (checkouts t) ids d n)
  | inr refused ↦ rw (checkouts-should_proceed id t, refused) n
]

-- Of distinct clients that are not yet recorded, a window admits as many as there are places left,
-- counting one place more than the configured maximum.
pub admitted-eq-min :
    (ids : List ℤ) (t : FixedWindowTracker)
    → AllDistinct ids
    → AreNew (checkouts t) ids
    → admitted ids t ≡ min (length ids) (t.max_checkouts_per_window + 1 - length (checkouts t))
unfolding admitted can_pass
admitted-eq-min [] t d n = omega arith
admitted-eq-min (id ∷ ids) t d n = ground (
  arith,
  should_proceed-result id t,
  should_proceed-max id t,
  checkouts-should_proceed id t,
  length-insert id true (checkouts t),
  admitted-eq-min ids (should_proceed id t).0 d.1 (AreNew-should_proceed id ids t d.0 n.1),
)
