-- ===== src/Tracker/Windows.antt =====
-- Facts on the windows of internal/throttle/tracker/impl/fixed_window_tracker.go.
use goqueuesim.Common.{
  ◌≡◌, Bool, true, ◌&&◌, [], arith, leb, if◌then◌else◌, ℤ, ◌==ℤ◌, ==ℤ_iff, length,
}
use goqueuesim.Common.Map.{int_key, insert, lookup_or, lookup-insert}
use goqueuesim.Tracker.{Windows, FixedWindowTracker, ensure, mark, should_proceed, window}

window-ensure : (i j : ℤ) (dict : Windows) → window j (ensure i dict) ≡ window j dict
unfolding window ensure lookup_or
window-ensure i j dict = ground (arith, lookup-insert i j [] dict, ==ℤ_iff i j)

window-mark :
    (i j id : ℤ) (dict : Windows)
    → window j (mark i id dict)
      ≡ (if i ==ℤ j then insert id true (window i dict) else window j dict)
unfolding window mark lookup_or
window-mark i j id dict =
    ground (arith, lookup-insert i j (insert id true (window i dict)) dict, ==ℤ_iff i j)

-- The test of ShouldProceed, by the clients recorded for the current window.
unfoldable pub can_pass : FixedWindowTracker → Bool
can_pass t =
    leb (length (window t.cur_window_index t.windowed_checkout_util)) t.max_checkouts_per_window

pub should_proceed-result : (id : ℤ) (t : FixedWindowTracker) → (should_proceed id t).1 ≡ can_pass t
unfolding should_proceed can_pass
should_proceed-result id t =
    ground (arith, window-ensure t.cur_window_index t.cur_window_index t.windowed_checkout_util)

-- The checkouts recorded for every window after a call.
pub should_proceed-checkouts :
    (id j : ℤ) (t : FixedWindowTracker)
    → window j (should_proceed id t).0.windowed_checkout_util ≡ (
        if can_pass t && (t.cur_window_index ==ℤ j)
        then insert id true (window j t.windowed_checkout_util)
        else window j t.windowed_checkout_util)
unfolding should_proceed can_pass
should_proceed-checkouts id j t = ground (
  arith,
  window-ensure t.cur_window_index t.cur_window_index t.windowed_checkout_util,
  window-ensure t.cur_window_index j t.windowed_checkout_util,
  window-mark t.cur_window_index j id (ensure t.cur_window_index t.windowed_checkout_util),
  ==ℤ_iff t.cur_window_index j,
)

-- The pollers recorded for every window after a call.
pub should_proceed-pollers :
    (id j : ℤ) (t : FixedWindowTracker)
    → window j (should_proceed id t).0.windowed_polling_util ≡ (
        if t.cur_window_index ==ℤ j
        then insert id true (window j t.windowed_polling_util)
        else window j t.windowed_polling_util)
unfolding should_proceed
should_proceed-pollers id j t = ground (
  arith,
  window-ensure t.cur_window_index t.cur_window_index t.windowed_polling_util,
  window-ensure t.cur_window_index j t.windowed_polling_util,
  window-mark t.cur_window_index j id (ensure t.cur_window_index t.windowed_polling_util),
  ==ℤ_iff t.cur_window_index j,
)
