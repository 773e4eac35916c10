-- ===== src/Tracker.antt =====
-- internal/throttle/tracker: the feedback message and the fixed window tracker of
-- internal/throttle/tracker/impl/fixed_window_tracker.go. A map from client ids to `true` stands
-- for each window, and is counted by its length. The mutexes are held for a whole call.

pub mod Windows
pub mod Capacity
pub mod Kept
use goqueuesim.Common.{
  ℕ, ◌≡◌, Bool, true, false, ◌||◌, Option, none, some, [], arith, leb, if◌then◌else◌, ℤ, pos, ◌+ℤ◌,
  leb_ℤ, ◌==ℤ◌, length,
}
use goqueuesim.Common.Map.{Map, int_key, lookup, insert, lookup_or}
use goqueuesim.Common.Word.{i64}
use goqueuesim.Common.Float.{Float64}
use goqueuesim.Common.Clock.{milliseconds}

-- map[int]bool and map[int]map[int]bool
abbrev pub Ids : Type 0
Ids = Map ℤ Bool

abbrev pub Windows : Type 0
Windows = Map ℤ Ids

-- FixedWindowTracker: the fields that its methods read and write.
pub record FixedWindowTracker : Type 0 where
  -- a uint64
  pub max_checkouts_per_window : ℕ
  pub cur_window_index : ℤ
  pub windowed_polling_util : Windows
  pub windowed_checkout_util : Windows

-- `if _, ok := dict[i]; !ok { dict[i] = make(map[int]bool) }`
unfoldable pub ensure : ℤ → Windows → Windows
ensure i dict = elim (lookup i dict) [ none ↦ insert i [] dict | some ids ↦ dict ]

-- `dict[i]`, the clients recorded for a window
unfoldable pub window : ℤ → Windows → Ids
window i dict = lookup_or [] i dict

-- `dict[i][id] = true`
unfoldable pub mark : ℤ → ℤ → Windows → Windows
mark i id dict = insert i (insert id true (window i dict)) dict

-- FixedWindowTracker.ShouldProceed
unfoldable pub should_proceed : ℤ → FixedWindowTracker → FixedWindowTracker × Bool
unfolding ensure mark
should_proceed client_id t =
    let i = t.cur_window_index in
    let polling = mark i client_id (ensure i t.windowed_polling_util) in
    let checkout = ensure i t.windowed_checkout_util in
    let can_pass = leb (length (window i checkout)) t.max_checkouts_per_window in
    (
      record t {
        windowed_polling_util = polling;
        windowed_checkout_util = if can_pass then mark i client_id checkout else checkout;
      },
      can_pass,
    )

module _ (fl : Float64) where
  open fl use {Carrier, of_int, div, lt}

  -- tracker.Feedback, with the one key of CustomFeedback that is set and read
  pub record Feedback : Type 0 where
    pub polling_util : Carrier
    pub checkout_util : Carrier
    pub should_ignore_poll_util : Option Bool

  -- FixedWindowTracker.PollingUtilization and CheckoutUtilization
  utilization : Windows → ℕ → ℤ → Carrier
  utilization dict max i = elim (lookup i dict) [
    | none ↦ of_int (pos 0)
    | some ids ↦ div (of_int (pos (length ids))) (of_int (pos max))
  ]

  unfoldable pub polling_utilization : ℤ → FixedWindowTracker → Carrier
  unfolding utilization
  polling_utilization i t = utilization t.windowed_polling_util t.max_checkouts_per_window i

  unfoldable pub checkout_utilization : ℤ → FixedWindowTracker → Carrier
  unfolding utilization
  checkout_utilization i t = utilization t.windowed_checkout_util t.max_checkouts_per_window i

  -- lowPollingUtilConsecCount after a window with the given polling utilization
  unfoldable pub next_low_count : Carrier → Carrier → ℤ → ℤ
  next_low_count util low_util_max_threshold_pct low_count =
      if lt util low_util_max_threshold_pct then i64 (low_count +ℤ pos 1) else pos 0

  -- The timer case of the loop of FixedWindowTracker.MonitorAndEmitFeedback: the tracker, the new
  -- lowPollingUtilConsecCount, and the message that is offered to the feedback channel.
  unfoldable pub emit_feedback :
      Carrier → ℤ → FixedWindowTracker → ℤ → FixedWindowTracker × ℤ × Feedback
  unfolding polling_utilization checkout_utilization next_low_count
  emit_feedback low_util_max_threshold_pct max_skpd_low_polling_util_count t low_count =
      let polling = polling_utilization t.cur_window_index t in
      let checkout = checkout_utilization t.cur_window_index t in
      let count = next_low_count polling low_util_max_threshold_pct low_count in
      (
        record t { cur_window_index = i64 (t.cur_window_index +ℤ pos 1) },
        count,
        record {
          polling_util = polling;
          checkout_util = checkout;
          should_ignore_poll_util = some (
              if (count ==ℤ pos 0) || leb_ℤ max_skpd_low_polling_util_count count
              then false
              else true);
        },
      )

  -- The channel is unbuffered and the send has a default case: the message is delivered to a
  -- receiver that waits, and dropped otherwise.
  unfoldable pub offer : Bool → Feedback → Option Feedback
  offer receiver_waits m = if receiver_waits then some m else none

-- trackerfactory.MakeFixedWindowTracker; `none` where it panics on the window's duration.
unfoldable pub make_fixed_window_tracker : ℤ → ℕ → Option FixedWindowTracker
make_fixed_window_tracker window_duration max_events_per_window =
    if leb_ℤ (milliseconds window_duration) (pos 0)
    then none
    else some (record {
      max_checkouts_per_window = max_events_per_window;
      cur_window_index = pos 0;
      windowed_polling_util = [];
      windowed_checkout_util = [];
    })
