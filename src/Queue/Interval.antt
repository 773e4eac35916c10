-- ===== src/Queue/Interval.antt =====
-- internal/throttle/queue/impl/interval_bins_queue.go, with MakeIntervalBinsQueue of
-- queue_factory.go.
pub mod Counts
pub mod Runs
pub mod Kept
use goqueuesim.Common.{
  ℕ, String, ◌≡◌, refl, Bool, true, false, Option, none, some, [], if◌then◌else◌, ℤ, pos, ◌+ℤ◌,
  ◌-ℤ◌, leb_ℤ, ltb_ℤ, ◌==ℤ◌, arith,
}
use goqueuesim.Common.Map.{Map, int_key, lookup, insert, lookup_or}
use goqueuesim.Common.Word.{i64}
use goqueuesim.Common.Text.{format_int, parse_int}
use goqueuesim.Common.Clock.{
  Time, Duration, zero_time, add_time, sub_time, milliseconds, millisecond,
}
use goqueuesim.Common.Float.{Float64, millis}
use goqueuesim.Client.{Client, set_throttle_cookie_val, get_throttle_cookie_val, advise_poll_after}
use goqueuesim.Client.Cookies.{
  SameThrottle, SameThrottle-refl, SameThrottle-trans, set_throttle_cookie_val-SameThrottle,
  advise_poll_after-SameThrottle,
}
use goqueuesim.Tracker.{Feedback}
use goqueuesim.Queue.{Queue, QueueLaws}

abbrev pub interval_user_bin_key : String
interval_user_bin_key = "intervalUserBinId"

abbrev pub interval_user_pos_key : String
interval_user_pos_key = "intervalUserQueuePos"

-- type IntervalBinsQueue
pub record IntervalBinsQueue : Type 0 where
  pub window_dur : Duration
  pub max_checkouts_per_window : ℤ
  -- maxUnfairMilliseconds, which is a duration
  pub max_unfair : Duration
  pub bin_counts : Map ℤ ℤ
  pub latest_bin_idx : ℤ
  pub max_considered_bin_idx : ℤ
  pub considered_bin_last_updated : Time
  pub next_scheduled_bin_update : Time
  pub total_queued_clients : ℤ

-- `binCounts[i]`
unfoldable pub bin_count : ℤ → Map ℤ ℤ → ℤ
bin_count i counts = lookup_or (pos 0) i counts

-- `if _, ok := binCounts[i]; !ok { binCounts[i] = 0 }`
unfoldable pub ensure_count : ℤ → Map ℤ ℤ → Map ℤ ℤ
ensure_count i counts = elim (lookup i counts) [ none ↦ insert i (pos 0) counts | some n ↦ counts ]

-- IntervalBinsQueue.getUserBinIdx
unfoldable pub get_user_bin_idx : Client → ℤ × Bool
get_user_bin_idx c =
    let (text, present) = get_throttle_cookie_val interval_user_bin_key c in
    if present
    then elim (parse_int text) [ none ↦ (pos 0, false) | some i ↦ (i, true) ]
    else (pos 0, false)

-- IntervalBinsQueue.getUserQueuePos
unfoldable pub get_user_queue_pos : Client → ℤ × Bool
get_user_queue_pos c =
    let (text, present) = get_throttle_cookie_val interval_user_pos_key c in
    if present
    then elim (parse_int text) [ none ↦ (pos 0, false) | some i ↦ (i, true) ]
    else (pos 0, false)

-- IntervalBinsQueue.Remove
unfoldable pub remove : IntervalBinsQueue → Client → IntervalBinsQueue
remove q c =
    let (i, present) = get_user_bin_idx c in
    if present
    then record q {
      total_queued_clients = i64 (q.total_queued_clients -ℤ pos 1);
      bin_counts = insert i (i64 (bin_count i q.bin_counts -ℤ pos 1)) q.bin_counts;
    }
    else q

unfoldable pub size : IntervalBinsQueue → ℤ
size q = q.total_queued_clients

-- IntervalBinsQueue.IsCandidateToProceed
unfoldable pub is_candidate_to_proceed :
    IntervalBinsQueue → Client → IntervalBinsQueue × Client × Bool
is_candidate_to_proceed q c =
    let (i, present) = get_user_bin_idx c in
    let advised =
      if i64 (i +ℤ pos 1) ==ℤ q.max_considered_bin_idx
      then (advise_poll_after q.next_scheduled_bin_update c).0
      else c in
    if present then (q, advised, leb_ℤ i q.max_considered_bin_idx) else (q, c, false)

-- IntervalBinsQueue.Clear
unfoldable pub clear : IntervalBinsQueue → IntervalBinsQueue
clear q = record q {
  bin_counts = [];
  latest_bin_idx = pos 0;
  max_considered_bin_idx = pos 0;
  total_queued_clients = pos 0;
}

-- One timer round of RoutinelyUpdateLatestBin, which takes no lock.
unfoldable pub update_latest_bin : IntervalBinsQueue → IntervalBinsQueue
update_latest_bin q = record q { latest_bin_idx = i64 (q.latest_bin_idx +ℤ pos 1) }

module _ (fl : Float64) where
  open fl use {of_int, mul, div, max}

  -- How long the client at a position is asked to wait.
  unfoldable pub poll_delay : ℤ → IntervalBinsQueue → Duration
  poll_delay total q = millis fl (
      mul (div (of_int total) (of_int q.max_checkouts_per_window))
        (of_int (milliseconds q.window_dur)))

  -- IntervalBinsQueue.Add
  unfoldable pub add : Time → IntervalBinsQueue → Client → IntervalBinsQueue × Client
  add now q c =
      let i = q.latest_bin_idx in
      let counts = ensure_count i q.bin_counts in
      let total = i64 (q.total_queued_clients +ℤ pos 1) in
      let c₁ = (set_throttle_cookie_val interval_user_bin_key (format_int i) c).0 in
      let c₂ = (set_throttle_cookie_val interval_user_pos_key (format_int total) c₁).0 in
      let c₃ = (advise_poll_after (add_time now (poll_delay total q)) c₂).0 in
      (
        record q {
          bin_counts = insert i (i64 (bin_count i counts +ℤ pos 1)) counts;
          total_queued_clients = total;
        },
        c₃,
      )

  -- allowedInactiveDur of the bin that is worked on
  unfoldable pub allowed_inactive_dur : IntervalBinsQueue → Duration
  allowed_inactive_dur q =
      let ratio =
        div (of_int (bin_count q.max_considered_bin_idx q.bin_counts))
          (of_int q.max_checkouts_per_window) in
      millis fl
        (max (of_int (milliseconds q.max_unfair)) (mul ratio (of_int (milliseconds q.window_dur))))

  -- One round of the loop of RoutinelyMaximizeFairThroughput: the queue, and the duration that the
  -- round sleeps, if any. `now` is read for the test and `again` for the field.
  unfoldable pub maximize_fair_throughput :
      Time → Time → IntervalBinsQueue → IntervalBinsQueue × Option Duration
  maximize_fair_throughput now again q =
      let scheduled = add_time q.considered_bin_last_updated (allowed_inactive_dur q) in
      let q' = record q { next_scheduled_bin_update = scheduled } in
      let rem = sub_time scheduled now in
      if leb_ℤ q.latest_bin_idx q.max_considered_bin_idx
      then (q, some q.max_unfair)
      else if leb_ℤ rem (pos 0)
      then (
        record q' {
          max_considered_bin_idx = i64 (q.max_considered_bin_idx +ℤ pos 1);
          considered_bin_last_updated = again;
        },
        none,
      )
      else (q', some rem)

  -- ReceiveTrackerFeedback only prints.
  unfoldable pub interval_queue : Queue fl IntervalBinsQueue
  unfolding add remove is_candidate_to_proceed size clear
  interval_queue = record {
    add = add;
    remove = remove;
    is_candidate_to_proceed = λ _. is_candidate_to_proceed;
    receive_tracker_feedback = λ _ q. q;
    size = size;
    clear = clear;
  }

  add-SameThrottle :
      (now : Time) (q : IntervalBinsQueue) (c : Client) → SameThrottle c (add now q c).1
  unfolding add
  add-SameThrottle now q c =
      let b = format_int q.latest_bin_idx in
      let c₁ = (set_throttle_cookie_val interval_user_bin_key b c).0 in
      let total = format_int (i64 (q.total_queued_clients +ℤ pos 1)) in
      let c₂ = (set_throttle_cookie_val interval_user_pos_key total c₁).0 in
      SameThrottle-trans c c₂ _
        (SameThrottle-trans c c₁ c₂ (set_throttle_cookie_val-SameThrottle interval_user_bin_key b c)
          (set_throttle_cookie_val-SameThrottle interval_user_pos_key total c₁))
        (advise_poll_after-SameThrottle _ c₂)

  candidate-SameThrottle :
      (q : IntervalBinsQueue) (c : Client) → SameThrottle c (is_candidate_to_proceed q c).1
  unfolding is_candidate_to_proceed
  candidate-SameThrottle q c =
      ground (arith, advise_poll_after-SameThrottle q.next_scheduled_bin_update c)

  pub interval_queue-QueueLaws : QueueLaws interval_queue
  unfolding interval_queue
  interval_queue-QueueLaws = record {
    add-SameThrottle = add-SameThrottle;
    candidate-SameThrottle = λ now. candidate-SameThrottle;
  }

-- MakeIntervalBinsQueue
unfoldable pub make_interval_bins_queue : Time → Duration → ℤ → Duration → IntervalBinsQueue
make_interval_bins_queue now window_dur max_checkouts max_unfair = record {
  window_dur = window_dur;
  max_checkouts_per_window = max_checkouts;
  max_unfair = max_unfair;
  bin_counts = [];
  latest_bin_idx = pos 0;
  max_considered_bin_idx = pos 0;
  considered_bin_last_updated = now;
  next_scheduled_bin_update = zero_time;
  total_queued_clients = pos 0;
}
