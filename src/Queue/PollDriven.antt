-- ===== src/Queue/PollDriven.antt =====
-- internal/throttle/queue/impl/polldriven_capped_bins_queue.go, with MakePollDrivenCappedBinsQueue
-- of queue_factory.go.
pub mod Places
use goqueuesim.Common.{
  ℕ, suc, ◌+◌, ◌%◌, ◌^◌, String, ◌≡◌, Bool, true, false, ◌&&◌, Option, none, some, if◌then◌else◌, ℤ,
  pos, ◌+ℤ◌, ◌-ℤ◌, leb_ℤ, ltb_ℤ, ◌==ℤ◌, arith,
}
use goqueuesim.Common.Word.{i64}
use goqueuesim.Common.Text.{format_int, parse_int}
use goqueuesim.Common.Clock.{Time, Duration, zero_time, unix, add_time, sub_time}
use goqueuesim.Common.Panic.{Outcome, ok, panic, ◌>>=◌, quot}
use goqueuesim.Common.Float.{Float64, seconds, millis}
use goqueuesim.Client.{Client, set_throttle_cookie_val, get_throttle_cookie_val, advise_poll_after}
use goqueuesim.Client.Cookies.{
  SameThrottle, SameThrottle-refl, SameThrottle-trans, set_throttle_cookie_val-SameThrottle,
  advise_poll_after-SameThrottle,
}
use goqueuesim.Tracker.{Feedback}
use goqueuesim.Queue.{Queue, QueueLaws}

abbrev pub polldriven_user_bin_key : String
polldriven_user_bin_key = "polldrivenUserBinId"

abbrev pub polldriven_user_queue_pos_key : String
polldriven_user_queue_pos_key = "polldrivenUserQueuePos"

-- type pollsPerSecondTracker; the counts are uints.
pub record PollsPerSecondTracker : Type 0 where
  pub cur_second_count : ℕ
  pub prev_second_count : ℕ
  pub prev_unix_time_second : ℤ

unfoldable pub last_count : PollsPerSecondTracker → ℕ
last_count p = p.prev_second_count

-- pollsPerSecondTracker.CountPollingEvent; it reads the clock for the test and, in a new second,
-- once more for the field.
unfoldable pub count_polling_event : Time → Time → PollsPerSecondTracker → PollsPerSecondTracker
count_polling_event now again p =
    if unix now ==ℤ p.prev_unix_time_second
    then record p { cur_second_count = (p.cur_second_count + 1) % 2 ^ 64 }
    else record {
      cur_second_count = 1;
      prev_second_count = p.cur_second_count;
      prev_unix_time_second = unix again;
    }

-- PollDrivenCappedBinsQueue.getUserBinIdx
unfoldable pub get_user_bin_idx : Client → ℤ × Bool
get_user_bin_idx c =
    let (text, present) = get_throttle_cookie_val polldriven_user_bin_key c in
    if present
    then elim (parse_int text) [ none ↦ (pos 0, false) | some i ↦ (i, true) ]
    else (pos 0, false)

-- PollDrivenCappedBinsQueue.getUserQueuePos
unfoldable pub get_user_queue_pos : Client → ℤ × Bool
get_user_queue_pos c =
    let (text, present) = get_throttle_cookie_val polldriven_user_queue_pos_key c in
    if present
    then elim (parse_int text) [ none ↦ (pos 0, false) | some i ↦ (i, true) ]
    else (pos 0, false)

module _ (fl : Float64) where
  open fl use {Carrier, of_int, literal, add as plus, sub as minus, mul, div, le, eq, to_int}

  pub record PollDrivenQueue : Type 0 where
    pub polls_per_sec_tracker : PollsPerSecondTracker
    pub bin_size : ℤ
    pub checkouts_per_second : ℤ
    pub max_target_polling_util : Carrier
    pub working_bin_update_interval : Duration
    pub latest_polling_util_weight : Carrier
    pub queue_bin : ℤ
    pub queue_bin_pos : ℤ
    pub working_bin : ℤ
    pub working_bin_updated : Time
    pub polling_util : Carrier
    pub total_polls_count : ℤ
    pub total_clients : ℤ

  -- The bin and the position in it of the next arrival.
  unfoldable pub next_place : PollDrivenQueue → ℤ × ℤ
  next_place q =
      if ltb_ℤ q.queue_bin_pos q.bin_size
      then (q.queue_bin, i64 (q.queue_bin_pos +ℤ pos 1))
      else (i64 (q.queue_bin +ℤ pos 1), pos 0)

  -- How long the client at a position is asked to wait.
  unfoldable pub poll_delay : ℤ → ℤ → Duration
  poll_delay total checkouts =
      millis fl (mul (div (of_int total) (of_int checkouts)) (literal 1000 1))

  -- PollDrivenCappedBinsQueue.Add
  unfoldable pub add : Time → PollDrivenQueue → Client → PollDrivenQueue × Client
  add now q c =
      let (b, p) = next_place q in
      let total = i64 (q.total_clients +ℤ pos 1) in
      let c₁ = (set_throttle_cookie_val polldriven_user_bin_key (format_int b) c).0 in
      let c₂ = (set_throttle_cookie_val polldriven_user_queue_pos_key (format_int total) c₁).0 in
      let c₃ = (advise_poll_after (add_time now (poll_delay total q.checkouts_per_second)) c₂).0 in
      (record q { queue_bin = b; queue_bin_pos = p; total_clients = total }, c₃)

  -- PollDrivenCappedBinsQueue.Remove
  unfoldable pub remove : PollDrivenQueue → Client → PollDrivenQueue
  remove q c = record q { total_clients = i64 (q.total_clients -ℤ pos 1) }

  -- PollDrivenCappedBinsQueue.IsCandidateToProceed
  unfoldable pub is_candidate_to_proceed :
      Time → PollDrivenQueue → Client → PollDrivenQueue × Client × Bool
  is_candidate_to_proceed now q c =
      let i = (get_user_bin_idx c).0 in
      let q' = record q { total_polls_count = i64 (q.total_polls_count +ℤ pos 1) } in
      if ltb_ℤ q.working_bin i then (q', c, false) else (
        record q' { polls_per_sec_tracker = count_polling_event now now q.polls_per_sec_tracker },
        c,
        true,
      )

  unfoldable pub size : PollDrivenQueue → ℤ
  size q = q.total_clients

  -- PollDrivenCappedBinsQueue.Clear
  unfoldable pub clear : PollDrivenQueue → PollDrivenQueue
  clear q = record q { queue_bin = pos 0; queue_bin_pos = pos 0; working_bin = pos 0 }

  -- PollDrivenCappedBinsQueue.weightedPollingUtil
  unfoldable pub weighted_polling_util : PollDrivenQueue → Carrier
  weighted_polling_util q =
      let latest =
        div (of_int (pos (last_count q.polls_per_sec_tracker))) (of_int q.checkouts_per_second) in
      if eq q.polling_util (of_int (pos 0))
      then latest
      else plus (mul latest q.latest_polling_util_weight)
          (mul (minus (literal 1 1) q.latest_polling_util_weight) q.polling_util)

  -- PollDrivenCappedBinsQueue.shouldUpdateWorkingBin
  unfoldable pub should_update_working_bin : PollDrivenQueue → Bool
  should_update_working_bin q = le q.polling_util q.max_target_polling_util

  -- One round of the loop of RoutinelyUpdatePollingUtil; `now` is read for the test and `again` for
  -- the field.
  unfoldable pub update_polling_util : Time → Time → PollDrivenQueue → PollDrivenQueue
  unfolding weighted_polling_util should_update_working_bin
  update_polling_util now again q =
      let q' = record q { polling_util = weighted_polling_util q } in
      if leb_ℤ q.working_bin_update_interval (sub_time now q.working_bin_updated)
        && should_update_working_bin q'
      then record q' { working_bin = i64 (q.working_bin +ℤ pos 1); working_bin_updated = again }
      else q'

  -- MakePollDrivenCappedBinsQueue. The division panics for a window shorter than a second.
  unfoldable pub make_poll_driven_queue :
      ℤ → Duration → Carrier → Duration → Carrier → Outcome PollDrivenQueue
  make_poll_driven_queue max_checkouts_per_window window_dur max_target_polling_util interval
        weight =
      do
        cps ← quot max_checkouts_per_window (to_int (seconds fl window_dur))
        ok (record {
          polls_per_sec_tracker = record {
            cur_second_count = 0;
            prev_second_count = 0;
            prev_unix_time_second = pos 0;
          };
          bin_size = cps;
          checkouts_per_second = cps;
          max_target_polling_util = max_target_polling_util;
          working_bin_update_interval = interval;
          latest_polling_util_weight = weight;
          queue_bin = pos 0;
          queue_bin_pos = pos 0;
          working_bin = pos 0;
          working_bin_updated = zero_time;
          polling_util = of_int (pos 0);
          total_polls_count = pos 0;
          total_clients = pos 0;
        })

  -- ReceiveTrackerFeedback only prints.
  unfoldable pub poll_driven_queue : Queue fl PollDrivenQueue
  unfolding add remove is_candidate_to_proceed size clear
  poll_driven_queue = record {
    add = add;
    remove = remove;
    is_candidate_to_proceed = is_candidate_to_proceed;
    receive_tracker_feedback = λ _ q. q;
    size = size;
    clear = clear;
  }

  add-SameThrottle :
      (now : Time) (q : PollDrivenQueue) (c : Client) → SameThrottle c (add now q c).1
  unfolding add
  add-SameThrottle now q c =
      let key = set_throttle_cookie_val-SameThrottle polldriven_user_bin_key in
      let key' = set_throttle_cookie_val-SameThrottle polldriven_user_queue_pos_key in
      let b = format_int (next_place q).0 in
      let c₁ = (set_throttle_cookie_val polldriven_user_bin_key b c).0 in
      let total = format_int (i64 (q.total_clients +ℤ pos 1)) in
      let c₂ = (set_throttle_cookie_val polldriven_user_queue_pos_key total c₁).0 in
      SameThrottle-trans c c₂ _ (SameThrottle-trans c c₁ c₂ (key b c) (key' total c₁))
        (advise_poll_after-SameThrottle _ c₂)

  candidate-SameThrottle :
      (now : Time) (q : PollDrivenQueue) (c : Client)
      → SameThrottle c (is_candidate_to_proceed now q c).1
  unfolding is_candidate_to_proceed
  candidate-SameThrottle now q c = ground arith

  pub poll_driven_queue-QueueLaws : QueueLaws poll_driven_queue
  unfolding poll_driven_queue
  poll_driven_queue-QueueLaws = record {
    add-SameThrottle = add-SameThrottle;
    candidate-SameThrottle = candidate-SameThrottle;
  }
