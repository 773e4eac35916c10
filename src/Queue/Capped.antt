-- ===== src/Queue/Capped.antt =====
-- internal/throttle/queue/impl/capped_bins_queue.go, with MakeCappedBinsQueue of queue_factory.go.
pub mod Order
pub mod Bins
pub mod Packing
pub mod WorkingBin
pub mod Kept
use goqueuesim.Common.{
  ℕ, String, ◌≡◌, Bool, true, false, ◌&&◌, not, Option, none, some, [], if◌then◌else◌, ℤ, pos, ◌+ℤ◌,
  ◌-ℤ◌, leb_ℤ, length, arith,
}
use goqueuesim.Common.Map.{Map, int_key, lookup, insert, lookup_or}
use goqueuesim.Common.Word.{i64}
use goqueuesim.Common.Text.{format_int, parse_int}
use goqueuesim.Common.Clock.{Time}
use goqueuesim.Common.Float.{Float64}
use goqueuesim.Client.{Client, set_throttle_cookie_val, get_throttle_cookie_val}
use goqueuesim.Client.Cookies.{
  SameThrottle, SameThrottle-refl, set_throttle_cookie_val-SameThrottle,
}
use goqueuesim.Tracker.{Feedback}
use goqueuesim.Queue.{Queue, QueueLaws}

abbrev pub capped_user_bin_key : String
capped_user_bin_key = "cappedUserBinId"

abbrev pub Bin : Type 0
Bin = Map ℤ Bool

pub record CappedBinsQueue : Type 0 where
  pub bins : Map ℤ Bin
  pub cur_window_dequeues : Map ℤ ℤ
  pub bin_size : ℤ
  pub queue_bin : ℤ
  pub working_bin : ℤ
  pub total_queued_clients : ℤ

-- `bins[i]`
unfoldable pub bin : ℤ → Map ℤ Bin → Bin
bin i bins = lookup_or [] i bins

-- `if _, ok := bins[i]; !ok { bins[i] = make(…) }`
unfoldable pub ensure_bin : ℤ → Map ℤ Bin → Map ℤ Bin
ensure_bin i bins = elim (lookup i bins) [ none ↦ insert i [] bins | some b ↦ bins ]

-- The bin that Add writes to, and the bins with that one made.
unfoldable pub roll_bin : CappedBinsQueue → ℤ × Map ℤ Bin
unfolding ensure_bin bin
roll_bin q =
    let bins = ensure_bin q.queue_bin q.bins in
    let next = i64 (q.queue_bin +ℤ pos 1) in
    if leb_ℤ q.bin_size (pos (length (bin q.queue_bin bins)))
    then (next, insert next [] bins)
    else (q.queue_bin, bins)

-- CappedBinsQueue.Add
unfoldable pub add : Time → CappedBinsQueue → Client → CappedBinsQueue × Client
add now q c =
    let (target, bins) = roll_bin q in
    (
      record q {
        bins = insert target (insert c.id true (bin target bins)) bins;
        queue_bin = target;
        total_queued_clients = i64 (q.total_queued_clients +ℤ pos 1);
      },
      (set_throttle_cookie_val capped_user_bin_key (format_int target) c).0,
    )

-- CappedBinsQueue.Remove
unfoldable pub remove : CappedBinsQueue → Client → CappedBinsQueue
remove q c = record q {
  total_queued_clients = i64 (q.total_queued_clients -ℤ pos 1);
  cur_window_dequeues =
      insert q.working_bin (i64 (lookup_or (pos 0) q.working_bin q.cur_window_dequeues +ℤ pos 1))
        q.cur_window_dequeues;
}

unfoldable pub size : CappedBinsQueue → ℤ
size q = q.total_queued_clients

-- CappedBinsQueue.getUserBin. The `ok` that the body sets to true is declared by the inner `if`, and
-- hides the result of that name, which stays false.
unfoldable pub get_user_bin : Client → ℤ × Bool
get_user_bin c =
    let (r, present) = get_throttle_cookie_val capped_user_bin_key c in
    if present then (elim (parse_int r) [ none ↦ pos 0 | some ub ↦ ub ], false) else (pos 0, false)

-- CappedBinsQueue.IsCandidateToProceed
unfoldable pub is_candidate_to_proceed : CappedBinsQueue → Client → CappedBinsQueue × Client × Bool
unfolding get_user_bin
is_candidate_to_proceed q c =
    let (ub, e) = get_user_bin c in (q, c, if not e then leb_ℤ ub q.working_bin else false)

-- CappedBinsQueue.Clear as a whole; it takes no lock.
unfoldable pub clear : CappedBinsQueue → CappedBinsQueue
clear q = record q {
  bins = [];
  cur_window_dequeues = [];
  working_bin = pos 1;
  queue_bin = pos 1;
  total_queued_clients = pos 0;
}

module _ (fl : Float64) where
  open fl use {Carrier, of_int, literal, mul, div, lt, le, ceil, to_int}

  -- `earlyExit, ok := CustomFeedback["should_ignore_poll_util"]; ok && earlyExit == true`
  abbrev pub ignored : Feedback fl → Bool
  ignored m = elim m.should_ignore_poll_util [ none ↦ false | some b ↦ b ]

  -- allowedWindowDrainUtil
  unfoldable pub allowed_window_drain_util : CappedBinsQueue → Carrier
  allowed_window_drain_util q =
      div (of_int (lookup_or (pos 0) q.working_bin q.cur_window_dequeues)) (of_int q.bin_size)

  -- The working bin after a message that is not ignored.
  unfoldable pub next_working_bin : Feedback fl → CappedBinsQueue → ℤ
  next_working_bin m q =
      let util = m.checkout_util in
      if le util (literal 2 10)
      then i64 (q.working_bin +ℤ i64 (q.working_bin +ℤ pos 2))
      else if lt (literal 2 10) util && le util (literal 9 10)
      then i64 (q.working_bin +ℤ pos 1)
      else if lt (literal 1 2) (allowed_window_drain_util q)
      then i64 (q.working_bin +ℤ pos 1)
      else q.working_bin

  -- CappedBinsQueue.ReceiveTrackerFeedback as a whole; it takes no lock. The gauges and the printing
  -- are left out.
  unfoldable pub receive_tracker_feedback : Feedback fl → CappedBinsQueue → CappedBinsQueue
  receive_tracker_feedback m q =
      if ignored m then q else record q { working_bin = next_working_bin m q }

  -- MakeCappedBinsQueue
  unfoldable pub make_capped_bins_queue : ℤ → CappedBinsQueue
  make_capped_bins_queue window_size = record {
    bins = [];
    cur_window_dequeues = [];
    bin_size = to_int (ceil (mul (of_int window_size) (literal 3 2)));
    queue_bin = pos 1;
    working_bin = pos 1;
    total_queued_clients = pos 0;
  }

  unfoldable pub capped_queue : Queue fl CappedBinsQueue
  unfolding add remove is_candidate_to_proceed size clear receive_tracker_feedback
  capped_queue = record {
    add = add;
    remove = remove;
    is_candidate_to_proceed = λ _. is_candidate_to_proceed;
    receive_tracker_feedback = receive_tracker_feedback;
    size = size;
    clear = clear;
  }

  pub capped_queue-QueueLaws : QueueLaws capped_queue
  unfolding capped_queue
  capped_queue-QueueLaws = record {
    add-SameThrottle = λ now s c.
        set_throttle_cookie_val-SameThrottle capped_user_bin_key (format_int (roll_bin s).0) c;
    candidate-SameThrottle = λ now s c. SameThrottle-refl c;
  }
