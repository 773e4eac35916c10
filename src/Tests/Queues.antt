-- ===== src/Tests/Queues.antt =====
-- The throttle queues on concrete arrivals and messages.
use goqueuesim.Common.{
  ℕ, ◌-◌, ◌^◌, ◌≡◌, ◌≢◌, refl, ◌⊎◌, true, false, some, List, [], ◌∷◌, arith, pos, negsuc, ◌*ℤ◌,
  ◌≤ℤ◌, leb_ℤ,
}
use goqueuesim.Common.Map.{int_key, lookup, insert, lookup_or}
use goqueuesim.Common.Clock.{Time}
use goqueuesim.Common.Float.{fractions}
use goqueuesim.Common.Text.{parse_int, format_int}
use goqueuesim.Client.{
  Client, queued, advise_poll_after, set_throttle_cookie_val, get_throttle_cookie_val,
}
use goqueuesim.Queue.Capped
use goqueuesim.Queue.Capped.{
  CappedBinsQueue, capped_user_bin_key, bin, is_candidate_to_proceed, get_user_bin, clear,
  receive_tracker_feedback,
}
use goqueuesim.Queue.Capped.Order.{add_all, candidate-add, candidate_fifo}
use goqueuesim.Queue.Capped.Packing.{queue_bin-add_all}
use goqueuesim.Queue.Capped.WorkingBin.{
  receive_all, feedback_advances, working_bin_of_low_run, low_feedback_overflows,
}
use goqueuesim.Queue.Interval
use goqueuesim.Queue.Interval.{IntervalBinsQueue, make_interval_bins_queue}
use goqueuesim.Queue.Interval.Counts.{sum_counts}
use goqueuesim.Queue.Interval.Runs.{
  Event, arrives, leaves, opens_bin, advances, run, run_consistent, advice_to_candidates,
}
use goqueuesim.Queue.PollDriven
use goqueuesim.Queue.PollDriven.{PollDrivenQueue}
use goqueuesim.Queue.PollDriven.Places
use goqueuesim.Queue.PollDriven.Places.{place-add_all, polldriven_candidate, update_all}
use goqueuesim.Tests.{client_in, empty_bins, low_feedback}

candidate_fifo_example :
    (is_candidate_to_proceed empty_bins
      (Capped.add (pos 1) empty_bins (client_in (pos 1) queued)).1).2
    ≡ true
unfolding Capped.add add_all is_candidate_to_proceed get_user_bin get_throttle_cookie_val
    set_throttle_cookie_val lookup insert parse_int format_int Capped.roll_bin lookup_or
candidate_fifo_example =
    candidate_fifo (pos 1) (pos 2) empty_bins empty_bins (client_in (pos 1) queued)
      (client_in (pos 2) queued) [] refl refl (omega arith) (omega arith) refl

candidate-add_example :
    (is_candidate_to_proceed empty_bins
      (Capped.add (pos 1) empty_bins (client_in (pos 1) queued)).1).2
    ≡ leb_ℤ (Capped.add (pos 1) empty_bins (client_in (pos 1) queued)).0.queue_bin (pos 1)
candidate-add_example =
    candidate-add (pos 1) empty_bins empty_bins (client_in (pos 1) queued) refl (omega arith)

abbrev arrivals : List (Time × Client)
arrivals =
    (pos 1, client_in (pos 1) queued)
    ∷ (pos 2, client_in (pos 2) queued)
    ∷ (pos 3, client_in (pos 3) queued)
    ∷ []

queue_bin-add_all_example : (add_all arrivals (clear empty_bins)).queue_bin ≡ pos 2
queue_bin-add_all_example =
    queue_bin-add_all empty_bins 1 arrivals refl (ground arith) (omega arith) (omega arith)

feedback_advances_example :
    let q' = receive_tracker_feedback fractions low_feedback empty_bins in
    (pos 1 ≤ℤ q'.working_bin)
    × (q'.working_bin ≤ℤ pos 4)
    × (q' ≡ record empty_bins { working_bin = q'.working_bin })
feedback_advances_example = feedback_advances fractions low_feedback empty_bins 1 refl (omega arith)

working_bin_of_low_run_example :
    (receive_all fractions (low_feedback ∷ low_feedback ∷ []) empty_bins).working_bin ≡ pos 10
unfolding ◌*ℤ◌
working_bin_of_low_run_example =
    working_bin_of_low_run fractions (low_feedback ∷ low_feedback ∷ []) empty_bins 1
      (record { heeded = refl; low = refl }, (record { heeded = refl; low = refl }, tt)) refl
      (omega arith)

abbrev late_bins : CappedBinsQueue
late_bins = record empty_bins { working_bin = pos (2 ^ 62) }

low_feedback_overflows_example :
    let q' = receive_tracker_feedback fractions low_feedback late_bins in
    (q'.working_bin ≡ negsuc (2 ^ 63 - 3))
    × ((is_candidate_to_proceed q' (client_in (pos 1) queued)).2 ≡ false)
unfolding get_user_bin get_throttle_cookie_val ◌*ℤ◌
low_feedback_overflows_example =
    low_feedback_overflows fractions low_feedback late_bins (2 ^ 62) (client_in (pos 1) queued) 0
      (record { heeded = refl; low = refl }) refl (omega arith) (omega arith) refl

abbrev history : List Event
history =
    arrives (pos 1) (client_in (pos 1) queued)
    ∷ opens_bin
    ∷ arrives (pos 2) (client_in (pos 2) queued)
    ∷ advances (pos 9) (pos 9)
    ∷ leaves (client_in (pos 1) queued)
    ∷ []

abbrev interval_bins : IntervalBinsQueue
interval_bins = record {
  window_dur = pos 1_000_000_000;
  max_checkouts_per_window = pos 2;
  max_unfair = pos 1_000_000;
  bin_counts = [];
  latest_bin_idx = pos 1;
  max_considered_bin_idx = pos 1;
  considered_bin_last_updated = pos 0;
  next_scheduled_bin_update = pos 7;
  total_queued_clients = pos 0;
}

run_consistent_example :
    let q =
      run fractions history
        (make_interval_bins_queue (pos 0) (pos 1_000_000_000) (pos 2) (pos 1_000_000)) in
    (sum_counts q.bin_counts ≡ q.total_queued_clients)
    × (q.max_considered_bin_idx ≤ℤ q.latest_bin_idx)
    × (pos 0 ≤ℤ q.max_considered_bin_idx)
run_consistent_example =
    run_consistent fractions (pos 0) (pos 1_000_000_000) (pos 2) (pos 1_000_000) history
      (omega arith)

abbrev in_bin_zero : Client
in_bin_zero = record (client_in (pos 1) queued) {
  throttle_cookie = some (("intervalUserBinId", "0") ∷ []);
}

advice_to_candidates_example :
    let (q', c', candidate) = Interval.is_candidate_to_proceed interval_bins in_bin_zero in
    (q' ≡ interval_bins)
    × (candidate ≡ true)
    × (((c' ≡ in_bin_zero) × (◌≢◌ {A = ℕ} 1 1))
        ⊎ ((candidate ≡ true)
            × (c' ≡ (advise_poll_after (pos 7) in_bin_zero).0)
            × (◌≡◌ {A = ℕ} 1 1)))
unfolding Interval.get_user_bin_idx get_throttle_cookie_val lookup parse_int
advice_to_candidates_example =
    advice_to_candidates interval_bins in_bin_zero 0 1 refl (omega arith) refl

abbrev poll_bins : PollDrivenQueue fractions
poll_bins = record {
  polls_per_sec_tracker = record {
    cur_second_count = 0;
    prev_second_count = 0;
    prev_unix_time_second = pos 0;
  };
  bin_size = pos 1;
  checkouts_per_second = pos 1;
  max_target_polling_util = record { top = pos 1; bottom = 1 };
  working_bin_update_interval = pos 1_000_000_000;
  latest_polling_util_weight = record { top = pos 1; bottom = 2 };
  queue_bin = pos 0;
  queue_bin_pos = pos 0;
  working_bin = pos 0;
  working_bin_updated = pos 0;
  polling_util = record { top = pos 0; bottom = 1 };
  total_polls_count = pos 0;
  total_clients = pos 0;
}

place-add_all_example :
    let q' = Places.add_all fractions arrivals (PollDriven.clear fractions poll_bins) in
    (q'.queue_bin ≡ pos 1) × (q'.queue_bin_pos ≡ pos 1)
place-add_all_example = place-add_all fractions poll_bins 1 arrivals refl (omega arith)

polldriven_candidate_example :
    (PollDriven.is_candidate_to_proceed fractions
      (pos 2)
      poll_bins
      (PollDriven.add fractions (pos 1) poll_bins (client_in (pos 1) queued)).1).2
    ≡ leb_ℤ
        (PollDriven.add fractions (pos 1) poll_bins (client_in (pos 1) queued)).0.queue_bin
        (pos 0)
polldriven_candidate_example =
    polldriven_candidate fractions (pos 1) (pos 2) poll_bins poll_bins (client_in (pos 1) queued)
      refl (omega arith)
