-- ===== src/Queue/Interval/Runs.antt =====
-- Histories of the interval queue: internal/throttle/queue/impl/interval_bins_queue.go. Each event
-- is one call, or one round of one of the two background loops.
use goqueuesim.Common.{
  ℕ, ◌+◌, ◌≤◌, ◌<◌, ◌^◌, ◌≡◌, ◌≢◌, refl, subst, ◌⊎◌, inl, inr, true, false, List, [], ◌∷◌, arith,
  Bool-cases, ℤ, pos, negsuc, ◌+ℤ◌, ◌-ℤ◌, ◌≤ℤ◌, leb_ℤ, pos_part, neg_part, length, +ℤ_parts,
  -ℤ_parts, eq_of_parts,
}
use goqueuesim.Common.Map.{Map, int_key, lookup, lookup_or}
use goqueuesim.Common.Word.{i64}
use goqueuesim.Common.Clock.{Time, Duration}
use goqueuesim.Common.Float.{Float64}
use goqueuesim.Client.{Client, advise_poll_after}
use goqueuesim.Queue.Interval.{
  IntervalBinsQueue, bin_count, ensure_count, get_user_bin_idx, add, remove,
  is_candidate_to_proceed, clear, update_latest_bin, maximize_fair_throughput,
  make_interval_bins_queue,
}
use goqueuesim.Queue.Interval.Counts.{sum_counts, IsCounted, ensure-IsCounted, bump-IsCounted}

pub data Event : Type 0 where
  -- Add, Remove and IsCandidateToProceed
  arrives : Time → Client → Event
  leaves asks : Client → Event
  clears : Event
  -- a round of RoutinelyUpdateLatestBin, and one of RoutinelyMaximizeFairThroughput
  opens_bin : Event
  advances : Time → Time → Event

sub_one : (a : ℤ) → a -ℤ pos 1 ≡ a +ℤ negsuc 0
sub_one a = omega (arith, +ℤ_parts, -ℤ_parts, eq_of_parts)

-- The bin that is worked on is not past the latest one, and neither passes `k`.
pub record IsOrdered (k : ℕ) (q : IntervalBinsQueue) : Type 0 where
  pub considered_pos : neg_part q.max_considered_bin_idx ≡ 0
  pub latest_pos : neg_part q.latest_bin_idx ≡ 0
  pub considered_le_latest : pos_part q.max_considered_bin_idx ≤ pos_part q.latest_bin_idx
  pub latest_small : pos_part q.latest_bin_idx ≤ k

pub record IsConsistent (k : ℕ) (q : IntervalBinsQueue) : Type 0 where
  pub counted : IsCounted k q.bin_counts q.total_queued_clients
  pub ordered : IsOrdered k q

pub candidate_keeps : (q : IntervalBinsQueue) (c : Client) → (is_candidate_to_proceed q c).0 ≡ q
unfolding is_candidate_to_proceed
candidate_keeps q c = ground arith

-- Asking changes the time that a client is advised to poll after only where it answers yes: the
-- advice goes to the clients of the bin before the one that is worked on.
pub advice_to_candidates :
    (q : IntervalBinsQueue) (c : Client) (b n : ℕ)
    → get_user_bin_idx c ≡ (pos b, true)
    → b + 1 < 2 ^ 63
    → q.max_considered_bin_idx ≡ pos n
    → let (q', c', candidate) = is_candidate_to_proceed q c in
      (q' ≡ q)
      × (candidate ≡ leb_ℤ (pos b) (pos n))
      × (((c' ≡ c) × (b + 1 ≢ n))
          ⊎ ((candidate ≡ true)
              × (c' ≡ (advise_poll_after q.next_scheduled_bin_update c).0)
              × (b + 1 ≡ n)))
unfolding is_candidate_to_proceed ◌+ℤ◌ i64
advice_to_candidates q c b n e small at = ground arith

-- A client with no valid bin in its cookie is no candidate.
pub no_bin_no_candidate :
    (q : IntervalBinsQueue) (c : Client)
    → (get_user_bin_idx c).1 ≡ false
    → is_candidate_to_proceed q c ≡ (q, c, false)
unfolding is_candidate_to_proceed
no_bin_no_candidate q c h = ground arith

weaken-IsCounted :
    (k : ℕ) (counts : Map ℤ ℤ) (total : ℤ)
    → IsCounted k counts total
    → IsCounted (k + 1) counts total
weaken-IsCounted k counts total h = record {
  sum = h.sum;
  small = omega (arith, h.small);
  each = λ j. omega (arith, h.each j);
}

pub weaken-IsOrdered : (k : ℕ) (q : IntervalBinsQueue) → IsOrdered k q → IsOrdered (k + 1) q
weaken-IsOrdered k q h = record {
  considered_pos = h.considered_pos;
  latest_pos = h.latest_pos;
  considered_le_latest = h.considered_le_latest;
  latest_small = omega (arith, h.latest_small);
}

module _ (fl : Float64) where
  unfoldable pub step : Event → IntervalBinsQueue → IntervalBinsQueue
  step (arrives now c) q = (add fl now q c).0
  step (leaves c) q = remove q c
  step (asks c) q = (is_candidate_to_proceed q c).0
  step clears q = clear q
  step opens_bin q = update_latest_bin q
  step (advances now again) q = (maximize_fair_throughput fl now again q).0

  unfoldable pub run : List Event → IntervalBinsQueue → IntervalBinsQueue
  run [] q = q
  run (e ∷ es) q = run es (step e q)

  remove-IsCounted :
      (k : ℕ) (q : IntervalBinsQueue) (c : Client)
      → k + 1 < 2 ^ 63
      → IsCounted k q.bin_counts q.total_queued_clients
      → IsCounted (k + 1) (remove q c).bin_counts (remove q c).total_queued_clients
  unfolding remove
  remove-IsCounted k q c room h = elim (Bool-cases (get_user_bin_idx c).1) [
    | inl present ↦
        let i = (get_user_bin_idx c).0 in
        rw (present, sub_one (bin_count i q.bin_counts), sub_one q.total_queued_clients)
          (bump-IsCounted k i (negsuc 0) q.bin_counts q.total_queued_clients room (omega arith) h)
    | inr absent ↦ rw absent (weaken-IsCounted k q.bin_counts q.total_queued_clients h)
  ]

  clear-IsCounted : (k : ℕ) → IsCounted k [] (pos 0)
  unfolding sum_counts bin_count lookup_or lookup
  clear-IsCounted k = record { sum = refl; small = omega arith; each = λ j. omega arith }

  maximize-keeps :
      (now again : Time) (q : IntervalBinsQueue)
      → let q' = (maximize_fair_throughput fl now again q).0 in
        (q'.bin_counts ≡ q.bin_counts) × (q'.total_queued_clients ≡ q.total_queued_clients)
  unfolding maximize_fair_throughput
  maximize-keeps now again q = ground arith

  step-IsCounted :
      (k : ℕ) (e : Event) (q : IntervalBinsQueue)
      → k + 1 < 2 ^ 63
      → IsCounted k q.bin_counts q.total_queued_clients
      → IsCounted (k + 1) (step e q).bin_counts (step e q).total_queued_clients
  unfolding step
  step-IsCounted k (arrives now c) q room h =
      unfold add in
      bump-IsCounted k q.latest_bin_idx (pos 1) (ensure_count q.latest_bin_idx q.bin_counts)
        q.total_queued_clients room (omega arith)
        (ensure-IsCounted k q.latest_bin_idx q.bin_counts q.total_queued_clients h)
  step-IsCounted k (leaves c) q room h = remove-IsCounted k q c room h
  step-IsCounted k (asks c) q room h =
      rw (candidate_keeps q c) (weaken-IsCounted k q.bin_counts q.total_queued_clients h)
  step-IsCounted k clears q room h = unfold clear in clear-IsCounted (k + 1)
  step-IsCounted k opens_bin q room h =
      unfold update_latest_bin in weaken-IsCounted k q.bin_counts q.total_queued_clients h
  step-IsCounted k (advances now again) q room h =
      let (same, total) = maximize-keeps now again q in
      rw (same, total) (weaken-IsCounted k q.bin_counts q.total_queued_clients h)

  pub step-IsOrdered :
      (k : ℕ) (e : Event) (q : IntervalBinsQueue)
      → k + 1 < 2 ^ 63
      → IsOrdered k q
      → IsOrdered (k + 1) (step e q)
  unfolding step
  step-IsOrdered k (arrives now c) q room h = unfold add in ground arith
  step-IsOrdered k (leaves c) q room h = unfold remove in ground arith
  step-IsOrdered k (asks c) q room h = rw (candidate_keeps q c) (omega arith)
  step-IsOrdered k clears q room h = unfold clear in ground arith
  step-IsOrdered k opens_bin q room h = unfold update_latest_bin ◌+ℤ◌ i64 in ground arith
  step-IsOrdered k (advances now again) q room h =
      unfold maximize_fair_throughput ◌+ℤ◌ i64 in ground arith

  step-IsConsistent :
      (k : ℕ) (e : Event) (q : IntervalBinsQueue)
      → k + 1 < 2 ^ 63
      → IsConsistent k q
      → IsConsistent (k + 1) (step e q)
  step-IsConsistent k e q room h = record {
    counted = step-IsCounted k e q room h.counted;
    ordered = step-IsOrdered k e q room h.ordered;
  }

  new-IsConsistent :
      (now : Time) (window_dur : Duration) (max_checkouts : ℤ) (max_unfair : Duration)
      → IsConsistent 0 (make_interval_bins_queue now window_dur max_checkouts max_unfair)
  unfolding make_interval_bins_queue
  new-IsConsistent now window_dur max_checkouts max_unfair = record {
    counted = clear-IsCounted 0;
    ordered = omega arith;
  }

  run-IsConsistent :
      (es : List Event) (k : ℕ) (q : IntervalBinsQueue)
      → k + length es < 2 ^ 63
      → IsConsistent k q
      → IsConsistent (k + length es) (run es q)
  unfolding run
  run-IsConsistent [] k q room h = subst (λ m. IsConsistent m q) (omega arith) h
  run-IsConsistent (e ∷ es) k q room h =
      subst (λ m. IsConsistent m (run es (step e q))) (omega arith)
        (run-IsConsistent es (k + 1) (step e q) (omega arith)
          (step-IsConsistent k e q (omega arith) h))

  -- After any history of a new queue, shorter than 2 ^ 63 events, the counts of the bins add up to
  -- the size of the queue, and the bin that is worked on is neither negative nor past the latest one.
  pub run_consistent :
      (now : Time) (window_dur : Duration) (max_checkouts : ℤ) (max_unfair : Duration)
      (es : List Event)
      → length es < 2 ^ 63
      → let q = run es (make_interval_bins_queue now window_dur max_checkouts max_unfair) in
        (sum_counts q.bin_counts ≡ q.total_queued_clients)
        × (q.max_considered_bin_idx ≤ℤ q.latest_bin_idx)
        × (pos 0 ≤ℤ q.max_considered_bin_idx)
  run_consistent now window_dur max_checkouts max_unfair es room =
      let q = make_interval_bins_queue now window_dur max_checkouts max_unfair in
      let h =
        run-IsConsistent es 0 q (omega arith)
          (new-IsConsistent now window_dur max_checkouts max_unfair) in
      (h.counted.sum, omega (arith, h.ordered), omega (arith, h.ordered))
