-- ===== src/Queue/Interval/Kept.antt =====
-- Every call of an interval bins queue but Clear, and every round of its two goroutines, keeps the bin
-- that is worked on within the bins that were opened
-- (internal/throttle/queue/impl/interval_bins_queue.go).
use goqueuesim.Common.{◌≡◌, refl, sym, subst, ℕ, ◌+◌, ◌<◌, ◌^◌, ℤ}
use goqueuesim.Common.Map.{Map}
use goqueuesim.Common.Clock.{Time}
use goqueuesim.Common.Float.{Float64}
use goqueuesim.Client.{Client}
use goqueuesim.Tracker.{Feedback}
use goqueuesim.Queue.{Queue}
use goqueuesim.Queue.Interval.{
  IntervalBinsQueue, add, remove, clear, update_latest_bin, maximize_fair_throughput,
  interval_queue,
}
use goqueuesim.Queue.Interval.Runs.{
  arrives, leaves, opens_bin, candidate_keeps, advances, IsOrdered, step, step-IsOrdered,
  weaken-IsOrdered,
}
use goqueuesim.Simulator.InStock.{IsKept}

-- What the goroutines write: a firing of the timer of RoutinelyUpdateLatestBin, which takes no lock; a
-- round of RoutinelyMaximizeFairThroughput, which reads the latest bin once; and, as Add reads the
-- latest bin more than once while a new one may be opened, any counts of clients.
pub data Writes (fl : Float64) (before : IntervalBinsQueue) : IntervalBinsQueue → Type 0 where
  opens : Writes fl before (update_latest_bin before)
  works : (now again : Time) → Writes fl before (maximize_fair_throughput fl now again before).0
  counts :
      (bin_counts : Map ℤ ℤ) (total : ℤ)
      → Writes fl before (record before { bin_counts = bin_counts; total_queued_clients = total })

abbrev pub CountsUp : ℕ → Type 0
CountsUp k = k + 1 < 2 ^ 63

module _ (fl : Float64) where
  goes_on :
      (k : ℕ) {q q' : IntervalBinsQueue}
      → Writes fl q q'
      → CountsUp k
      → IsOrdered k q
      → IsOrdered (k + 1) q'
  unfolding step
  goes_on k {q} opens room h = step-IsOrdered fl k opens_bin q room h
  goes_on k {q} (works now again) room h = step-IsOrdered fl k (advances now again) q room h
  goes_on k {q} (counts bins total) room h =
      let still = weaken-IsOrdered k q h in
      record {
        considered_pos = still.considered_pos;
        latest_pos = still.latest_pos;
        considered_le_latest = still.considered_le_latest;
        latest_small = still.latest_small;
      }

  -- A queue that writes what the interval bins queue writes. What it gives to the clients is left open:
  -- Add and IsCandidateToProceed read the bins more than once while they may grow, so the bin in a
  -- client's cookie, the advice to the client and the answer may mix older and newer values.
  pub record WritesAlike (q : Queue fl IntervalBinsQueue) : Type 0 where
    pub same_add :
        (now : Time) (s : IntervalBinsQueue) (c : Client) → (q.add now s c).0 ≡ (add fl now s c).0
    pub same_remove : (s : IntervalBinsQueue) (c : Client) → q.remove s c ≡ remove s c
    pub same_candidate :
        (now : Time) (s : IntervalBinsQueue) (c : Client)
        → (q.is_candidate_to_proceed now s c).0 ≡ s
    pub same_feedback :
        (m : Feedback fl) (s : IntervalBinsQueue) → q.receive_tracker_feedback m s ≡ s
    pub same_clear : (s : IntervalBinsQueue) → q.clear s ≡ clear s

  pub interval_queue-WritesAlike : WritesAlike (interval_queue fl)
  unfolding interval_queue
  interval_queue-WritesAlike = record {
    same_add = λ now s c. refl;
    same_remove = λ s c. refl;
    same_candidate = λ now s c. candidate_keeps s c;
    same_feedback = λ m s. refl;
    same_clear = λ s. refl;
  }

  pub alike-IsKept :
      (q : Queue fl IntervalBinsQueue) → WritesAlike q → IsKept q (Writes fl) CountsUp IsOrdered
  unfolding step
  alike-IsKept q alike = record {
    on_add = λ k now s c room h.
        subst (IsOrdered (k + 1)) (sym (alike.same_add now s c))
          (step-IsOrdered fl k (arrives now c) s room h);
    on_remove = λ k s c room h.
        subst (IsOrdered (k + 1)) (sym (alike.same_remove s c))
          (step-IsOrdered fl k (leaves c) s room h);
    on_candidate = λ k now s c room h.
        subst (IsOrdered (k + 1)) (sym (alike.same_candidate now s c)) (weaken-IsOrdered k s h);
    on_feedback = λ k m s room h.
        subst (IsOrdered (k + 1)) (sym (alike.same_feedback m s)) (weaken-IsOrdered k s h);
    on_background = λ k s s' w room h. goes_on k w room h;
    on_rest = λ k s room h. weaken-IsOrdered k s h;
  }
