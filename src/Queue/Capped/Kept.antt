-- ===== src/Queue/Capped/Kept.antt =====
-- Every call of a capped bins queue but Clear keeps its bins within their size
-- (internal/throttle/queue/impl/capped_bins_queue.go).
use goqueuesim.Common.{◌≡◌, refl, subst, ℕ, suc, true, false, if◌then◌else◌, ℤ, pos}
use goqueuesim.Common.Float.{Float64}
use goqueuesim.Tracker.{Feedback}
use goqueuesim.Queue.Capped.{
  CappedBinsQueue, add, remove, is_candidate_to_proceed, receive_tracker_feedback, ignored,
  next_working_bin, capped_queue,
}
use goqueuesim.Queue.Capped.Bins.{IsCapped, add-IsCapped}
use goqueuesim.Simulator.InStock.{IsKept}

-- The bins have room for `n` + 1 clients each, and none holds more.
abbrev pub HoldsAtMost : ℕ → CappedBinsQueue → Type 0
HoldsAtMost n q = (q.bin_size ≡ pos (suc n)) × IsCapped q

feedback-HoldsAtMost :
    (fl : Float64) (n : ℕ) (m : Feedback fl) (q : CappedBinsQueue)
    → HoldsAtMost n q
    → HoldsAtMost n (receive_tracker_feedback fl m q)
unfolding receive_tracker_feedback
feedback-HoldsAtMost fl n m q h =
    elim (ignored fl m)
      as (λ b.
        HoldsAtMost n (if b then q else record q { working_bin = next_working_bin fl m q })) [
          | true ↦ h
          | false ↦ h
        ]

-- ReceiveTrackerFeedback takes no lock: whatever it read, and whenever, it writes the working bin and
-- nothing else.
pub data TornFeedback (before : CappedBinsQueue) : CappedBinsQueue → Type 0 where
  writes : (b : ℤ) → TornFeedback before (record before { working_bin = b })

torn-HoldsAtMost :
    (n : ℕ) {q q' : CappedBinsQueue} → TornFeedback q q' → HoldsAtMost n q → HoldsAtMost n q'
torn-HoldsAtMost n (writes b) h = h

pub capped-IsKept :
    (fl : Float64) (n : ℕ) → IsKept (capped_queue fl) TornFeedback (λ k. Unit) (λ k. HoldsAtMost n)
unfolding capped_queue
capped-IsKept fl n = record {
  on_add = λ k now q c room (size, h).
      (subst (λ b. b ≡ pos (suc n)) (unfold add in refl) size, add-IsCapped now q c n size h);
  on_remove = λ k q c room h. unfold remove in h;
  on_candidate = λ k now q c room h. unfold is_candidate_to_proceed in h;
  on_feedback = λ k m q room h. feedback-HoldsAtMost fl n m q h;
  on_background = λ k q q' torn room h. torn-HoldsAtMost n torn h;
  on_rest = λ k q room h. h;
}
