-- ===== src/Queue/Capped/WorkingBin.antt =====
-- The working bin: CappedBinsQueue.ReceiveTrackerFeedback of
-- internal/throttle/queue/impl/capped_bins_queue.go.
use goqueuesim.Common.{
  ℕ, zero, suc, ◌+◌, ◌-◌, ◌*◌, ◌≤◌, ◌<◌, ◌^◌, ◌≡◌, ◌∙◌, ap, true, false, List, [], ◌∷◌, All, length,
  arith, pos, negsuc, ◌+ℤ◌, ◌≤ℤ◌,
}
use native.Mathlib.Nat.{pow-suc}
use goqueuesim.Common.Word.{i64}
use goqueuesim.Common.Float.{Float64}
use goqueuesim.Client.{Client}
use goqueuesim.Tracker.{Feedback}
use goqueuesim.Queue.Capped.{
  CappedBinsQueue, get_user_bin, is_candidate_to_proceed, ignored, next_working_bin,
  receive_tracker_feedback,
}
use goqueuesim.Queue.Capped.Order.{candidate-eq-leb}

doubled : (k n : ℕ) → (2 * n + 2 + 2) * 2 ^ k ≡ (n + 2) * 2 ^ suc k
doubled k n = rw (pow-suc 2 k) (grind arith)

pow_pos : (k : ℕ) → 1 ≤ 2 ^ k
pow_pos zero = omega arith
pow_pos (suc k) = omega (arith, pow-suc 2 k, pow_pos k)

room : (k n : ℕ) → (2 * n + 2 + 2) * 2 ^ k ≤ 2 ^ 63 → n + 1 < 2 ^ 62
room k n h = grind (arith, pow_pos k)

module _ (fl : Float64) where
  open fl use {literal, lt, le}

  -- A message that reports at most 20% of checkouts, and is not to be ignored.
  pub record IsLow (m : Feedback fl) : Type 0 where
    pub heeded : ignored fl m ≡ false
    pub low : le m.checkout_util (literal 2 10) ≡ true

  -- While the working bin is not negative and below 2 ^ 62 - 1 no message moves it back, or past twice
  -- its value plus two, and all else of the queue stays as it was.
  pub feedback_advances :
      (m : Feedback fl) (q : CappedBinsQueue) (n : ℕ)
      → q.working_bin ≡ pos n
      → n + 1 < 2 ^ 62
      → let q' = receive_tracker_feedback fl m q in
        (q.working_bin ≤ℤ q'.working_bin)
        × (q'.working_bin ≤ℤ pos (2 * n + 2))
        × (q' ≡ record q { working_bin = q'.working_bin })
  unfolding receive_tracker_feedback next_working_bin ◌+ℤ◌ i64
  feedback_advances m q n e h = ground arith

  low_step :
      (m : Feedback fl) (q : CappedBinsQueue) (n : ℕ)
      → IsLow m
      → q.working_bin ≡ pos n
      → n + 1 < 2 ^ 62
      → (receive_tracker_feedback fl m q).working_bin ≡ pos (2 * n + 2)
  unfolding receive_tracker_feedback next_working_bin ◌+ℤ◌ i64
  low_step m q n l e h = ground arith

  -- The queue after a run of messages.
  unfoldable pub receive_all : List (Feedback fl) → CappedBinsQueue → CappedBinsQueue
  receive_all [] q = q
  receive_all (m ∷ ms) q = receive_all ms (receive_tracker_feedback fl m q)

  -- Each low message doubles the distance of the working bin to -2: after `k` of them it stands at
  -- (n + 2) * 2 ^ k - 2, as long as that is below 2 ^ 63.
  pub working_bin_of_low_run :
      (ms : List (Feedback fl)) (q : CappedBinsQueue) (n : ℕ)
      → All IsLow ms
      → q.working_bin ≡ pos n
      → (n + 2) * 2 ^ length ms ≤ 2 ^ 63
      → (receive_all ms q).working_bin ≡ pos ((n + 2) * 2 ^ length ms - 2)
  unfolding receive_all
  working_bin_of_low_run [] q n l e h = e ∙ ap pos (omega arith)
  working_bin_of_low_run (m ∷ ms) q n l e h =
      let p = doubled (length ms) n in
      let small = room (length ms) n (rw p h) in
      working_bin_of_low_run ms (receive_tracker_feedback fl m q) (2 * n + 2) l.1
        (low_step m q n l.0 e small) (rw p h)
      ∙ ap (λ (t : ℕ). pos (t - 2)) p

  -- From a working bin of 2 ^ 62 - 1 on, below 2 ^ 63 - 2, one low message makes the working bin
  -- negative, and then no client with a bin that is not negative is a candidate.
  pub low_feedback_overflows :
      (m : Feedback fl) (q : CappedBinsQueue) (n : ℕ) (c : Client) (b : ℕ)
      → IsLow m
      → q.working_bin ≡ pos n
      → 2 ^ 62 ≤ n + 1
      → n < 2 ^ 63 - 2
      → (get_user_bin c).0 ≡ pos b
      → let q' = receive_tracker_feedback fl m q in
        (q'.working_bin ≡ negsuc (2 ^ 64 - 2 * n - 3)) × ((is_candidate_to_proceed q' c).2 ≡ false)
  unfolding receive_tracker_feedback next_working_bin ◌+ℤ◌ i64
  low_feedback_overflows m q n c b l e h h' k =
      (ground arith, ground (arith, candidate-eq-leb (receive_tracker_feedback fl m q) c))
