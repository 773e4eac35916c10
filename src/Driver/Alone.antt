-- ===== src/Driver/Alone.antt =====
-- A call of TryThrottleStateTransition that nothing interrupts (internal/throttle/throttle_driver.go):
-- its phases against the whole call.
use goqueuesim.Common.{
  ℕ, zero, suc, ◌-◌, ◌⊎◌, ◌≤◌, ◌≡◌, refl, sym, ◌∙◌, ap, inl, inr, Bool, true, false, some, arith,
  if◌then◌else◌, Bool-cases, ℤ, pos, leb_ℤ, ltb_ℤ,
}
use goqueuesim.Common.Float.{Float64}
use goqueuesim.Client.{Client, initial, queued, mark_queued}
use goqueuesim.Counter.{atomic_add, atomic_read}
use goqueuesim.Counter
use goqueuesim.Tracker.{should_proceed}
use goqueuesim.Queue.{Queue, QueueLaws}
use goqueuesim.Driver.{Instants, Driver, Answer, check_out, take_stock, try_queued, try_transition}
use goqueuesim.Driver.Buying.{given_up, Refused, left, buy_refused, buy_takes, take_stock_refused}
use goqueuesim.Driver.Transition.{take_stock_locked}
use goqueuesim.Driver.Calls.{state_cases, enqueued, answer, try_transition-answer}
use goqueuesim.Driver.Phases.{
  Phase, begun, asking, tracking, buying, removing, finished, enqueue, buy, proceed, proceed_all,
}

seven_more : (n : ℕ) → 7 ≤ n → n ≡ suc (suc (suc (suc (suc (suc (suc (n - 7)))))))
seven_more n h = omega arith

module _ {fl : Float64} {S : Type 0} (q : Queue fl S) where
  abbrev Progress : Type 0
  Progress = Driver S × Client × Phase

  -- What a whole call leaves.
  abbrev left_by : Answer S → Progress
  left_by r = (r.driver, r.client, finished)

  stays_finished :
      (n : ℕ) (t : Instants) (d : Driver S) (c : Client)
      → proceed_all q n t (d, c, finished) ≡ (d, c, finished)
  unfolding proceed_all proceed
  stays_finished zero t d c = refl
  stays_finished (suc n) t d c = stays_finished n t d c

  removes_alone :
      (n : ℕ) (t : Instants) (left : ℤ) (d : Driver S) (c : Client)
      → proceed_all q (suc (suc (suc n))) t (d, c, removing left) ≡ (
        if leb_ℤ left (pos 0)
            then record d {
              throttle_queue = q.clear (q.remove d.throttle_queue c);
              cancelled = true;
            }
            else record d { throttle_queue = q.remove d.throttle_queue c },
        c,
        finished,
      )
  unfolding proceed_all proceed
  removes_alone n t left d c = elim (Bool-cases (leb_ℤ left (pos 0))) [
    | inl e ↦ rw e (stays_finished n t _ c)
    | inr e ↦ rw e (stays_finished (suc (suc n)) t _ c)
  ]

  -- What the client and the counter are, whatever the queue keeps.
  module _ (laws : QueueLaws q) where
    buys_alone :
        (n : ℕ) (t : Instants) (d : Driver S) (c : Client)
        → proceed_all q (suc (suc (suc (suc n)))) t (d, c, buying)
          ≡ left_by (take_stock q t.passed_at d c)
    unfolding proceed_all proceed check_out atomic_add Counter.lock Counter.unlock
    buys_alone n t d c =
        let next = proceed_all q (suc (suc (suc n))) t in
        let refused : Refused q t.passed_at d c
            → next (buy q t.passed_at d c) ≡ left_by (take_stock q t.passed_at d c) =
          λ h.
            ap next (buy_refused q t.passed_at d c h)
            ∙ stays_finished (suc (suc (suc n))) t (given_up d) c
            ∙ sym (ap left_by (take_stock_refused q t.passed_at d c h)) in
        elim (Bool-cases (ltb_ℤ d.inventory.count (pos 0))) [
          | inl out ↦ refused (inl out)
          | inr there ↦ elim (Bool-cases c.is_locked) [
            | inl locked ↦
                ap next (buy_takes q t.passed_at d c there locked)
                ∙ removes_alone n t (left q t.passed_at d c) _ _
                ∙ sym (ap left_by (take_stock_locked q laws t.passed_at d c there locked))
            | inr free ↦ refused (inr free)
          ]
        ]

    abbrev waiting : Driver S → Client → Answer S
    waiting d c = record { driver = d; client = c; state = queued; changed = false }

    tracks_alone :
        (room : Bool) (n : ℕ) (t : Instants) (d : Driver S) (c : Client)
        → proceed_all q (suc (suc (suc (suc n)))) t (d, c, if room then buying else finished)
          ≡ left_by (if room then take_stock q t.passed_at d c else waiting d c)
    tracks_alone true n t d c = buys_alone n t d c
    tracks_alone false n t d c = stays_finished (suc (suc (suc (suc n)))) t d c

    -- The driver after the tracker was asked.
    abbrev tracked : Driver S → Client → Driver S
    tracked d c = record d { rate_tracker = (should_proceed c.id d.rate_tracker).0 }

    candidate_alone :
        (candidate : Bool) (n : ℕ) (t : Instants) (d : Driver S) (c : Client)
        → proceed_all q
            (suc (suc (suc (suc (suc n)))))
            t
            (d, c, if candidate then tracking else finished)
          ≡ left_by (
              if candidate
              then (if (should_proceed c.id d.rate_tracker).1
                  then take_stock q t.passed_at (tracked d c) c
                  else waiting (tracked d c) c)
              else waiting d c)
    unfolding proceed_all proceed
    candidate_alone true n t d c =
        tracks_alone (should_proceed c.id d.rate_tracker).1 n t (tracked d c) c
    candidate_alone false n t d c = stays_finished (suc (suc (suc (suc (suc n))))) t d c

    asks_alone :
        (n : ℕ) (t : Instants) (d : Driver S) (c : Client)
        → proceed_all q (suc (suc (suc (suc (suc (suc n)))))) t (d, c, asking)
          ≡ left_by (try_queued q t d c)
    unfolding proceed_all proceed try_queued
    asks_alone n t d c =
        let (asked, c', candidate) = q.is_candidate_to_proceed t.asked_at d.throttle_queue c in
        candidate_alone candidate n t (record d { throttle_queue = asked }) c'

    enqueue_adds :
        (t : Instants) (d : Driver S) (c : Client)
        → c.is_locked ≡ true
        → enqueue q t d c ≡ ((enqueued q laws t d c).0, (enqueued q laws t d c).1, asking)
    unfolding enqueue mark_queued
    enqueue_adds t d c locked = ground arith

    enqueue_refused :
        (t : Instants) (d : Driver S) (c : Client)
        → c.is_locked ≡ false
        → enqueue q t d c ≡ (d, c, finished)
    unfolding enqueue mark_queued
    enqueue_refused t d c free = ground arith

    -- The first step, by the client's state.
    abbrev first : Instants → Driver S → Client → Progress
    first t d c = proceed q t begun d c

    first_of :
        (t : Instants) (d : Driver S) (c : Client)
        → ((c.state ≡ initial) × (first t d c ≡ enqueue q t d c))
          ⊎ ((c.state ≡ queued) × (first t d c ≡ (d, c, asking)))
          ⊎ ((first t d c ≡ (d, c, finished)) × (left_by (answer q laws t d c) ≡ (d, c, finished)))
    unfolding proceed answer
    first_of t d c = elim (state_cases c.state) [
      | inl e ↦ inl (e, rw e)
      | inr (inl e) ↦ inr (inl (e, rw e))
      | inr (inr (inl e)) ↦ inr (inr (rw e refl, rw e refl))
      | inr (inr (inr e)) ↦ inr (inr (rw e refl, rw e refl))
    ]

    begins_alone :
        (n : ℕ) (t : Instants) (d : Driver S) (c : Client)
        → proceed_all q (suc (suc (suc (suc (suc (suc (suc n))))))) t (d, c, begun)
          ≡ left_by (answer q laws t d c)
    unfolding proceed_all answer
    begins_alone n t d c =
        let rest = proceed_all q (suc (suc (suc (suc (suc (suc n)))))) t in
        elim (first_of t d c) [
          | inl (e, one) ↦ elim (Bool-cases c.is_locked) [
            | inl locked ↦
                ap rest (one ∙ enqueue_adds t d c locked) ∙ asks_alone n t _ _ ∙ rw (e, locked) refl
            | inr free ↦
                ap rest (one ∙ enqueue_refused t d c free)
                ∙ stays_finished (suc (suc (suc (suc (suc (suc n)))))) t d c
                ∙ rw (e, free) refl
          ]
          | inr (inl (e, one)) ↦ ap rest one ∙ asks_alone n t d c ∙ rw e refl
          | inr (inr (one, same)) ↦
              ap rest one ∙ stays_finished (suc (suc (suc (suc (suc (suc n)))))) t d c ∙ sym same
        ]

    -- A call whose steps nothing interrupts leaves the driver and the client of the whole call, after
    -- at most seven steps, over any queue that keeps the interface's laws.
    pub proceed_all-try_transition :
        (fuel n : ℕ) (t : Instants) (d : Driver S) (c : Client)
        → 7 ≤ n
        → (r : Answer S) × (try_transition q (suc (suc fuel)) t d c ≡ some r)
          × (proceed_all q n t (d, c, begun) ≡ (r.driver, r.client, finished))
    proceed_all-try_transition fuel n t d c enough = (
      answer q laws t d c,
      try_transition-answer q laws fuel t d c,
      ap (λ m. proceed_all q m t (d, c, begun)) (seven_more n enough) ∙ begins_alone (n - 7) t d c,
    )
