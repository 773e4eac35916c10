-- ===== src/Driver/Calls.antt =====
-- CheckoutThrottleDriver.TryThrottleStateTransition as a whole
-- (internal/throttle/throttle_driver.go): it ends, and what it does in each state.
use goqueuesim.Common.{
  ℕ, suc, ◌≡◌, ◌≢◌, refl, sym, ◌∙◌, ap, subst, ◌⊎◌, inl, inr, true, false, Option, none, some,
  arith, if◌then◌else◌, Bool-cases, ℤ, pos, negsuc, ◌+ℤ◌, sub_ℕ, ◌<◌, ◌^◌,
}
use goqueuesim.Common.Word.{IsI32}
use goqueuesim.Common.Clock.{Time}
use goqueuesim.Common.Float.{Float64}
use goqueuesim.Client.{
  Client, ThrottleState, initial, queued, in_checkout, exited, mark_queued, mark_in_checkout,
}
use goqueuesim.Counter
use goqueuesim.Tracker.{should_proceed}
use goqueuesim.Queue.{Queue, QueueLaws}
use goqueuesim.Driver.{Instants, Driver, Answer, try_queued, try_transition}
use goqueuesim.Driver.Transition.{
  HasPassed, HasStayed, asked, try_queued-cases, try_queued_passes, take_stock_locked,
  check_out-HasPassed, mark_in_checkout_locked,
}

pub state_cases :
    (s : ThrottleState) → (s ≡ initial) ⊎ (s ≡ queued) ⊎ (s ≡ in_checkout) ⊎ (s ≡ exited)
state_cases initial = inl refl
state_cases queued = inr (inl refl)
state_cases in_checkout = inr (inr (inl refl))
state_cases exited = inr (inr (inr refl))

mark_queued_locked :
    (now : Time) (c : Client)
    → c.is_locked ≡ true
    → ((mark_queued now c).0.state ≡ queued)
      × ((mark_queued now c).0.is_locked ≡ true)
      × ((mark_queued now c).0.hit_checkout_step ≡ c.hit_checkout_step)
      × ((mark_queued now c).1 ≡ none)
unfolding mark_queued
mark_queued_locked now c h = ground arith

mark_queued_unlocked :
    (now : Time) (c : Client)
    → c.is_locked ≡ false
    → (mark_queued now c).0 ≡ c × ((mark_queued now c).1 ≢ none)
unfolding mark_queued
mark_queued_unlocked now c h = ground arith

stock_small : (a : ℤ) (n : ℕ) → a ≡ pos n → n < 2 ^ 31 → IsI32 (a +ℤ negsuc 0)
unfolding ◌+ℤ◌
stock_small a n e h = ground arith

taken_one : (a : ℤ) (n : ℕ) → a ≡ pos n → a +ℤ negsuc 0 ≡ sub_ℕ n 1
unfolding ◌+ℤ◌
taken_one a n e = ground arith

mark_queued_id : (now : Time) (c : Client) → (mark_queued now c).0.id ≡ c.id
unfolding mark_queued
mark_queued_id now c = ground arith

module _ {fl : Float64} {S : Type 0} (q : Queue fl S) (laws : QueueLaws q) where
  -- The driver and the client with which the initial case calls again.
  abbrev pub enqueued : Instants → Driver S → Client → Driver S × Client
  enqueued t d c =
      let (added, c'') = q.add t.added_at d.throttle_queue (mark_queued t.queued_at c).0 in
      (record d { throttle_queue = added }, c'')

  enqueued-queued :
      (t : Instants) (d : Driver S) (c : Client)
      → c.is_locked ≡ true
      → ((enqueued t d c).1.state ≡ queued)
        × ((enqueued t d c).1.is_locked ≡ true)
        × ((enqueued t d c).1.hit_checkout_step ≡ c.hit_checkout_step)
  enqueued-queued t d c locked =
      let m = mark_queued_locked t.queued_at c locked in
      let same = laws.add-SameThrottle t.added_at d.throttle_queue (mark_queued t.queued_at c).0 in
      (ground (arith, m, same), ground (arith, m, same), ground (arith, m, same))

  enqueued-id : (t : Instants) (d : Driver S) (c : Client) → (enqueued t d c).1.id ≡ c.id
  enqueued-id t d c =
      (laws.add-SameThrottle t.added_at d.throttle_queue (mark_queued t.queued_at c).0).same_id
      ∙ mark_queued_id t.queued_at c

  -- The answer, without fuel.
  unfoldable pub answer : Instants → Driver S → Client → Answer S
  answer t d c = elim c.state [
    | initial ↦
        if c.is_locked
        then record (try_queued q t (enqueued t d c).0 (enqueued t d c).1) { changed = true }
        else record { driver = d; client = c; state = initial; changed = false }
    | queued ↦ try_queued q t d c
    | in_checkout ↦ record { driver = d; client = c; state = in_checkout; changed = false }
    | exited ↦ record { driver = d; client = c; state = exited; changed = false }
  ]

  try_transition_queued :
      (fuel : ℕ) (t : Instants) (d : Driver S) (c : Client)
      → c.state ≡ queued
      → try_transition q (suc fuel) t d c ≡ some (try_queued q t d c)
  unfolding try_transition
  try_transition_queued fuel t d c e = rw e

  abbrev mark_changed : Option (Answer S) → Option (Answer S)
  mark_changed none = none
  mark_changed (some r) = some (record r { changed = true })

  try_transition_initial :
      (fuel : ℕ) (t : Instants) (d : Driver S) (c : Client)
      → c.state ≡ initial
      → c.is_locked ≡ true
      → try_transition q (suc fuel) t d c
        ≡ mark_changed (try_transition q fuel t (enqueued t d c).0 (enqueued t d c).1)
  unfolding try_transition mark_queued
  try_transition_initial fuel t d c e locked = ground arith

  try_transition_refused :
      (fuel : ℕ) (t : Instants) (d : Driver S) (c : Client)
      → c.state ≡ initial
      → c.is_locked ≡ false
      → try_transition q (suc fuel) t d c
        ≡ some (record { driver = d; client = c; state = initial; changed = false })
  unfolding try_transition mark_queued
  try_transition_refused fuel t d c e free = ground arith

  -- The call answers after calling itself at most once, so two calls are enough, and its answer
  -- does not depend on how many more are allowed.
  pub try_transition-answer :
      (fuel : ℕ) (t : Instants) (d : Driver S) (c : Client)
      → try_transition q (suc (suc fuel)) t d c ≡ some (answer t d c)
  unfolding answer
  try_transition-answer fuel t d c = elim (state_cases c.state) [
    | inl e ↦ elim (Bool-cases c.is_locked) [
      | inl locked ↦
          try_transition_initial (suc fuel) t d c e locked
          ∙ ap mark_changed (
              try_transition_queued fuel t (enqueued t d c).0 (enqueued t d c).1
                (enqueued-queued t d c locked).0)
          ∙ ground arith
      | inr free ↦ try_transition_refused (suc fuel) t d c e free ∙ ground arith
    ]
    | inr (inl e) ↦ try_transition_queued (suc fuel) t d c e ∙ ground arith
    | inr (inr (inl e)) ↦ unfold try_transition in ground arith
    | inr (inr (inr e)) ↦ unfold try_transition in ground arith
  ]

  widen :
      (t : Instants) (d : Driver S) (c : Client) (r : Answer S)
      → c.state ≡ initial
      → c.is_locked ≡ true
      → (HasPassed (enqueued t d c).0 (enqueued t d c).1 r)
        ⊎ (HasStayed (enqueued t d c).0 (enqueued t d c).1 r)
      → (HasPassed d c (record r { changed = true }))
        ⊎ (HasStayed d c (record r { changed = true }))
  widen t d c r e locked (inl h) = inl (record {
    waited = inl e;
    reported = ground arith;
    marked = h.marked;
    same_id = h.same_id ∙ enqueued-id t d c;
    in_stock = h.in_stock;
    one_taken = h.one_taken;
    ended = h.ended;
  })
  widen t d c r e locked (inr h) =
      let (state, _, step) = enqueued-queued t d c locked in
      inr (record {
        reported = h.reported;
        moved = ground arith;
        same_id = h.same_id ∙ enqueued-id t d c;
        none_taken = h.none_taken;
        same_step = ground arith;
        not_ended = h.not_ended;
      })

  idle_HasStayed :
      (d : Driver S) (c : Client) (s : ThrottleState)
      → c.state ≡ s
      → HasStayed d c (record { driver = d; client = c; state = s; changed = false })
  idle_HasStayed d c s e = record {
    reported = sym e;
    moved = inl refl;
    same_id = refl;
    none_taken = refl;
    same_step = refl;
    not_ended = refl;
  }

  -- Every call either passes the client, and then it took one item of a stock that was not below
  -- zero and cancelled the context where at most one was there, or leaves the stock, and at most
  -- queues the client.
  pub answer-cases :
      (t : Instants) (d : Driver S) (c : Client)
      → IsI32 (d.inventory.count +ℤ negsuc 0)
      → (HasPassed d c (answer t d c)) ⊎ (HasStayed d c (answer t d c))
  unfolding answer
  answer-cases t d c small = elim (state_cases c.state) [
    | inl e ↦ elim (Bool-cases c.is_locked) [
      | inl locked ↦
          subst (λ r. (HasPassed d c r) ⊎ (HasStayed d c r)) (ground arith)
            (widen t d c (try_queued q t (enqueued t d c).0 (enqueued t d c).1) e locked (
              try_queued-cases q laws t (enqueued t d c).0 (enqueued t d c).1
                (enqueued-queued t d c locked).0 small))
      | inr free ↦
          subst (λ r. (HasPassed d c r) ⊎ (HasStayed d c r)) (ground arith)
            (inr (idle_HasStayed d c initial e))
    ]
    | inr (inl e) ↦
        subst (λ r. (HasPassed d c r) ⊎ (HasStayed d c r)) (ground arith)
          (try_queued-cases q laws t d c e small)
    | inr (inr (inl e)) ↦
        subst (λ r. (HasPassed d c r) ⊎ (HasStayed d c r)) (ground arith)
          (inr (idle_HasStayed d c in_checkout e))
    | inr (inr (inr e)) ↦
        subst (λ r. (HasPassed d c r) ⊎ (HasStayed d c r)) (ground arith)
          (inr (idle_HasStayed d c exited e))
  ]

  -- A call with fuel for two calls or more answers, provided that one item less than the stock fits
  -- an int32. Either it passes the client, and then it took one item of a stock that was not below zero,
  -- and cancelled the context if at most one was there, else left it; or it leaves the stock and the
  -- context, and at most queues the client.
  pub try_transition-cases :
      (fuel : ℕ) (t : Instants) (d : Driver S) (c : Client)
      → IsI32 (d.inventory.count +ℤ negsuc 0)
      → (r : Answer S) × (try_transition q (suc (suc fuel)) t d c ≡ some r)
        × ((HasPassed d c r) ⊎ (HasStayed d c r))
  try_transition-cases fuel t d c small =
      (answer t d c, try_transition-answer fuel t d c, answer-cases t d c small)

  -- A queued client under its lock passes whenever the queue takes it for a candidate, the window has
  -- room and the stock is not below zero: at a stock of zero too, which then falls to -1.
  pub try_transition_passes :
      (fuel : ℕ) (t : Instants) (d : Driver S) (c : Client) (n : ℕ)
      → c.state ≡ queued
      → c.is_locked ≡ true
      → (asked q laws t d c).2 ≡ true
      → (should_proceed (asked q laws t d c).1.id d.rate_tracker).1 ≡ true
      → d.inventory.count ≡ pos n
      → n < 2 ^ 31
      → (r : Answer S) × (try_transition q (suc (suc fuel)) t d c ≡ some r)
        × (HasPassed d c r)
        × (r.driver.inventory.count ≡ sub_ℕ n 1)
  try_transition_passes fuel t d c n e locked a b stock small =
      let same = laws.candidate-SameThrottle t.asked_at d.throttle_queue c in
      let c' = (asked q laws t d c).1 in
      let locked' : c'.is_locked ≡ true = ground (arith, same) in
      let (state, step) = mark_in_checkout_locked q laws t.passed_at c' locked' in
      let passed : HasPassed d c (try_queued q t d c) =
        subst (HasPassed d c)
          (sym (
            try_queued_passes q laws t d c a b
            ∙ take_stock_locked q laws t.passed_at _ c' (ground arith) locked'))
          (check_out-HasPassed q laws _ d (mark_in_checkout t.passed_at c').0 c e state step
            (ground arith) (unfold Counter.lock in refl) refl
            (unfold mark_in_checkout in ground (arith, same))
            (stock_small d.inventory.count n stock small)) in
      (
        try_queued q t d c,
        try_transition_queued (suc fuel) t d c e,
        passed,
        passed.one_taken ∙ taken_one d.inventory.count n stock,
      )
