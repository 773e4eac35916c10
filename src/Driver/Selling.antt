-- ===== src/Driver/Selling.antt =====
-- What one phase of CheckoutThrottleDriver.TryThrottleStateTransition does to the stock and to its client
-- (internal/throttle/throttle_driver.go).
use goqueuesim.Common.{
  ◌≡◌, refl, sym, ◌∙◌, subst, ◌⊎◌, inl, inr, Bool, true, false, arith, Bool-cases, pos, negsuc,
  ◌+ℤ◌, ◌≤ℤ◌, leb_ℤ, ltb_ℤ, if◌then◌else◌,
}
use goqueuesim.Common.Word.{IsI32}
use goqueuesim.Common.Clock.{Time}
use goqueuesim.Common.Float.{Float64}
use goqueuesim.Client.{Client, initial, queued, in_checkout, mark_queued, mark_in_checkout}
use goqueuesim.Client.Cookies.{SameThrottle, SameThrottle-refl}
use goqueuesim.Queue.{Queue, QueueLaws}
use goqueuesim.Driver.{Instants, Driver}
use goqueuesim.Driver.Calls.{state_cases}
use goqueuesim.Driver.Buying.{given_up, buy_refused, buy_sells}
use goqueuesim.Driver.Phases.{
  Phase, begun, asking, tracking, buying, removing, clearing, cancelling, finished, enqueue, buy,
  proceed,
}

-- A call that has still to take its item.
abbrev pub awaits : Phase → Bool
awaits asking = true
awaits tracking = true
awaits buying = true
awaits _ = false

-- The step took one item of a stock that was not below zero, for a client that was queued.
pub record HasSold {S : Type 0} (d : Driver S) (c : Client) (d' : Driver S) (c' : Client)
    : Type 0 where
  pub waited : c.state ≡ queued
  pub in_stock : pos 0 ≤ℤ d.inventory.count
  pub one_taken : d'.inventory.count ≡ d.inventory.count +ℤ negsuc 0
  pub reached : (c'.state ≡ in_checkout) × (c'.hit_checkout_step ≡ true)

-- The step took none, and at most queued a client that was not yet.
pub record HasKept {S : Type 0} (d : Driver S) (c : Client) (d' : Driver S) (c' : Client)
    : Type 0 where
  pub none_taken : d'.inventory.count ≡ d.inventory.count
  pub same_step : c'.hit_checkout_step ≡ c.hit_checkout_step
  pub moved : (c'.state ≡ c.state) ⊎ ((c.state ≡ initial) × (c'.state ≡ queued))

pub record HasProceeded {S : Type 0} (d : Driver S) (c : Client) (r : Driver S × Client × Phase)
    : Type 0 where
  pub same_id : r.1.id ≡ c.id
  pub same_lock : r.1.is_locked ≡ c.is_locked
  pub stock : (HasSold d c r.0 r.1) ⊎ (HasKept d c r.0 r.1)
  pub still_waits : awaits r.2 ≡ true → r.1.state ≡ queued

module _ {fl : Float64} {S : Type 0} (q : Queue fl S) (laws : QueueLaws q) where
  -- A step that leaves the counter, for a client that it leaves alone where it matters.
  left_alone :
      (d d' : Driver S) (c c' : Client) (p : Phase)
      → SameThrottle c c'
      → d'.inventory.count ≡ d.inventory.count
      → (awaits p ≡ true → c.state ≡ queued)
      → HasProceeded d c (d', c', p)
  left_alone d d' c c' p same count waits = record {
    same_id = same.same_id;
    same_lock = ground (arith, same);
    stock = inr (record {
      none_taken = count;
      same_step = ground (arith, same);
      moved = inl (ground (arith, same));
    });
    still_waits = λ w. ground (arith, same, waits w);
  }

  sells-HasProceeded :
      (now : Time) (d : Driver S) (c : Client)
      → c.state ≡ queued
      → ltb_ℤ d.inventory.count (pos 0) ≡ false
      → c.is_locked ≡ true
      → HasProceeded d c (
        record d {
          inventory = record { is_locked = false; count = d.inventory.count +ℤ negsuc 0 };
        },
        (mark_in_checkout now c).0,
        removing (d.inventory.count +ℤ negsuc 0),
      )
  unfolding mark_in_checkout
  sells-HasProceeded now d c e there locked = record {
    same_id = ground arith;
    same_lock = ground arith;
    stock = inl (record {
      waited = e;
      in_stock = ground arith;
      one_taken = refl;
      reached = (ground arith, ground arith);
    });
    still_waits = λ w. ground arith;
  }

  buy-HasProceeded :
      (now : Time) (d : Driver S) (c : Client)
      → c.state ≡ queued
      → IsI32 (d.inventory.count +ℤ negsuc 0)
      → HasProceeded d c (buy q now d c)
  buy-HasProceeded now d c e small =
      let refused : (ltb_ℤ d.inventory.count (pos 0) ≡ true) ⊎ (c.is_locked ≡ false)
          → HasProceeded d c (buy q now d c) =
        λ h.
          subst (HasProceeded d c) (sym (buy_refused q now d c h))
            (left_alone d (given_up d) c c finished (SameThrottle-refl c) refl (λ w. e)) in
      elim (Bool-cases (ltb_ℤ d.inventory.count (pos 0))) [
        | inl out ↦ refused (inl out)
        | inr there ↦ elim (Bool-cases c.is_locked) [
          | inl locked ↦
              subst (HasProceeded d c) (sym (buy_sells q now d c there locked small))
                (sells-HasProceeded now d c e there locked)
          | inr free ↦ refused (inr free)
        ]
      ]

  enqueue_adds :
      (t : Instants) (d : Driver S) (c : Client)
      → c.is_locked ≡ true
      → enqueue q t d c ≡ (
        record d {
          throttle_queue = (q.add t.added_at d.throttle_queue (mark_queued t.queued_at c).0).0;
        },
        (q.add t.added_at d.throttle_queue (mark_queued t.queued_at c).0).1,
        asking,
      )
  unfolding enqueue mark_queued
  enqueue_adds t d c locked = ground arith

  enqueue_refused :
      (t : Instants) (d : Driver S) (c : Client)
      → c.is_locked ≡ false
      → enqueue q t d c ≡ (d, c, finished)
  unfolding enqueue mark_queued
  enqueue_refused t d c free = ground arith

  marked :
      (now : Time) (c : Client)
      → ((mark_queued now c).0.id ≡ c.id)
        × ((mark_queued now c).0.is_locked ≡ c.is_locked)
        × ((mark_queued now c).0.hit_checkout_step ≡ c.hit_checkout_step)
        × (c.is_locked ≡ true → (mark_queued now c).0.state ≡ queued)
  unfolding mark_queued
  marked now c = (ground arith, ground arith, ground arith, λ h. ground arith)

  enqueue-HasProceeded :
      (t : Instants) (d : Driver S) (c : Client)
      → c.state ≡ initial
      → HasProceeded d c (enqueue q t d c)
  enqueue-HasProceeded t d c e = elim (Bool-cases c.is_locked) [
    | inl locked ↦
        let m = marked t.queued_at c in
        let same =
          laws.add-SameThrottle t.added_at d.throttle_queue (mark_queued t.queued_at c).0 in
        let now_queued = same.same_state ∙ m.3 locked in
        subst (HasProceeded d c) (sym (enqueue_adds t d c locked)) (record {
          same_id = same.same_id ∙ m.0;
          same_lock = same.same_lock ∙ m.1;
          stock = inr (record {
            none_taken = refl;
            same_step = same.same_step ∙ m.2;
            moved = inr (e, now_queued);
          });
          still_waits = λ w. now_queued;
        })
    | inr free ↦
        subst (HasProceeded d c) (sym (enqueue_refused t d c free))
          (left_alone d d c c finished (SameThrottle-refl c) refl (λ w. cc))
  ]

  idle_begun :
      (t : Instants) (d : Driver S) (c : Client) (p : Phase)
      → proceed q t begun d c ≡ (d, c, p)
      → (awaits p ≡ true → c.state ≡ queued)
      → HasProceeded d c (proceed q t begun d c)
  idle_begun t d c p e h =
      subst (HasProceeded d c) (sym e) (left_alone d d c c p (SameThrottle-refl c) refl h)

  no_wait :
      (b : Bool) (c : Client) → awaits (if b then clearing else finished) ≡ true → c.state ≡ queued
  no_wait true c w = cc
  no_wait false c w = cc

  -- A step of a call takes one item of a stock that was not below zero, and marks its queued client as
  -- one that reached checkout, or takes none; a call that has still to take its item has a queued
  -- client before and after.
  pub proceed-HasProceeded :
      (t : Instants) (p : Phase) (d : Driver S) (c : Client)
      → (awaits p ≡ true → c.state ≡ queued)
      → IsI32 (d.inventory.count +ℤ negsuc 0)
      → HasProceeded d c (proceed q t p d c)
  unfolding proceed
  proceed-HasProceeded t begun d c h small = elim (state_cases c.state) [
    | inl e ↦ subst (HasProceeded d c) (ground arith) (enqueue-HasProceeded t d c e)
    | inr (inl e) ↦ idle_begun t d c asking (ground arith) (λ w. e)
    | inr (inr (inl e)) ↦ idle_begun t d c finished (ground arith) (λ w. cc)
    | inr (inr (inr e)) ↦ idle_begun t d c finished (ground arith) (λ w. cc)
  ]
  proceed-HasProceeded t asking d c h small =
      left_alone d _ c _ _ (laws.candidate-SameThrottle t.asked_at d.throttle_queue c) refl
        (λ w. h refl)
  proceed-HasProceeded t tracking d c h small =
      left_alone d _ c c _ (SameThrottle-refl c) refl (λ w. h refl)
  proceed-HasProceeded t buying d c h small = buy-HasProceeded t.passed_at d c (h refl) small
  proceed-HasProceeded t (removing left) d c h small =
      left_alone d _ c c _ (SameThrottle-refl c) refl (λ w. no_wait (leb_ℤ left (pos 0)) c w)
  proceed-HasProceeded t clearing d c h small =
      left_alone d _ c c cancelling (SameThrottle-refl c) refl (λ w. cc)
  proceed-HasProceeded t cancelling d c h small =
      left_alone d _ c c finished (SameThrottle-refl c) refl (λ w. cc)
  proceed-HasProceeded t finished d c h small =
      left_alone d _ c c finished (SameThrottle-refl c) refl (λ w. cc)
