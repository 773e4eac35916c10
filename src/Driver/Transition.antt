-- ===== src/Driver/Transition.antt =====
-- What one call of CheckoutThrottleDriver.TryThrottleStateTransition does
-- (internal/throttle/throttle_driver.go).
use goqueuesim.Common.{
  ◌≡◌, refl, sym, ◌∙◌, subst, ◌⊎◌, inl, inr, Bool, true, false, arith, if◌then◌else◌, Bool-cases,
  pos, negsuc, ◌+ℤ◌, ◌≤ℤ◌, leb_ℤ, ltb_ℤ, +ℤ_parts,
}
use goqueuesim.Common.Word.{IsI32, i32_lem}
use goqueuesim.Common.Clock.{Time}
use goqueuesim.Common.Float.{Float64}
use goqueuesim.Client.{Client, initial, queued, in_checkout, mark_in_checkout}
use goqueuesim.Client.Cookies.{SameThrottle}
use goqueuesim.Counter.{AtomicCounter}
use goqueuesim.Counter
use goqueuesim.Tracker.{should_proceed}
use goqueuesim.Queue.{Queue, QueueLaws}
use goqueuesim.Driver.{Instants, Driver, Answer, check_out, take_stock, try_queued}

-- The call let the client into checkout: it took one item of a stock that was not below zero, and it
-- cancelled the context if at most one was there, else left the context.
pub record HasPassed {S : Type 0} (d : Driver S) (c : Client) (r : Answer S) : Type 0 where
  pub waited : (c.state ≡ initial) ⊎ (c.state ≡ queued)
  pub reported : (r.state ≡ in_checkout) × (r.changed ≡ true)
  pub marked : (r.client.state ≡ in_checkout) × (r.client.hit_checkout_step ≡ true)
  pub same_id : r.client.id ≡ c.id
  pub in_stock : pos 0 ≤ℤ d.inventory.count
  pub one_taken : r.driver.inventory.count ≡ d.inventory.count +ℤ negsuc 0
  pub ended : r.driver.cancelled ≡ (if leb_ℤ d.inventory.count (pos 1) then true else d.cancelled)

-- The call did not: the stock is as it was, and at most a client that was not yet queued is now.
pub record HasStayed {S : Type 0} (d : Driver S) (c : Client) (r : Answer S) : Type 0 where
  pub reported : r.state ≡ r.client.state
  pub moved : (r.client.state ≡ c.state) ⊎ ((c.state ≡ initial) × (r.client.state ≡ queued))
  pub same_id : r.client.id ≡ c.id
  pub none_taken : r.driver.inventory.count ≡ d.inventory.count
  pub same_step : r.client.hit_checkout_step ≡ c.hit_checkout_step
  pub not_ended : r.driver.cancelled ≡ d.cancelled

module _ {fl : Float64} {S : Type 0} (q : Queue fl S) (laws : QueueLaws q) where
  pub check_out-HasPassed :
      (d d₀ : Driver S) (c c₀ : Client)
      → c₀.state ≡ queued
      → c.state ≡ in_checkout
      → c.hit_checkout_step ≡ true
      → pos 0 ≤ℤ d₀.inventory.count
      → d.inventory ≡ record { is_locked = true; count = d₀.inventory.count }
      → d.cancelled ≡ d₀.cancelled
      → c.id ≡ c₀.id
      → IsI32 (d₀.inventory.count +ℤ negsuc 0)
      → HasPassed d₀ c₀ (check_out q d c)
  unfolding check_out
  check_out-HasPassed d d₀ c c₀ e m s h i k n small =
      let exact = i32_lem (d₀.inventory.count +ℤ negsuc 0) small in
      let parts = +ℤ_parts d₀.inventory.count (negsuc 0) in
      record {
        waited = inr e;
        reported = (refl, refl);
        marked = (m, s);
        same_id = n;
        in_stock = h;
        one_taken = ground (arith, exact);
        ended = ground (arith, exact, parts);
      }

  pub take_stock_locked :
      (now : Time) (d : Driver S) (c : Client)
      → ltb_ℤ d.inventory.count (pos 0) ≡ false
      → c.is_locked ≡ true
      → take_stock q now d c
        ≡ check_out q (record d { inventory = Counter.lock d.inventory }) (mark_in_checkout now c).0
  unfolding take_stock mark_in_checkout
  take_stock_locked now d c there locked = ground arith

  pub mark_in_checkout_locked :
      (now : Time) (c : Client)
      → c.is_locked ≡ true
      → ((mark_in_checkout now c).0.state ≡ in_checkout)
        × ((mark_in_checkout now c).0.hit_checkout_step ≡ true)
  unfolding mark_in_checkout
  mark_in_checkout_locked now c locked = ground arith

  take_stock_unlocked :
      (now : Time) (d : Driver S) (c : Client)
      → c.is_locked ≡ false
      → HasStayed d c (take_stock q now d c)
  unfolding take_stock mark_in_checkout
  take_stock_unlocked now d c free = record {
    reported = ground arith;
    moved = ground arith;
    same_id = ground arith;
    none_taken = ground arith;
    same_step = ground arith;
    not_ended = ground arith;
  }

  take_stock-cases :
      (now : Time) (d : Driver S) (c : Client)
      → c.state ≡ queued
      → IsI32 (d.inventory.count +ℤ negsuc 0)
      → (HasPassed d c (take_stock q now d c)) ⊎ (HasStayed d c (take_stock q now d c))
  unfolding take_stock mark_in_checkout
  take_stock-cases now d c e small = elim (Bool-cases (ltb_ℤ d.inventory.count (pos 0))) [
    | inl out ↦ inr (record {
      reported = ground arith;
      moved = ground arith;
      same_id = ground arith;
      none_taken = ground arith;
      same_step = ground arith;
      not_ended = ground arith;
    })
    | inr there ↦ elim (Bool-cases c.is_locked) [
      | inl locked ↦
          let (state, step) = mark_in_checkout_locked now c locked in
          inl (
            subst (HasPassed d c) (sym (take_stock_locked now d c there locked)) (
              check_out-HasPassed _ d (mark_in_checkout now c).0 c e state step (ground arith)
                (unfold Counter.lock in refl) refl (unfold mark_in_checkout in ground arith) small))
      | inr free ↦ inr (take_stock_unlocked now d c free)
    ]
  ]

  transfer :
      (d d' : Driver S) (c c' : Client) (r : Answer S)
      → d'.inventory ≡ d.inventory
      → d'.cancelled ≡ d.cancelled
      → SameThrottle c c'
      → (HasPassed d' c' r) ⊎ (HasStayed d' c' r)
      → (HasPassed d c r) ⊎ (HasStayed d c r)
  transfer d d' c c' r i x same (inl h) = inl (record {
    waited = ground arith;
    reported = h.reported;
    marked = h.marked;
    same_id = ground arith;
    in_stock = ground arith;
    one_taken = ground arith;
    ended = h.ended ∙ rw (i, x) refl;
  })
  transfer d d' c c' r i x same (inr h) = inr (record {
    reported = h.reported;
    moved = ground arith;
    same_id = ground arith;
    none_taken = ground arith;
    same_step = ground arith;
    not_ended = ground arith;
  })

  abbrev pub asked : Instants → Driver S → Client → S × Client × Bool
  asked t d c = q.is_candidate_to_proceed t.asked_at d.throttle_queue c

  pub try_queued_passes :
      (t : Instants) (d : Driver S) (c : Client)
      → (asked t d c).2 ≡ true
      → (should_proceed (asked t d c).1.id d.rate_tracker).1 ≡ true
      → try_queued q t d c
        ≡ take_stock q t.passed_at
            (record d {
              throttle_queue = (asked t d c).0;
              rate_tracker = (should_proceed (asked t d c).1.id d.rate_tracker).0;
            })
            (asked t d c).1
  unfolding try_queued
  try_queued_passes t d c a b = rw (a, b)

  try_queued_stays :
      (t : Instants) (d : Driver S) (c : Client)
      → c.state ≡ queued
      → ((asked t d c).2 ≡ false) ⊎ ((should_proceed (asked t d c).1.id d.rate_tracker).1 ≡ false)
      → HasStayed d c (try_queued q t d c)
  unfolding try_queued
  try_queued_stays t d c e h =
      let same = laws.candidate-SameThrottle t.asked_at d.throttle_queue c in
      record {
        reported = ground (arith, same);
        moved = ground (arith, same);
        same_id = ground arith;
        none_taken = ground arith;
        same_step = ground (arith, same);
        not_ended = ground arith;
      }

  -- The answer for a queued client, whatever queue and tracker say.
  pub try_queued-cases :
      (t : Instants) (d : Driver S) (c : Client)
      → c.state ≡ queued
      → IsI32 (d.inventory.count +ℤ negsuc 0)
      → (HasPassed d c (try_queued q t d c)) ⊎ (HasStayed d c (try_queued q t d c))
  try_queued-cases t d c e small =
      let same = laws.candidate-SameThrottle t.asked_at d.throttle_queue c in
      let c' = (asked t d c).1 in
      elim (Bool-cases (asked t d c).2) [
        | inl a ↦ elim (Bool-cases (should_proceed c'.id d.rate_tracker).1) [
          | inl b ↦
              subst (λ r. (HasPassed d c r) ⊎ (HasStayed d c r)) (sym (try_queued_passes t d c a b))
                (transfer d _ c c' _ refl refl same
                  (take_stock-cases t.passed_at _ c' (ground (arith, same)) small))
          | inr b ↦ inr (try_queued_stays t d c e (inr b))
        ]
        | inr a ↦ inr (try_queued_stays t d c e (inl a))
      ]
