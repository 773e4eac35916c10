-- ===== src/Driver/Phases.antt =====
-- CheckoutThrottleDriver.TryThrottleStateTransition (internal/throttle/throttle_driver.go) in steps, each
-- at most one section under a lock of the queue, of the tracker or of the counter. The caller holds the
-- client's lock throughout, and between two steps other calls may change what all share.
use goqueuesim.Common.{ℕ, zero, suc, true, none, some, if◌then◌else◌, ℤ, pos, negsuc, leb_ℤ, ltb_ℤ}
use goqueuesim.Common.Clock.{Time}
use goqueuesim.Common.Float.{Float64}
use goqueuesim.Client.{Client, initial, queued, in_checkout, exited, mark_queued, mark_in_checkout}
use goqueuesim.Counter.{AtomicCounter, atomic_add, atomic_read}
use goqueuesim.Counter
use goqueuesim.Tracker.{should_proceed}
use goqueuesim.Queue.{Queue}
use goqueuesim.Driver.{Instants, Driver}

-- What a call is about to do: to look at the client's state; to ask the queue, then the tracker; to
-- lock the counter; to remove the client, with what is left of the stock; to clear the queue and to
-- cancel the context; or to return.
pub data Phase : Type 0 where
  begun asking tracking buying : Phase
  removing : ℤ → Phase
  clearing cancelling finished : Phase

module _ {fl : Float64} {S : Type 0} (q : Queue fl S) where
  -- MarkQueued and Add
  unfoldable pub enqueue : Instants → Driver S → Client → Driver S × Client × Phase
  enqueue t d c =
      let (c', failure) = mark_queued t.queued_at c in
      let (added, c'') = q.add t.added_at d.throttle_queue c' in
      elim failure [
        | some e ↦ (d, c', finished)
        | none ↦ (record d { throttle_queue = added }, c'', asking)
      ]

  -- From GlobalInventoryCounter.Lock() to its Unlock()
  unfoldable pub buy : Time → Driver S → Client → Driver S × Client × Phase
  unfolding atomic_read atomic_add Counter.lock Counter.unlock
  buy now d c =
      let held = Counter.lock d.inventory in
      let (rem, _) = atomic_read held in
      let given_up = record d { inventory = Counter.unlock held } in
      let (c', failure) = mark_in_checkout now c in
      let (taken, left, _) = atomic_add (negsuc 0) held in
      if ltb_ℤ rem (pos 0) then (given_up, c, finished) else elim failure [
        | some e ↦ (given_up, c', finished)
        | none ↦ (record d { inventory = Counter.unlock taken }, c', removing left)
      ]

  -- The next step of a call.
  unfoldable pub proceed : Instants → Phase → Driver S → Client → Driver S × Client × Phase
  unfolding enqueue buy
  proceed t begun d c = elim c.state [
    | initial ↦ enqueue t d c
    | queued ↦ (d, c, asking)
    | in_checkout ↦ (d, c, finished)
    | exited ↦ (d, c, finished)
  ]
  proceed t asking d c =
      let (asked, c', candidate) = q.is_candidate_to_proceed t.asked_at d.throttle_queue c in
      (record d { throttle_queue = asked }, c', if candidate then tracking else finished)
  proceed t tracking d c =
      let (tracked, room) = should_proceed c.id d.rate_tracker in
      (record d { rate_tracker = tracked }, c, if room then buying else finished)
  proceed t buying d c = buy t.passed_at d c
  proceed t (removing left) d c = (
    record d { throttle_queue = q.remove d.throttle_queue c },
    c,
    if leb_ℤ left (pos 0) then clearing else finished,
  )
  proceed t clearing d c = (record d { throttle_queue = q.clear d.throttle_queue }, c, cancelling)
  proceed t cancelling d c = (record d { cancelled = true }, c, finished)
  proceed t finished d c = (d, c, finished)

  -- `fuel` steps of one call, with nothing else in between.
  unfoldable pub proceed_all : ℕ → Instants → Driver S × Client × Phase → Driver S × Client × Phase
  proceed_all zero t s = s
  proceed_all (suc n) t s = proceed_all n t (proceed t s.2 s.0 s.1)
