-- ===== src/Driver.antt =====
-- internal/throttle/throttle_driver.go: CheckoutThrottleDriver, over any queue, with the fixed window
-- tracker and the shared inventory counter. The context is its cancelled flag.
pub mod Transition
pub mod Calls
pub mod Phases
pub mod Buying
pub mod Alone
pub mod Selling
use goqueuesim.Common.{
  ℕ, zero, suc, ◌≡◌, Bool, true, false, Option, none, some, if◌then◌else◌, ℤ, pos, negsuc, leb_ℤ,
  ltb_ℤ,
}
use goqueuesim.Common.Clock.{Time}
use goqueuesim.Common.Float.{Float64}
use goqueuesim.Client.{
  Client, ThrottleState, initial, queued, in_checkout, exited, mark_queued, mark_in_checkout,
}
use goqueuesim.Counter.{AtomicCounter, atomic_add, atomic_read}
use goqueuesim.Counter
use goqueuesim.Tracker.{FixedWindowTracker, Feedback, should_proceed}
use goqueuesim.Queue.{Queue}

-- The times that one call reads: in MarkQueued, Add, IsCandidateToProceed and MarkInCheckout.
pub record Instants : Type 0 where
  pub queued_at : Time
  pub added_at : Time
  pub asked_at : Time
  pub passed_at : Time

pub record Driver (S : Type 0) : Type 0 where
  pub throttle_queue : S
  pub rate_tracker : FixedWindowTracker
  pub inventory : AtomicCounter
  pub cancelled : Bool

-- What a call leaves and returns.
pub record Answer (S : Type 0) : Type 0 where
  pub driver : Driver S
  pub client : Client
  pub state : ThrottleState
  pub changed : Bool

module _ {fl : Float64} {S : Type 0} (q : Queue fl S) where
  -- The end of the queued case, once the client is marked: the stock is taken, and the last item
  -- clears the queue and cancels the context.
  unfoldable pub check_out : Driver S → Client → Answer S
  unfolding atomic_add Counter.unlock
  check_out d c =
      let (taken, rem, _) = atomic_add (negsuc 0) d.inventory in
      let left = q.remove d.throttle_queue c in
      let d' = record d { inventory = Counter.unlock taken; throttle_queue = left } in
      record {
        driver =
            if leb_ℤ rem (pos 0)
            then record d' { throttle_queue = q.clear left; cancelled = true }
            else d';
        client = c;
        state = in_checkout;
        changed = true;
      }

  -- The queued case once queue and tracker let the client pass.
  unfoldable pub take_stock : Time → Driver S → Client → Answer S
  unfolding atomic_read Counter.lock Counter.unlock
  take_stock now d c =
      let held = Counter.lock d.inventory in
      let (rem, _) = atomic_read held in
      let given_up : Answer S = record {
        driver = record d { inventory = Counter.unlock held };
        client = c;
        state = c.state;
        changed = false;
      } in
      let (c', failure) = mark_in_checkout now c in
      if ltb_ℤ rem (pos 0)
      then given_up
      else elim failure [ some e ↦ given_up | none ↦ check_out (record d { inventory = held }) c' ]

  -- The queued case.
  unfoldable pub try_queued : Instants → Driver S → Client → Answer S
  try_queued t d c =
      let (asked, c', candidate) = q.is_candidate_to_proceed t.asked_at d.throttle_queue c in
      let d' = record d { throttle_queue = asked } in
      let (tracked, room) = should_proceed c'.id d.rate_tracker in
      let waits : Driver S → Answer S =
        λ e. record { driver = e; client = c'; state = queued; changed = false } in
      if candidate
      then (if room
          then take_stock t.passed_at (record d' { rate_tracker = tracked }) c'
          else waits (record d' { rate_tracker = tracked }))
      else waits d'

  -- CheckoutThrottleDriver.TryThrottleStateTransition; the fuel counts its calls, and `none` is that
  -- it ran out.
  unfoldable pub try_transition : ℕ → Instants → Driver S → Client → Option (Answer S)
  try_transition zero t d c = none
  try_transition (suc fuel) t d c = elim c.state [
    | initial ↦
        let (c', failure) = mark_queued t.queued_at c in
        let (added, c'') = q.add t.added_at d.throttle_queue c' in
        let latest = try_transition fuel t (record d { throttle_queue = added }) c'' in
        elim failure [
          | some e ↦ some (record { driver = d; client = c'; state = initial; changed = false })
          | none ↦ elim latest [ none ↦ none | some r ↦ some (record r { changed = true }) ]
        ]
    | queued ↦ some (try_queued t d c)
    | in_checkout ↦ some (record { driver = d; client = c; state = in_checkout; changed = false })
    | exited ↦ some (record { driver = d; client = c; state = exited; changed = false })
  ]

  -- One round of the loop of MonitorUtilAndNotifyQueue that receives a message.
  unfoldable pub notify_queue : Feedback fl → Driver S → Driver S
  notify_queue m d = record d { throttle_queue = q.receive_tracker_feedback m d.throttle_queue }
