-- ===== src/Simulator/InStock.antt =====
-- What the queue of a simulation keeps while there is stock, whatever order its goroutines run in
-- (internal/simulator/simulator.go with internal/throttle/throttle_driver.go and the queues). Until the
-- last item is sold nobody calls Clear, which takes no lock of the queue.
use goqueuesim.Common.{
  ℕ, ◌+◌, ◌<◌, ◌^◌, ◌≡◌, sym, subst, true, false, some, ℤ, pos, ◌≤ℤ◌, arith, Bool-cases, inl, inr,
}
use goqueuesim.Common.Map.{int_key, lookup}
use goqueuesim.Common.Clock.{Time}
use goqueuesim.Common.Panic.{ok, panic, Post, Post-if, Post-ok, close_of_closed_channel}
use goqueuesim.Common.Float.{Float64}
use goqueuesim.Client.{Client, initial, queued, in_checkout, exited, mark_queued, mark_in_checkout}
use goqueuesim.Tracker.{Feedback}
use goqueuesim.Queue.{Queue, QueueLaws}
use goqueuesim.Driver.{Instants, Driver, notify_queue}
use goqueuesim.Driver.Phases.{
  Phase, begun, asking, tracking, buying, removing, clearing, cancelling, finished, enqueue, buy,
  proceed,
}
use goqueuesim.Simulator.Interleaving.{IsSound, Step-IsSound}
use goqueuesim.Simulator.Workers.{
  in_call, Simulation, write_back, after_step, answered, after_tick, Step, takes, locks, proceeds,
  responds, receives, polls, quits, ticks, notifies, works, interrupts, winds_down, finishes,
  complete, Reach, here, next, steps,
}
use goqueuesim.Simulator.Depletion.{
  depletes, InStock, AreLate, option_all, proceed_stock, has_proceeded, Step-AreLate,
}

-- Every method of the queue but Clear keeps `I`, and so do its goroutines. `I` may depend on the
-- number of steps, as long as there is room for one more.
pub record IsKept {fl : Float64} {S : Type 0} (q : Queue fl S) (background : S → S → Type 0)
    (Room : ℕ → Type 0) (I : ℕ → S → Type 0) : Type 0 where
  pub on_add :
      (k : ℕ) (now : Time) (s : S) (c : Client) → Room k → I k s → I (k + 1) (q.add now s c).0
  pub on_remove : (k : ℕ) (s : S) (c : Client) → Room k → I k s → I (k + 1) (q.remove s c)
  pub on_candidate :
      (k : ℕ) (now : Time) (s : S) (c : Client)
      → Room k
      → I k s
      → I (k + 1) (q.is_candidate_to_proceed now s c).0
  pub on_feedback :
      (k : ℕ) (m : Feedback fl) (s : S)
      → Room k
      → I k s
      → I (k + 1) (q.receive_tracker_feedback m s)
  pub on_background : (k : ℕ) (s s' : S) → background s s' → Room k → I k s → I (k + 1) s'
  pub on_rest : (k : ℕ) (s : S) → Room k → I k s → I (k + 1) s

no_stock : {S : Type 0} (d : Driver S) → InStock d → d.inventory.count ≤ℤ pos 0 → ⊥
no_stock d h e = omega (arith, h, e)

module _ {fl : Float64} {S : Type 0} (q : Queue fl S) (background : S → S → Type 0)
    (laws : QueueLaws q) (total : ℕ) (small : total < 2 ^ 31) (Room : ℕ → Type 0)
    (I : ℕ → S → Type 0) (kept : IsKept q background Room I) where
  enqueue_keeps :
      (k : ℕ) (t : Instants) (d : Driver S) (c : Client)
      → Room k
      → I k d.throttle_queue
      → I (k + 1) (enqueue q t d c).0.throttle_queue
  unfolding enqueue
  enqueue_keeps k t d c room i =
      let (c', failure) = mark_queued t.queued_at c in
      option_all (λ (r : Driver S × Client × Phase). I (k + 1) r.0.throttle_queue) failure _
        (λ e. (d, c', finished)) (kept.on_add k t.added_at d.throttle_queue c' room i)
        (λ e. kept.on_rest k d.throttle_queue room i)

  buy_queue :
      (now : Time) (d : Driver S) (c : Client) → (buy q now d c).0.throttle_queue ≡ d.throttle_queue
  unfolding buy mark_in_checkout
  buy_queue now d c = ground arith

  -- A step of a call that does not clear the queue.
  proceed_keeps :
      (k : ℕ) (t : Instants) (p : Phase) (d : Driver S) (c : Client)
      → depletes p ≡ false
      → Room k
      → I k d.throttle_queue
      → I (k + 1) (proceed q t p d c).0.throttle_queue
  unfolding proceed
  proceed_keeps k t begun d c w room i =
      let still = kept.on_rest k d.throttle_queue room i in
      elim c.state
        as (λ s.
          I (k + 1)
            (elim s as (λ x. Driver S × Client × Phase) [
              | initial ↦ enqueue q t d c
              | queued ↦ (d, c, asking)
              | in_checkout ↦ (d, c, finished)
              | exited ↦ (d, c, finished)
            ]).0.throttle_queue) [
              | initial ↦ enqueue_keeps k t d c room i
              | queued ↦ still
              | in_checkout ↦ still
              | exited ↦ still
            ]
  proceed_keeps k t asking d c w room i = kept.on_candidate k t.asked_at d.throttle_queue c room i
  proceed_keeps k t tracking d c w room i = kept.on_rest k d.throttle_queue room i
  proceed_keeps k t buying d c w room i =
      subst (I (k + 1)) (sym (buy_queue t.passed_at d c)) (kept.on_rest k d.throttle_queue room i)
  proceed_keeps k t (removing left) d c w room i = kept.on_remove k d.throttle_queue c room i
  proceed_keeps k t clearing d c w room i = cc
  proceed_keeps k t cancelling d c w room i = kept.on_rest k d.throttle_queue room i
  proceed_keeps k t finished d c w room i = kept.on_rest k d.throttle_queue room i

  -- While there is stock the queue is as it should be.
  abbrev pub Keeps : ℕ → Simulation fl S → Type 0
  Keeps k sim = InStock sim.system.driver → I k sim.system.driver.throttle_queue

  completed-Keeps : (k : ℕ) (sim : Simulation fl S) → Keeps k sim → Post (Keeps k) (complete sim)
  unfolding complete
  completed-Keeps k sim h =
      Post-if (Keeps k) sim.completed (panic close_of_closed_channel)
        (ok (record sim { completed = true })) tt h

  still-Keeps : (k : ℕ) (sim : Simulation fl S) → Room k → Keeps k sim → Keeps (k + 1) sim
  still-Keeps k sim room h = λ there. kept.on_rest k sim.system.driver.throttle_queue room (h there)

  proceed-Keeps :
      (k : ℕ) (t : Instants) (id : ℤ) (c : Client) (p : Phase) (sim : Simulation fl S)
      → lookup id sim.calls ≡ some (in_call p)
      → lookup id sim.system.client_repo ≡ some c
      → IsSound total sim
      → AreLate sim
      → Room k
      → Keeps k sim
      → Keeps (k + 1) (after_step id (proceed q t p sim.system.driver c) sim)
  unfolding after_step
  proceed-Keeps k t id c p sim runs there sound late room h after =
      let d = sim.system.driver in
      let le =
        proceed_stock q background laws total small d c (proceed q t p d c)
          (has_proceeded q background laws total small t id c p sim runs there sound) in
      let before : InStock d = omega (arith, le, after) in
      elim (Bool-cases (depletes p)) [
        | inl gone ↦ let out = late id (in_call p) runs gone in absurd (no_stock d before out)
        | inr there ↦ proceed_keeps k t p d c there room (h before)
      ]

  Step-Keeps :
      {sim sim' : Simulation fl S} (k : ℕ)
      → Step q background sim sim'
      → IsSound total sim
      → AreLate sim
      → Room k
      → Keeps k sim
      → Keeps (k + 1) sim'
  Step-Keeps {sim} k (takes req after e free) sound late room h = still-Keeps k sim room h
  Step-Keeps {sim} k (locks req before after c e there free) sound late room h =
      still-Keeps k sim room h
  Step-Keeps {sim} k (proceeds t id c p runs there) sound late room h =
      proceed-Keeps k t id c p sim runs there sound late room h
  Step-Keeps {sim} k (responds id c runs there) sound late room h =
      unfold answered in still-Keeps k sim room h
  Step-Keeps {sim} k (receives id c c' resp after net loop failure there free got ran) sound late
        room h =
      unfold write_back in still-Keeps k sim room h
  Step-Keeps {sim} k (polls id c c' t net stage stage' there runs may ran) sound late room h =
      unfold write_back in still-Keeps k sim room h
  Step-Keeps {sim} k (quits id count c there runs gone) sound late room h = still-Keeps k sim room h
  Step-Keeps {sim} k (ticks waits may) sound late room h =
      unfold after_tick in still-Keeps k sim room h
  Step-Keeps {sim} k (notifies m got) sound late room h =
      unfold notify_queue in
      λ there. kept.on_feedback k m sim.system.driver.throttle_queue room (h there)
  Step-Keeps {sim} k (works s ran) sound late room h =
      λ there. kept.on_background k sim.system.driver.throttle_queue s ran room (h there)
  Step-Keeps {sim} k interrupts sound late room h = still-Keeps k sim room h
  Step-Keeps {sim} k (winds_down sim' done e) sound late room h =
      Post-ok (Keeps (k + 1)) (completed-Keeps (k + 1) sim (still-Keeps k sim room h)) e
  Step-Keeps {sim} k (finishes sim' done e) sound late room h =
      Post-ok (Keeps (k + 1)) (completed-Keeps (k + 1) sim (still-Keeps k sim room h)) e

  -- In every reachable state the simulation is sound and clears late, and keeps the queue.
  pub Reach-Keeps :
      {sim sim' : Simulation fl S} (k : ℕ)
      → IsSound total sim
      → AreLate sim
      → Keeps k sim
      → (r : Reach q background sim sim') → ((j : ℕ) → j < k + steps q background r → Room j)
      → IsSound total sim' × AreLate sim' × Keeps (k + steps q background r) sim'
  unfolding steps
  Reach-Keeps {sim} k sound late h here room =
      (sound, late, subst (λ n. Keeps n sim) (omega arith) h)
  Reach-Keeps {sim} {sim'} k sound late h (next r st) room =
      let n = k + steps q background r in
      let (sound', late', h') = Reach-Keeps k sound late h r (λ j e. room j (omega (arith, e))) in
      (
        Step-IsSound q background laws total small st sound',
        Step-AreLate q background laws total small st sound' late',
        subst (λ m. Keeps m sim') (omega arith)
            (Step-Keeps n st sound' late' (room n (omega arith)) h'),
      )
