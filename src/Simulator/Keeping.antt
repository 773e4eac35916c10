-- ===== src/Simulator/Keeping.antt =====
-- What the tracker of a simulation keeps, whatever order its goroutines run in
-- (internal/simulator/simulator.go with internal/throttle/tracker).
use goqueuesim.Common.{
  ◌≡◌, sym, subst, Bool, true, false, Option, none, some, if◌then◌else◌, ℤ, arith,
}
use goqueuesim.Common.Clock.{Time}
use goqueuesim.Common.Panic.{ok, panic, Post, Post-if, Post-ok, close_of_closed_channel}
use goqueuesim.Common.Float.{Float64}
use goqueuesim.Client.{Client, initial, queued, in_checkout, exited, mark_queued, mark_in_checkout}
use goqueuesim.Tracker.{FixedWindowTracker, should_proceed, emit_feedback}
use goqueuesim.Queue.{Queue}
use goqueuesim.Driver.{Instants, Driver, notify_queue}
use goqueuesim.Driver.Phases.{
  Phase, begun, asking, tracking, buying, removing, clearing, cancelling, finished, enqueue, buy,
  proceed,
}
use goqueuesim.Simulator.Workers.{
  Simulation, write_back, after_step, answered, after_tick, Step, takes, locks, proceeds, responds,
  receives, polls, quits, ticks, notifies, works, interrupts, winds_down, finishes, complete, Reach,
  here, next,
}

-- The calls and the ticks keep `J` of a tracker.
pub record IsTracked (fl : Float64) (J : FixedWindowTracker → Type 0) : Type 0 where
  pub on_call : (id : ℤ) (t : FixedWindowTracker) → J t → J (should_proceed id t).0
  pub on_tick :
      (threshold : fl.Carrier) (max count : ℤ) (t : FixedWindowTracker)
      → J t
      → J (emit_feedback fl threshold max t count).0

if_all {ℓ κ} :
    {A : Type ℓ} (P : A → Type κ) (b : Bool) (x y : A) → P x → P y → P (if b then x else y)
if_all P true x y h k = h
if_all P false x y h k = k

option_all {ℓ κ} :
    {E A : Type ℓ} (P : A → Type κ) (o : Option E) (x : A) (f : E → A)
    → P x
    → ((e : E) → P (f e))
    → P (elim o [ none ↦ x | some e ↦ f e ])
option_all P none x f h k = h
option_all P (some e) x f h k = k e

module _ {fl : Float64} {S : Type 0} (q : Queue fl S) (background : S → S → Type 0)
    (J : FixedWindowTracker → Type 0) (keeps : IsTracked fl J) where
  abbrev pub Tracks : Simulation fl S → Type 0
  Tracks sim = J sim.system.driver.rate_tracker

  enqueue_tracker :
      (t : Instants) (d : Driver S) (c : Client) → (enqueue q t d c).0.rate_tracker ≡ d.rate_tracker
  unfolding enqueue mark_queued
  enqueue_tracker t d c = ground arith

  buy_tracker :
      (now : Time) (d : Driver S) (c : Client) → (buy q now d c).0.rate_tracker ≡ d.rate_tracker
  unfolding buy mark_in_checkout
  buy_tracker now d c = ground arith

  proceed-Tracks :
      (t : Instants) (p : Phase) (d : Driver S) (c : Client)
      → J d.rate_tracker
      → J (proceed q t p d c).0.rate_tracker
  unfolding proceed
  proceed-Tracks t begun d c h =
      elim c.state
        as (λ s.
          J
            (elim s as (λ x. Driver S × Client × Phase) [
              | initial ↦ enqueue q t d c
              | queued ↦ (d, c, asking)
              | in_checkout ↦ (d, c, finished)
              | exited ↦ (d, c, finished)
            ]).0.rate_tracker) [
              | initial ↦ subst J (sym (enqueue_tracker t d c)) h
              | queued ↦ h
              | in_checkout ↦ h
              | exited ↦ h
            ]
  proceed-Tracks t asking d c h = h
  proceed-Tracks t tracking d c h = keeps.on_call c.id d.rate_tracker h
  proceed-Tracks t buying d c h = subst J (sym (buy_tracker t.passed_at d c)) h
  proceed-Tracks t (removing left) d c h = h
  proceed-Tracks t clearing d c h = h
  proceed-Tracks t cancelling d c h = h
  proceed-Tracks t finished d c h = h

  completed-Tracks : (sim : Simulation fl S) → Tracks sim → Post Tracks (complete sim)
  unfolding complete
  completed-Tracks sim h =
      Post-if Tracks sim.completed (panic close_of_closed_channel)
        (ok (record sim { completed = true })) tt h

  Step-Tracks : {sim sim' : Simulation fl S} → Step q background sim sim' → Tracks sim → Tracks sim'
  Step-Tracks (takes req after e free) h = h
  Step-Tracks (locks req before after c e there free) h = h
  Step-Tracks {sim} (proceeds t id c p runs there) h =
      unfold after_step in proceed-Tracks t p sim.system.driver c h
  Step-Tracks (responds id c runs there) h = unfold answered in h
  Step-Tracks (receives id c c' resp after net loop failure there free got ran) h =
      unfold write_back in h
  Step-Tracks (polls id c c' t net stage stage' there runs may ran) h = unfold write_back in h
  Step-Tracks (quits id count c there runs gone) h = h
  Step-Tracks {sim} (ticks waits may) h =
      let m = sim.monitors in
      unfold after_tick in
      keeps.on_tick m.low_util_max_threshold_pct m.max_skpd_low_polling_util_count m.low_count
        sim.system.driver.rate_tracker h
  Step-Tracks (notifies m got) h = unfold notify_queue in h
  Step-Tracks (works s ran) h = h
  Step-Tracks interrupts h = h
  Step-Tracks {sim} (winds_down sim' done e) h = Post-ok Tracks (completed-Tracks sim h) e
  Step-Tracks {sim} (finishes sim' done e) h = Post-ok Tracks (completed-Tracks sim h) e

  pub Reach-Tracks :
      {sim sim' : Simulation fl S} → Reach q background sim sim' → Tracks sim → Tracks sim'
  Reach-Tracks here h = h
  Reach-Tracks (next r st) h = Step-Tracks st (Reach-Tracks r h)
