-- ===== src/Simulator/Depletion.antt =====
-- When a queue is cleared (internal/throttle/throttle_driver.go within internal/simulator/simulator.go):
-- a call may be about to clear it only where no stock is left, whatever order the goroutines run in.
use goqueuesim.Common.{
  ℕ, ◌<◌, ◌^◌, ◌≡◌, refl, sym, ◌∙◌, subst, Bool, true, false, Option, none, some, ℤ, pos, ◌≤ℤ◌,
  ◌+ℤ◌, leb_ℤ, arith, inl, inr,
}
use goqueuesim.Common.Map.{int_key, lookup, insert}
use goqueuesim.Common.Clock.{Time}
use goqueuesim.Common.Panic.{ok, panic, Post, Post-if, Post-ok, close_of_closed_channel}
use goqueuesim.Common.Float.{Float64}
use goqueuesim.Client.{Client, initial, queued, in_checkout, exited, mark_queued, mark_in_checkout}
use goqueuesim.Counter.{atomic_add, atomic_read}
use goqueuesim.Counter
use goqueuesim.Queue.{Queue, QueueLaws}
use goqueuesim.Driver.{Instants, Driver, notify_queue}
use goqueuesim.Driver.Phases.{
  Phase, begun, asking, tracking, buying, removing, clearing, cancelling, finished, enqueue, buy,
  proceed,
}
use goqueuesim.Driver.Selling.{HasProceeded, proceed-HasProceeded}
use goqueuesim.Simulator.Stock.{checked_out, stock_small}
use goqueuesim.Simulator.Serving.{lock_held, found, some_inj}
use goqueuesim.Simulator.Interleaving.{IsSound}
use goqueuesim.Simulator.Workers.{
  Call, no_call, in_call, Simulation, write_back, after_step, answered, after_tick, Step, takes,
  locks, proceeds, responds, receives, polls, quits, ticks, notifies, works, interrupts, winds_down,
  finishes, complete,
}

-- A call that has sold the last item, or one past it, and has still to clear the queue.
abbrev pub depletes : Phase → Bool
depletes (removing left) = leb_ℤ left (pos 0)
depletes clearing = true
depletes _ = false

abbrev pub InStock : {S : Type 0} → Driver S → Type 0
InStock d = pos 1 ≤ℤ d.inventory.count

-- Only where no stock is left may a call be about to clear the queue.
abbrev pub LateCall : ℤ → Call → Type 0
LateCall stock no_call = Unit
LateCall stock (in_call p) = depletes p ≡ true → stock ≤ℤ pos 0

abbrev pub AreLate : {fl : Float64} {S : Type 0} → Simulation fl S → Type 0
AreLate sim =
    (id : ℤ) (call : Call)
    → lookup id sim.calls ≡ some call
    → LateCall sim.system.driver.inventory.count call

LateCall-le : (a b : ℤ) (call : Call) → b ≤ℤ a → LateCall a call → LateCall b call
LateCall-le a b no_call le h = tt
LateCall-le a b (in_call p) le h = λ e. omega (arith, h e, le)

pub option_all {ℓ κ} :
    {E A : Type ℓ} (P : A → Type κ) (o : Option E) (x : A) (f : E → A)
    → P x
    → ((e : E) → P (f e))
    → P (elim o [ none ↦ x | some e ↦ f e ])
option_all P none x f h k = h
option_all P (some e) x f h k = k e

module _ {fl : Float64} {S : Type 0} (q : Queue fl S) where
  -- The stock after a step is what was left when its call sold the last item.
  abbrev Sets : Driver S × Client × Phase → Type 0
  Sets r = depletes r.2 ≡ true → r.0.inventory.count ≤ℤ pos 0

  enqueue-Sets : (t : Instants) (d : Driver S) (c : Client) → Sets (enqueue q t d c)
  unfolding enqueue
  enqueue-Sets t d c =
      let (c', failure) = mark_queued t.queued_at c in
      option_all Sets failure _ (λ e. (d, c', finished)) (λ h. cc) (λ e h. cc)

  buy-Sets : (now : Time) (d : Driver S) (c : Client) → Sets (buy q now d c)
  unfolding buy mark_in_checkout atomic_read atomic_add Counter.lock Counter.unlock
  buy-Sets now d c h = ground (arith, h)

  proceed-Sets :
      (t : Instants) (p : Phase) (d : Driver S) (c : Client)
      → (depletes p ≡ true → d.inventory.count ≤ℤ pos 0)
      → Sets (proceed q t p d c)
  unfolding proceed
  proceed-Sets t begun d c h =
      elim c.state
        as (λ s. Sets (elim s as (λ x. Driver S × Client × Phase) [
          | initial ↦ enqueue q t d c
          | queued ↦ (d, c, asking)
          | in_checkout ↦ (d, c, finished)
          | exited ↦ (d, c, finished)
        ])) [
          | initial ↦ enqueue-Sets t d c
          | queued ↦ λ e. cc
          | in_checkout ↦ λ e. cc
          | exited ↦ λ e. cc
        ]
  proceed-Sets t asking d c h = λ e. ground (arith, e)
  proceed-Sets t tracking d c h = λ e. ground (arith, e)
  proceed-Sets t buying d c h = buy-Sets t.passed_at d c
  proceed-Sets t (removing left) d c h = λ e. ground (arith, e, h)
  proceed-Sets t clearing d c h = λ e. cc
  proceed-Sets t cancelling d c h = λ e. cc
  proceed-Sets t finished d c h = λ e. cc

module _ {fl : Float64} {S : Type 0} (q : Queue fl S) (background : S → S → Type 0)
    (laws : QueueLaws q) (total : ℕ) (small : total < 2 ^ 31) where
  -- The stock does not grow.
  pub proceed_stock :
      (d : Driver S) (c : Client) (r : Driver S × Client × Phase)
      → HasProceeded d c r
      → r.0.inventory.count ≤ℤ d.inventory.count
  unfolding ◌+ℤ◌
  proceed_stock d c r h = elim h.stock [
    | inl sold ↦ ground (arith, sold)
    | inr kept ↦ ground (arith, kept)
  ]

  pub has_proceeded :
      (t : Instants) (id : ℤ) (c : Client) (p : Phase) (sim : Simulation fl S)
      → lookup id sim.calls ≡ some (in_call p)
      → lookup id sim.system.client_repo ≡ some c
      → IsSound total sim
      → HasProceeded sim.system.driver c (proceed q t p sim.system.driver c)
  has_proceeded t id c p sim runs there h =
      let (locked, waits) =
        lock_held id c p sim.system.client_repo there (h.served id (in_call p) runs) in
      proceed-HasProceeded q laws t p sim.system.driver c waits (
        stock_small total (checked_out sim.system.client_repo) sim.system.driver.inventory.count
          small h.balanced.sold h.balanced.balance)

  le_refl : (a : ℤ) → a ≤ℤ a
  le_refl a = omega arith

  -- The call of one client changes, and the stock does not grow.
  changed-AreLate :
      (id : ℤ) (call : Call) (sim sim' : Simulation fl S)
      → sim'.calls ≡ insert id call sim.calls
      → sim'.system.driver.inventory.count ≤ℤ sim.system.driver.inventory.count
      → LateCall sim'.system.driver.inventory.count call
      → AreLate sim
      → AreLate sim'
  changed-AreLate id call sim sim' calls le own h j asked e =
      let there = subst (λ m. lookup j m ≡ some asked) calls e in
      elim (found id j call sim.calls) [
        | inl (same, new) ↦
            subst (LateCall sim'.system.driver.inventory.count) (some_inj (sym new ∙ there)) own
        | inr (other, kept) ↦
            LateCall-le sim.system.driver.inventory.count sim'.system.driver.inventory.count asked
              le (h j asked (sym kept ∙ there))
      ]

  same-AreLate :
      (sim sim' : Simulation fl S)
      → sim'.calls ≡ sim.calls
      → sim'.system.driver.inventory.count ≡ sim.system.driver.inventory.count
      → AreLate sim
      → AreLate sim'
  same-AreLate sim sim' calls stock h j asked e =
      subst (λ n. LateCall n asked) (sym stock)
        (h j asked (subst (λ m. lookup j m ≡ some asked) calls e))

  completed-AreLate : (sim : Simulation fl S) → AreLate sim → Post AreLate (complete sim)
  unfolding complete
  completed-AreLate sim h =
      Post-if AreLate sim.completed (panic close_of_closed_channel)
        (ok (record sim { completed = true })) tt h

  stepped-AreLate :
      (t : Instants) (id : ℤ) (c : Client) (p : Phase) (sim : Simulation fl S)
      → lookup id sim.calls ≡ some (in_call p)
      → lookup id sim.system.client_repo ≡ some c
      → IsSound total sim
      → AreLate sim
      → AreLate (after_step id (proceed q t p sim.system.driver c) sim)
  stepped-AreLate t id c p sim runs there sound h =
      let d = sim.system.driver in
      let r = proceed q t p d c in
      changed-AreLate id (in_call r.2) sim (after_step id r sim) (unfold after_step in refl)
        (unfold after_step in proceed_stock d c r (has_proceeded t id c p sim runs there sound))
        (unfold after_step in proceed-Sets q t p d c (h id (in_call p) runs)) h

  pub Step-AreLate :
      {sim sim' : Simulation fl S}
      → Step q background sim sim'
      → IsSound total sim
      → AreLate sim
      → AreLate sim'
  Step-AreLate {sim} {sim'} (takes req after e free) sound h = same-AreLate sim sim' refl refl h
  Step-AreLate {sim} {sim'} (locks req before after c e there free) sound h =
      changed-AreLate req.client_data.id (in_call begun) sim sim' refl
        (le_refl sim.system.driver.inventory.count) (λ w. cc) h
  Step-AreLate {sim} (proceeds t id c p runs there) sound h =
      stepped-AreLate t id c p sim runs there sound h
  Step-AreLate {sim} (responds id c runs there) sound h =
      changed-AreLate id no_call sim (answered id c sim) (unfold answered in refl)
        (unfold answered in le_refl sim.system.driver.inventory.count) tt h
  Step-AreLate {sim} {sim'} (receives id c c' resp after net loop failure there free got ran) sound
        h =
      same-AreLate sim sim' (unfold write_back in refl) (unfold write_back in refl) h
  Step-AreLate {sim} {sim'} (polls id c c' t net stage stage' there runs may ran) sound h =
      same-AreLate sim sim' (unfold write_back in refl) (unfold write_back in refl) h
  Step-AreLate {sim} {sim'} (quits id count c there runs gone) sound h =
      same-AreLate sim sim' refl refl h
  Step-AreLate {sim} {sim'} (ticks waits may) sound h =
      same-AreLate sim sim' (unfold after_tick in refl) (unfold after_tick in refl) h
  Step-AreLate {sim} {sim'} (notifies m got) sound h =
      same-AreLate sim sim' (unfold notify_queue in refl) (unfold notify_queue in refl) h
  Step-AreLate {sim} {sim'} (works s ran) sound h = same-AreLate sim sim' refl refl h
  Step-AreLate {sim} {sim'} interrupts sound h = same-AreLate sim sim' refl refl h
  Step-AreLate {sim} (winds_down sim' done e) sound h = Post-ok AreLate (completed-AreLate sim h) e
  Step-AreLate {sim} (finishes sim' done e) sound h = Post-ok AreLate (completed-AreLate sim h) e
