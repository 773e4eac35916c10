-- ===== src/Simulator/Interleaving.antt =====
-- What every interleaving of the simulation's goroutines keeps (internal/simulator/simulator.go with
-- internal/client/impl and internal/throttle/throttle_driver.go).
use goqueuesim.Common.{
  true, ℕ, ◌<◌, ◌^◌, ◌≡◌, refl, ◌∙◌, subst, ◌⊎◌, inl, inr, some, List, ◌∷◌, ◌++◌, All, ℤ, false,
}
use goqueuesim.Common.Map.{int_key, lookup, insert, lookup-insert_self}
use goqueuesim.Common.Panic.{ok, panic, Post, Post-if, Post-ok, close_of_closed_channel}
use goqueuesim.Common.Float.{Float64}
use goqueuesim.Client.{Client, Error}
use goqueuesim.Client
use goqueuesim.Network.{MockRequest}
use goqueuesim.Queue.{Queue, QueueLaws}
use goqueuesim.Driver.{Instants, notify_queue}
use goqueuesim.Driver.Phases.{Phase, begun, proceed}
use goqueuesim.Driver.Selling.{proceed-HasProceeded}
use goqueuesim.Polling.{Net}
use goqueuesim.Polling.Stages.{Stage, needs_lock, advance}
use goqueuesim.Polling.Rounds.{Tick}
use goqueuesim.Polling.Sending.{SameClient-refl, Kept, Sends, All-append}
use goqueuesim.Polling.Acting.{lock-Kept, unlock-Kept, lock_same, unlock_same}
use goqueuesim.Polling.Turns.{
  Advances, advance-Kept, Untouched, advance-Untouched, handle_response-Kept, Handled,
}
use goqueuesim.Simulator.Stock.{IsBalanced, checked_out, stock_small}
use goqueuesim.Simulator.Repository.{
  Knows, AreNamed, lookup-named, insert-AreNamed, All-split, Knows-insert, Sends-Knows, written,
  written-IsBalanced,
}
use goqueuesim.Simulator.Serving.{
  AreServed, lock_held, unlocked-AreServed, same-AreServed, own-AreServed, after_step-IsBalanced,
}
use goqueuesim.Simulator.Workers.{
  Simulation, no_call, in_call, write_back, after_step, answered, after_tick, Step, takes, locks,
  proceeds, responds, receives, polls, quits, ticks, notifies, works, interrupts, winds_down,
  finishes, complete, Reach, here, next,
}

-- The stock is balanced, every client stands under its id, every request that waits, in the channel
-- or in the hands of a worker, comes from a client of the repository, and every call of a server worker
-- runs under its client's lock.
pub record IsSound {fl : Float64} {S : Type 0} (total : ℕ) (sim : Simulation fl S) : Type 0 where
  pub balanced : IsBalanced total sim.system
  pub named : AreNamed sim.system.client_repo
  pub sent : All (Knows sim.system.client_repo) sim.net.requests
  pub taken : All (Knows sim.system.client_repo) sim.in_hand
  pub served : AreServed sim.system.client_repo sim.calls

module _ {fl : Float64} {S : Type 0} (total : ℕ) where
  -- A client's own step writes the client back and sends requests in its name.
  written-IsSound :
      (id : ℤ) (c c' : Client) (net : Net) (sim : Simulation fl S)
      → lookup id sim.system.client_repo ≡ some c
      → Kept c sim.net c' net
      → AreServed (insert id c' sim.system.client_repo) sim.calls
      → IsSound total sim
      → IsSound total (write_back id c' net sim)
  unfolding write_back
  written-IsSound id c c' net sim there kept still h =
      let name = lookup-named id c sim.system.client_repo there h.named in
      let repo = sim.system.client_repo in
      record {
        balanced =
            unfold written in
            written-IsBalanced total id c c' sim.system there kept.client h.balanced;
        named = insert-AreNamed id c' repo (kept.client.same_id ∙ name) h.named;
        sent = Knows-insert id c' repo net.requests (
            Sends-Knows id c repo sim.net net there
              (subst (λ i. Sends i sim.net net) name kept.sends) h.sent);
        taken = Knows-insert id c' repo sim.in_hand h.taken;
        served = still;
      }

  -- What does not enter the statement.
  same_parts :
      (sim sim' : Simulation fl S)
      → sim'.system.client_repo ≡ sim.system.client_repo
      → sim'.system.driver.inventory ≡ sim.system.driver.inventory
      → sim'.net.requests ≡ sim.net.requests
      → sim'.in_hand ≡ sim.in_hand
      → sim'.calls ≡ sim.calls
      → IsSound total sim
      → IsSound total sim'
  same_parts sim sim' repo stock reqs hand calls h = record {
    balanced = record {
      balance = rw (repo, stock) h.balanced.balance;
      sold = rw repo h.balanced.sold;
      honest = rw repo h.balanced.honest;
    };
    named = rw repo h.named;
    sent = rw (repo, reqs) h.sent;
    taken = rw (repo, hand) h.taken;
    served = rw (repo, calls) h.served;
  }

  completed-IsSound :
      (sim : Simulation fl S) → IsSound total sim → Post (IsSound total) (complete sim)
  unfolding complete
  completed-IsSound sim h =
      Post-if (IsSound total) sim.completed (panic close_of_closed_channel)
        (ok (record sim { completed = true })) tt (same_parts sim _ refl refl refl refl refl h)

  -- A polling goroutine's step, under the lock or without it.
  polled-AreServed :
      (id : ℤ) (c c' : Client) (t : Tick) (net : Net) (stage stage' : Stage) (sim : Simulation fl S)
      → lookup id sim.system.client_repo ≡ some c
      → (c.is_locked ≡ false) ⊎ (needs_lock c.kind t stage ≡ false)
      → advance fl c.kind t stage c sim.net ≡ ok (c', net, stage')
      → IsSound total sim
      → AreServed (insert id c' sim.system.client_repo) sim.calls
  polled-AreServed id c c' t net stage stage' sim there (inl free) ran h =
      unlocked-AreServed id c c' sim.system.client_repo sim.calls there free h.served
  polled-AreServed id c c' t net stage stage' sim there (inr no_lock) ran h =
      let (lock, state) =
        Post-ok (Untouched c) (advance-Untouched fl c.kind t stage c sim.net no_lock) ran in
      same-AreServed id c c' sim.system.client_repo sim.calls there lock state h.served

-- A list in which one entry is taken out.
All-without {ℓ κ} :
    {A : Type ℓ} (P : A → Type κ) (xs ys : List A) (x : A)
    → All P (xs ++ x ∷ ys)
    → P x × All P (xs ++ ys)
All-without P xs ys x h = let (a, b) = All-split P xs (x ∷ ys) h in (b.0, All-append P xs ys a b.1)

module _ {fl : Float64} {S : Type 0} (q : Queue fl S) (background : S → S → Type 0)
    (laws : QueueLaws q) where
  -- A worker takes the lock of a client that no other holds.
  locked-IsSound :
      (total : ℕ) (req : MockRequest) (before after : List MockRequest) (c : Client)
      (sim : Simulation fl S)
      → sim.in_hand ≡ before ++ req ∷ after
      → lookup req.client_data.id sim.system.client_repo ≡ some c
      → c.is_locked ≡ false
      → IsSound total sim
      → IsSound total (record sim {
        system = record sim.system {
          client_repo = insert req.client_data.id (Client.lock c) sim.system.client_repo;
        };
        in_hand = before ++ after;
        calls = insert req.client_data.id (in_call begun) sim.calls;
      })
  locked-IsSound total req before after c sim e there free h =
      let id = req.client_data.id in
      let repo = sim.system.client_repo in
      let rest = All-without (Knows repo) before after req (subst (All (Knows repo)) e h.taken) in
      record {
        balanced =
            unfold written in
            written-IsBalanced total id c (Client.lock c) sim.system there (lock_same c) h.balanced;
        named =
            insert-AreNamed id (Client.lock c) repo
              (unfold Client.lock in lookup-named id c repo there h.named) h.named;
        sent = Knows-insert id (Client.lock c) repo sim.net.requests h.sent;
        taken = Knows-insert id (Client.lock c) repo (before ++ after) rest.1;
        served =
            own-AreServed id (Client.lock c) (in_call begun) repo sim.calls
              (
                Client.lock c,
                lookup-insert_self id (Client.lock c) repo,
                unfold Client.lock in refl,
                λ w. cc,
              )
              h.served;
      }

  -- A worker runs the next step of its call.
  stepped-IsSound :
      (total : ℕ) (t : Instants) (id : ℤ) (c : Client) (p : Phase) (sim : Simulation fl S)
      → total < 2 ^ 31
      → lookup id sim.calls ≡ some (in_call p)
      → lookup id sim.system.client_repo ≡ some c
      → IsSound total sim
      → IsSound total (after_step id (proceed q t p sim.system.driver c) sim)
  unfolding after_step
  stepped-IsSound total t id c p sim small runs there h =
      let repo = sim.system.client_repo in
      let d = sim.system.driver in
      let (locked, waits) = lock_held id c p repo there (h.served id (in_call p) runs) in
      let r = proceed q t p d c in
      let moved = proceed-HasProceeded q laws t p d c waits (
        stock_small total (checked_out repo) d.inventory.count small h.balanced.sold
          h.balanced.balance) in
      record {
        balanced = after_step-IsBalanced total id sim.system c r there h.balanced moved;
        named =
            insert-AreNamed id r.1 repo (moved.same_id ∙ lookup-named id c repo there h.named)
              h.named;
        sent = Knows-insert id r.1 repo sim.net.requests h.sent;
        taken = Knows-insert id r.1 repo sim.in_hand h.taken;
        served =
            own-AreServed id r.1 (in_call r.2) repo sim.calls
              (r.1, lookup-insert_self id r.1 repo, moved.same_lock ∙ locked, moved.still_waits)
              h.served;
      }

  -- A worker sends the response and unlocks the client.
  answered-IsSound :
      (total : ℕ) (id : ℤ) (c : Client) (sim : Simulation fl S)
      → lookup id sim.system.client_repo ≡ some c
      → IsSound total sim
      → IsSound total (answered id c sim)
  unfolding answered
  answered-IsSound total id c sim there h =
      let repo = sim.system.client_repo in
      let balanced : IsBalanced total
          (record sim.system { client_repo = insert id (Client.unlock c) repo }) =
        unfold written in
        written-IsBalanced total id c (Client.unlock c) sim.system there
          (unlock_same c c (SameClient-refl c)) h.balanced in
      record {
        balanced = record {
          balance = balanced.balance;
          sold = balanced.sold;
          honest = balanced.honest;
        };
        named =
            insert-AreNamed id (Client.unlock c) repo
              (unfold Client.unlock in lookup-named id c repo there h.named) h.named;
        sent = Knows-insert id (Client.unlock c) repo sim.net.requests h.sent;
        taken = Knows-insert id (Client.unlock c) repo sim.in_hand h.taken;
        served = own-AreServed id (Client.unlock c) no_call repo sim.calls tt h.served;
      }

  pub Step-IsSound :
      {sim sim' : Simulation fl S} (total : ℕ)
      → total < 2 ^ 31
      → Step q background sim sim'
      → IsSound total sim
      → IsSound total sim'
  Step-IsSound {sim} total small (takes req rest e room) h =
      let all = subst (All (Knows sim.system.client_repo)) e h.sent in
      record {
        balanced = h.balanced;
        named = h.named;
        sent = all.1;
        taken = (all.0, h.taken);
        served = h.served;
      }
  Step-IsSound {sim} total small (locks req before after c e there free) h =
      locked-IsSound total req before after c sim e there free h
  Step-IsSound {sim} total small (proceeds t id c p runs there) h =
      stepped-IsSound total t id c p sim small runs there h
  Step-IsSound {sim} total small (responds id c runs there) h =
      answered-IsSound total id c sim there h
  Step-IsSound {sim} total small (receives id c c' resp rest net loop failure there free got ran)
        h =
      let kept = lock-Kept c c' sim.net net (
        Post-ok (Handled (Client.lock c) sim.net)
          (handle_response-Kept resp (Client.lock c) sim.net) ran) in
      same_parts total _ _ refl refl refl refl refl (
        written-IsSound total id c (Client.unlock c') net _ there
          (unlock-Kept c c' sim.net net kept)
          (unlocked-AreServed id c (Client.unlock c') sim.system.client_repo sim.calls there free
            h.served)
          (same_parts total sim _ refl refl refl refl refl h))
  Step-IsSound {sim} total small (polls id c c' t net stage stage' there runs may ran) h =
      same_parts total _ _ refl refl refl refl refl (
        written-IsSound total id c c' net sim there
          (Post-ok (Advances c sim.net) (advance-Kept fl c.kind t stage c sim.net) ran)
          (polled-AreServed total id c c' t net stage stage' sim there may ran h) h)
  Step-IsSound {sim} total small (quits id count c there runs gone) h =
      same_parts total sim _ refl refl refl refl refl h
  Step-IsSound {sim} total small (ticks waits may) h =
      unfold after_tick in same_parts total sim _ refl refl refl refl refl h
  Step-IsSound {sim} total small (notifies m got) h =
      unfold notify_queue in same_parts total sim _ refl refl refl refl refl h
  Step-IsSound {sim} total small (works s ran) h = same_parts total sim _ refl refl refl refl refl h
  Step-IsSound {sim} total small interrupts h = same_parts total sim _ refl refl refl refl refl h
  Step-IsSound {sim} total small (winds_down sim' done e) h =
      Post-ok (IsSound total) (completed-IsSound total sim h) e
  Step-IsSound {sim} total small (finishes sim' done e) h =
      Post-ok (IsSound total) (completed-IsSound total sim h) e

  -- In every state that the goroutines of a simulation reach, in whatever order their sections under
  -- the locks run, the stock is balanced, every client stands under its id, every request under way is
  -- by a known client, and every call of a server worker runs under its client's lock, if all this
  -- holds at the start and the stock held fewer than 2 ^ 31 items.
  pub Reach-IsSound :
      {sim sim' : Simulation fl S} (total : ℕ)
      → total < 2 ^ 31
      → IsSound total sim
      → Reach q background sim sim'
      → IsSound total sim'
  Reach-IsSound total small h here = h
  Reach-IsSound total small h (next r st) =
      Step-IsSound total small st (Reach-IsSound total small h r)
