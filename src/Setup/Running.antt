-- ===== src/Setup/Running.antt =====
-- The simulation that main starts, and what it reaches (cmd/goqueuesim/main.go with
-- internal/simulator/simulator.go).
use goqueuesim.Common.{
  ℕ, ◌+◌, ◌≤◌, ◌<◌, ◌^◌, ◌≡◌, refl, sym, ◌∙◌, ap, String, Bool, ◌||◌, List, [], ◌∷◌, arith, ℤ, pos,
  negsuc, ◌-ℤ◌, ltb_ℤ, sub_ℕ,
}
use goqueuesim.Common.Map.{int_key, string_key, ◌==◌}
use goqueuesim.Common.Panic.{
  Outcome, ok, panic, Post, Post-bind, Post-if, Post-then, Post-map, Post-ok, fatal,
}
use goqueuesim.Common.Float.{Float64}
use goqueuesim.Client.{Client}
use goqueuesim.Queue.{Queue, QueueLaws}
use goqueuesim.Simulator.{System, write_client, start_clients}
use goqueuesim.Simulator.Stock.{checked_out}
use goqueuesim.Simulator.Start.{start_clients-IsBalanced}
use goqueuesim.Simulator.Workers.{Simulation, Reach}
use goqueuesim.Simulator.Repository.{AreNamed, insert-AreNamed}
use goqueuesim.Simulator.Serving.{none_served}
use goqueuesim.Simulator.Interleaving.{IsSound, Reach-IsSound}
use goqueuesim.Setup.{
  validate_params, set_logging, Distribution, load_client_distribution_config,
  make_mock_checkout_clients, prepare_network_params, actual_num_clients, target_num_clients,
}
use goqueuesim.Setup.Numbering.{AreFresh}
use goqueuesim.Setup.Distributing.{total_of, make_mock_checkout_clients-AreNumbered}
use goqueuesim.Setup.Main.{
  make_simulator, make_client_repo, make_checkout_throttle_driver, make_rate_tracker,
  start_simulation, main, inventory_stock_total,
}

start_clients-AreNamed :
    {S : Type 0} (cs : List Client) (sys : System S)
    → AreNamed sys.client_repo
    → AreNamed (start_clients cs sys).client_repo
unfolding start_clients write_client
start_clients-AreNamed [] sys h = h
start_clients-AreNamed (c ∷ cs) sys h =
    start_clients-AreNamed cs _ (insert-AreNamed c.id c sys.client_repo refl h)

-- A distribution that is accepted is the one that was decoded.
loaded_same :
    (fl : Float64) (dist : Distribution fl)
    → Post (λ r. r.0 ≡ dist) (load_client_distribution_config fl (ok dist))
unfolding load_client_distribution_config
loaded_same fl dist =
    let n = actual_num_clients fl dist (pos 0) in
    Post-if (λ r. r.0 ≡ dist)
      (ltb_ℤ (pos target_num_clients) n || ltb_ℤ n (pos target_num_clients -ℤ pos 1))
      (panic (fatal "Client config representationPercent values must sum to 1.0")) (ok (dist, n)) tt
      refl

no_requests : (n : ℤ) → Post (λ net. net.requests ≡ []) (prepare_network_params n)
unfolding prepare_network_params
no_requests (pos n) = refl
no_requests (negsuc n) = tt

empty_repo : (kind : String) → Post (λ repo. repo ≡ []) (make_client_repo kind)
unfolding make_client_repo
empty_repo kind =
    Post-if (λ repo. repo ≡ []) (kind == "simple_client_repo") (ok [])
      (panic (fatal "clientRepo type must be one of: {simple_client_repo}")) refl tt

Post-result {ℓ} : {A : Type ℓ} (m : Outcome A) → Post (λ a. m ≡ ok a) m
Post-result (ok a) = refl
Post-result (panic p) = tt

start-IsSound :
    {fl : Float64} {S : Type 0} (cs : List Client) (sim : Simulation fl S)
    → AreFresh cs
    → sim.net.requests ≡ []
    → sim.in_hand ≡ []
    → sim.calls ≡ []
    → sim.system.client_repo ≡ []
    → sim.system.driver.inventory.count ≡ pos inventory_stock_total
    → IsSound inventory_stock_total (start_simulation cs sim)
unfolding start_simulation
start-IsSound cs sim fresh no_reqs no_hand no_calls empty stock = record {
  balanced = start_clients-IsBalanced inventory_stock_total cs sim.system fresh empty stock;
  named = start_clients-AreNamed cs sim.system (rw empty tt);
  sent = rw no_reqs tt;
  taken = rw no_hand tt;
  served = rw no_calls (none_served (start_simulation cs sim).system.client_repo);
}

-- Whatever the clients are, once they are made from the distribution none has reached checkout.
made_fresh :
    (fl : Float64) (dist accepted : Distribution fl) (randomize : Bool) (swaps : List (ℕ × ℕ))
    → total_of fl dist + 1 < 2 ^ 63
    → accepted ≡ dist
    → Post (λ m. AreFresh m.clients) (make_mock_checkout_clients fl accepted randomize swaps)
made_fresh fl dist accepted randomize swaps room same =
    Post-map _ (λ m. AreFresh m.clients) (make_mock_checkout_clients fl accepted randomize swaps)
      (Post-result (make_mock_checkout_clients fl accepted randomize swaps))
      (λ m made.
        (make_mock_checkout_clients-AreNumbered fl dist randomize swaps m room
          (ap (λ d. make_mock_checkout_clients fl d randomize swaps) (sym same) ∙ made)).2)

module _ {fl : Float64} {S : Type 0} (q : Queue fl S) (background : S → S → Type 0) where
  pub main-IsSound :
      (dist : Distribution fl) (swaps : List (ℕ × ℕ)) (s : S)
      → total_of fl dist + 1 < 2 ^ 63
      → Post (IsSound inventory_stock_total) (main q (ok dist) swaps s)
  unfolding main make_checkout_throttle_driver make_simulator
  main-IsSound dist swaps s room =
      let Sound : Simulation fl S → Type 0 = IsSound inventory_stock_total in
      Post-then Sound (validate_params _) _ (λ _. Post-then Sound (set_logging _) _ (λ _.
        Post-bind (λ r. r.0 ≡ dist) Sound (load_client_distribution_config fl (ok dist)) _
          (loaded_same fl dist)
          (λ loaded same.
            Post-bind (λ net. net.requests ≡ []) Sound (prepare_network_params loaded.1) _
              (no_requests loaded.1)
              (λ net no_reqs.
                Post-bind (λ m. AreFresh m.clients) Sound
                  (make_mock_checkout_clients fl loaded.0 _ swaps) _
                  (made_fresh fl dist loaded.0 _ swaps room same)
                  (λ made fresh.
                    Post-bind (λ repo. repo ≡ []) Sound (make_client_repo _) _ (empty_repo _)
                      (λ repo empty. Post-then Sound (make_rate_tracker _ _ _) _ (λ tracker.
                        start-IsSound made.clients _ fresh no_reqs refl refl empty refl)))))))

  -- Whatever order the goroutines run in after main has started the simulation, the stock is 9200 less
  -- the clients that reached checkout, and they are at most 9201, if together the shares of the
  -- distribution come to fewer than 2 ^ 63 - 1 clients.
  pub main-sold :
      (dist : Distribution fl) (swaps : List (ℕ × ℕ)) (s : S) (start later : Simulation fl S)
      → QueueLaws q
      → total_of fl dist + 1 < 2 ^ 63
      → main q (ok dist) swaps s ≡ ok start
      → Reach q background start later
      → (later.system.driver.inventory.count ≡ sub_ℕ 9200 (checked_out later.system.client_repo))
        × checked_out later.system.client_repo ≤ 9201
  main-sold dist swaps s start later laws room ran reached =
      let sound =
        Reach-IsSound q background laws inventory_stock_total (omega arith)
          (Post-ok (IsSound inventory_stock_total) (main-IsSound dist swaps s room) ran) reached in
      (sound.balanced.balance, omega (arith, sound.balanced.sold))
