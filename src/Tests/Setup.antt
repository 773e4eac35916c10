-- ===== src/Tests/Setup.antt =====
-- Distributions of clients, and the simulations that main starts from them.
use goqueuesim.Common.{
  inl, subst, sym, ◌≤ℤ◌, ◌≤◌, ◌≡◌, refl, true, false, [], ◌∷◌, arith, pos, ◌+ℤ◌, ◌-ℤ◌, ◌*ℤ◌, length,
  sub_ℕ,
}
use goqueuesim.Common.Map.{string_key, int_key, insert}
use goqueuesim.Common.Word.{i64}
use goqueuesim.Common.Panic.{ok}
use goqueuesim.Common.Float.{fractions}
use goqueuesim.ClientFactory.{ClientConfig, make_base_client, make_client_from_config}
use goqueuesim.Queue.Noop.{NoopQueue, noop_queue, noop_queue-QueueLaws, make_noop_queue}
use goqueuesim.Tracker.{window}
use goqueuesim.Queue.Capped.{CappedBinsQueue, capped_queue, make_capped_bins_queue, bin}
use goqueuesim.Queue.Interval.{
  IntervalBinsQueue, interval_queue, interval_queue-QueueLaws, make_interval_bins_queue,
  update_latest_bin,
}
use goqueuesim.Queue.Capped.Kept.{writes}
use goqueuesim.Queue.Interval.Kept.{opens, interval_queue-WritesAlike}
use goqueuesim.Simulator.Stock.{checked_out}
use goqueuesim.Simulator.Workers.{
  Simulation, steps, after_tick, works, ticks, interrupts, here, next,
}
use goqueuesim.Setup.{
  Made, Distribution, load_client_distribution_config, prepare_network_params,
  make_mock_checkout_clients, make_all, make_some, make_one, shuffle, swap, get_elem?, set_elem,
  num_clients_of, actual_num_clients,
}
use goqueuesim.Setup.Numbering.{AreNumbered, AreFresh}
use goqueuesim.Setup.Distributing.{
  total_of, make_mock_checkout_clients-AreNumbered, waiting-eq-clients,
}
use goqueuesim.Setup.Main.{main, window_duration}
use goqueuesim.Setup.Running.{main-sold}
use goqueuesim.Setup.Keeping.{main-stock, main-admits, main-HoldsAtMost, main-IsOrdered}
use goqueuesim.Setup.Starting.{IsKnown, main-starts, make_mock_checkout_clients_makes}

abbrev lazy_config : ClientConfig
lazy_config = record {
  client_type = "routinely_polling_client";
  humanized_label = "routine";
  max_initial_delay_ms = pos 10;
  max_network_jitter_ms = pos 10;
  obeys_server_poll_after = true;
  custom_int_properties = ("default_poll_interval_ms", pos 250) ∷ [];
  custom_bool_properties = [];
}

-- A share of one client in 2200, of two, and of them all
abbrev one_client : Distribution fractions
one_client = (record { top = pos 1; bottom = 2200 }, lazy_config) ∷ []

abbrev two_clients : Distribution fractions
two_clients = (record { top = pos 2; bottom = 2200 }, lazy_config) ∷ []

abbrev all_clients : Distribution fractions
all_clients = (record { top = pos 1; bottom = 1 }, lazy_config) ∷ []

lazy_config-IsKnown : IsKnown lazy_config
lazy_config-IsKnown = inl refl

abbrev two_made : Made
unfolding make_base_client
two_made = record {
  clients = make_base_client lazy_config (pos 2) ∷ make_base_client lazy_config (pos 1) ∷ [];
  response_channels = (pos 1, []) ∷ (pos 2, []) ∷ [];
  next_id = pos 3;
}

make_mock_checkout_clients-AreNumbered_example :
    (length two_made.clients ≡ total_of fractions two_clients)
    × AreNumbered two_made.clients
    × AreFresh two_made.clients
unfolding two_made make_mock_checkout_clients total_of num_clients_of ◌*ℤ◌ make_all make_some
    make_one make_client_from_config shuffle insert i64 swap ◌+ℤ◌ get_elem? set_elem
make_mock_checkout_clients-AreNumbered_example =
    make_mock_checkout_clients-AreNumbered fractions two_clients true ((0, 1) ∷ []) two_made
      (omega arith) refl

all_made : (made : Made) × (make_mock_checkout_clients fractions all_clients false [] ≡ ok made)
all_made = make_mock_checkout_clients_makes fractions all_clients false [] (lazy_config-IsKnown, tt)

waiting-eq-clients_example : 2200 ≡ length all_made.0.clients
unfolding load_client_distribution_config num_clients_of ◌*ℤ◌ total_of actual_num_clients i64 ◌+ℤ◌
    ◌-ℤ◌ prepare_network_params
waiting-eq-clients_example =
    waiting-eq-clients fractions all_clients all_clients (pos 2200) false [] all_made.0
      (record { requests = []; capacity = 2000; waiting = 2200 }) (omega arith, tt) (omega arith)
      refl refl all_made.1

main-starts_example :
    (start : Simulation fractions NoopQueue) × (main
        (noop_queue fractions)
        (ok all_clients)
        []
        make_noop_queue
      ≡ ok start)
unfolding actual_num_clients num_clients_of i64 ◌*ℤ◌ ◌+ℤ◌
main-starts_example =
    main-starts (noop_queue fractions) all_clients [] make_noop_queue (lazy_config-IsKnown, tt)
      (omega arith) (omega arith)

all_started :
    (start : Simulation fractions NoopQueue) × (main
        (noop_queue fractions)
        (ok all_clients)
        []
        make_noop_queue
      ≡ ok start)
unfolding actual_num_clients num_clients_of i64 ◌*ℤ◌ ◌+ℤ◌
all_started =
    main-starts (noop_queue fractions) all_clients [] make_noop_queue (lazy_config-IsKnown, tt)
      (omega arith) (omega arith)

main-sold_example :
    (all_started.0.system.driver.inventory.count
      ≡ sub_ℕ 9200 (checked_out all_started.0.system.client_repo))
    × checked_out all_started.0.system.client_repo ≤ 9201
unfolding total_of num_clients_of ◌*ℤ◌
main-sold_example =
    main-sold (noop_queue fractions) (λ before after. before ≡ after) all_clients [] make_noop_queue
      all_started.0
      (record all_started.0 {
        system = record all_started.0.system {
          driver = record all_started.0.system.driver { cancelled = true };
        };
      })
      (noop_queue-QueueLaws fractions) (omega arith) all_started.1 (next here interrupts)

-- The tracker's timer fires, and the process is interrupted.
abbrev ticked : {S : Type 0} → Simulation fractions S → Simulation fractions S
ticked sim =
    let sim' = after_tick false sim in
    record sim' {
      system = record sim'.system { driver = record sim'.system.driver { cancelled = true } };
    }

main-admits_example :
    length (window (pos 0) (ticked all_started.0).system.driver.rate_tracker.windowed_checkout_util)
    ≤ 201
main-admits_example =
    main-admits (noop_queue fractions) (λ before after. before ≡ after) (ok all_clients) []
      make_noop_queue all_started.0 (ticked all_started.0) (pos 0) all_started.1
      (next (next here (ticks false (λ e. cc))) interrupts)

abbrev new_queue : CappedBinsQueue
new_queue = make_capped_bins_queue fractions (pos 200)

capped_started :
    (start : Simulation fractions CappedBinsQueue) × (main
        (capped_queue fractions)
        (ok all_clients)
        []
        new_queue
      ≡ ok start)
unfolding actual_num_clients num_clients_of i64 ◌*ℤ◌ ◌+ℤ◌
capped_started =
    main-starts (capped_queue fractions) all_clients [] new_queue (lazy_config-IsKnown, tt)
      (omega arith) (omega arith)

capped_stock : pos 1 ≤ℤ capped_started.0.system.driver.inventory.count
capped_stock =
    subst (λ n. pos 1 ≤ℤ n)
      (sym (
        main-stock (capped_queue fractions) (ok all_clients) [] new_queue capped_started.0
          capped_started.1))
      (omega arith)

-- The tracker's timer fires, and a message is heeded.
abbrev noticed : Simulation fractions CappedBinsQueue → Simulation fractions CappedBinsQueue
noticed sim =
    let sim' = after_tick false sim in
    let d = sim'.system.driver in
    record sim' {
      system = record sim'.system {
        driver = record d { throttle_queue = record d.throttle_queue { working_bin = pos 4 } };
      };
    }

main-HoldsAtMost_example :
    length (bin (pos 1) (noticed capped_started.0).system.driver.throttle_queue.bins) ≤ 300
unfolding make_capped_bins_queue ◌*ℤ◌ total_of num_clients_of
main-HoldsAtMost_example =
    main-HoldsAtMost fractions all_clients [] 299 capped_started.0 (noticed capped_started.0)
      (pos 1) (omega arith) refl capped_started.1
      (next (next here (ticks false (λ e. cc))) (works _ (writes (pos 4))))
      (unfold after_tick in capped_stock)

interval_started :
    (start : Simulation fractions IntervalBinsQueue) × (main
        (interval_queue fractions)
        (ok all_clients)
        []
        (make_interval_bins_queue (pos 7) window_duration (pos 200) (pos 2_000_000_000))
      ≡ ok start)
unfolding actual_num_clients num_clients_of i64 ◌*ℤ◌ ◌+ℤ◌
interval_started =
    main-starts (interval_queue fractions) all_clients []
      (make_interval_bins_queue (pos 7) window_duration (pos 200) (pos 2_000_000_000))
      (lazy_config-IsKnown, tt) (omega arith) (omega arith)

-- A new bin is opened.
abbrev opened : Simulation fractions IntervalBinsQueue
opened =
    let sim = interval_started.0 in
    record sim {
      system = record sim.system {
        driver = record sim.system.driver {
          throttle_queue = update_latest_bin sim.system.driver.throttle_queue;
        };
      };
    }

interval_stock : pos 1 ≤ℤ interval_started.0.system.driver.inventory.count
interval_stock =
    subst (λ n. pos 1 ≤ℤ n)
      (sym (
        main-stock (interval_queue fractions) (ok all_clients) []
          (make_interval_bins_queue (pos 7) window_duration (pos 200) (pos 2_000_000_000))
          interval_started.0 interval_started.1))
      (omega arith)

main-IsOrdered_example :
    let q = (ticked opened).system.driver.throttle_queue in
    (q.max_considered_bin_idx ≤ℤ q.latest_bin_idx) × (pos 0 ≤ℤ q.max_considered_bin_idx)
unfolding steps total_of num_clients_of ◌*ℤ◌
main-IsOrdered_example =
    main-IsOrdered fractions (interval_queue fractions) all_clients [] (pos 7) (pos 2_000_000_000)
      interval_started.0 (ticked opened) (interval_queue-QueueLaws fractions)
      (interval_queue-WritesAlike fractions) (omega arith) interval_started.1
      (next (next (next here (works (update_latest_bin _) opens)) (ticks false (λ e. cc)))
        interrupts)
      (omega arith) (unfold after_tick update_latest_bin in interval_stock)
