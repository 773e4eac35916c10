-- ===== src/Tests/Interleaving.antt =====
-- Steps of the goroutines of a small simulation.
use goqueuesim.Common.{◌+ℤ◌, ◌≡◌, refl, inl, false, [], ◌∷◌, arith, pos, ℕ, zero, suc}
use goqueuesim.Common.Map.{int_key, lookup, insert, lookup_or}
use goqueuesim.Common.Word.{i32}
use goqueuesim.Common.Float.{fractions}
use goqueuesim.Client.{Client, initial, mark_queued, mark_in_checkout, lock}
use goqueuesim.Counter.{atomic_add, atomic_read}
use goqueuesim.Tracker.{should_proceed, window}
use goqueuesim.Network.{MockRequest, make_checkout_request, session_data}
use goqueuesim.Queue.Noop.{NoopQueue, noop_queue, noop_queue-QueueLaws}
use goqueuesim.Driver.{Instants, Driver}
use goqueuesim.Driver.Phases.{
  Phase, begun, asking, tracking, buying, removing, proceed, enqueue, buy,
}
use goqueuesim.Polling.{Net}
use goqueuesim.Simulator.Stock.{checked_out}
use goqueuesim.Simulator.Serving.{none_served}
use goqueuesim.Simulator.Workers.{
  Simulation, in_call, after_step, busy, takes, locks, proceeds, Reach, here, next,
}
use goqueuesim.Simulator.Interleaving.{IsSound, Reach-IsSound}
use goqueuesim.Setup.Main.{start_monitors}
use goqueuesim.Tests.{client_in, one_per_window}

abbrev asked : MockRequest
unfolding make_checkout_request session_data
asked = make_checkout_request (session_data (client_in (pos 1) initial))

abbrev waiting_net : Net
waiting_net = record { requests = asked ∷ []; capacity = 5; waiting = 1 }

-- The noop queue has no goroutine.
abbrev Idle : NoopQueue → NoopQueue → Type 0
Idle before after = before ≡ after

abbrev one_waits : Simulation fractions NoopQueue
one_waits = record {
  system = record {
    driver = record {
      throttle_queue = record { total_queued_clients = pos 0; total_polls_count = pos 0 };
      rate_tracker = one_per_window;
      inventory = record { is_locked = false; count = pos 3 };
      cancelled = false;
    };
    client_repo = (pos 1, record (client_in (pos 1) initial) { is_locked = false }) ∷ [];
    response_channels = (pos 1, []) ∷ [];
  };
  net = waiting_net;
  monitors = start_monitors fractions;
  in_hand = [];
  calls = [];
  num_server_workers = 2;
  loops = [];
  completed = false;
}

abbrev taken : Simulation fractions NoopQueue
taken = record one_waits { net = record waiting_net { requests = [] }; in_hand = asked ∷ [] }

abbrev all_at : Instants
all_at = record { queued_at = pos 5; added_at = pos 6; asked_at = pos 7; passed_at = pos 8 }

abbrev first_client : Client
first_client = record (client_in (pos 1) initial) { is_locked = false }

abbrev served : Simulation fractions NoopQueue
served = record taken {
  system = record taken.system {
    client_repo = insert (pos 1) (lock first_client) taken.system.client_repo;
  };
  in_hand = [];
  calls = insert (pos 1) (in_call begun) [];
}

-- The call for the client after some of its steps, and the simulation then.
abbrev called : ℕ → Driver NoopQueue × Client × Phase
called zero = (one_waits.system.driver, lock first_client, begun)
called (suc n) = let r = called n in proceed (noop_queue fractions) all_at r.2 r.0 r.1

abbrev stepped : ℕ → Simulation fractions NoopQueue
stepped zero = served
stepped (suc n) = after_step (pos 1) (called (suc n)) (stepped n)

reached : Reach (noop_queue fractions) Idle one_waits (stepped 5)
unfolding lookup insert asked lock after_step proceed enqueue mark_queued buy noop_queue
    should_proceed window lookup_or mark_in_checkout atomic_add atomic_read i32 ◌+ℤ◌ busy
reached =
    let start = next here (takes asked [] refl (omega arith)) in
    let locked = next start (locks asked [] [] first_client refl refl refl) in
    let one = next locked (proceeds all_at (pos 1) (called 0).1 begun refl refl) in
    let two = next one (proceeds all_at (pos 1) (called 1).1 asking refl refl) in
    let three = next two (proceeds all_at (pos 1) (called 2).1 tracking refl refl) in
    let four = next three (proceeds all_at (pos 1) (called 3).1 buying refl refl) in
    next four (proceeds all_at (pos 1) (called 4).1 (removing (pos 2)) refl refl)

Reach-IsSound_example : IsSound 3 (stepped 5)
unfolding lookup checked_out asked
Reach-IsSound_example =
    Reach-IsSound (noop_queue fractions) Idle (noop_queue-QueueLaws fractions) 3 (omega arith)
      (record {
        balanced = record { balance = refl; sold = omega arith; honest = (inl refl, tt) };
        named = (refl, tt);
        sent = ((_, refl), tt);
        taken = tt;
        served = none_served one_waits.system.client_repo;
      })
      reached
