-- ===== src/Tests/Simulation.antt =====
-- The start, the end and the making of clients on concrete inputs.
use goqueuesim.Common.{◌≡◌, ◌↔◌, refl, true, false, [], ◌∷◌, arith, pos, ◌*ℤ◌}
use goqueuesim.Common.Map.{string_key, int_key, lookup_or}
use goqueuesim.Common.Panic.{panic, nil_client}
use goqueuesim.Common.Float.{fractions}
use goqueuesim.Client.{Client, in_checkout}
use goqueuesim.ClientFactory.{
  ClientConfig, make_base_client, make_client_from_config, make_jit_greedy_poller,
}
use goqueuesim.ClientFactory.Defaults.{IsNew, make_client_from_config-IsNew}
use goqueuesim.Queue.Capped.{CappedBinsQueue}
use goqueuesim.Simulator.{System}
use goqueuesim.Simulator.Fairness.{
  judge_all, no_events, aggregate_fairness_results, reached_checkout, overtakes,
}
use goqueuesim.Simulator.Cheating.{Unfair, judge_all_marks}
use goqueuesim.Simulator.Overtaking.{overtaking, overtaken_pairs, aggregate_panics}
use goqueuesim.Tests.{client_in, one_per_window, empty_bins}

abbrev no_clients : System CappedBinsQueue
no_clients = record {
  driver = record {
    throttle_queue = empty_bins;
    rate_tracker = one_per_window;
    inventory = record { is_locked = false; count = pos 3 };
    cancelled = false;
  };
  client_repo = [];
  response_channels = [];
}

abbrev overtaken : Client
overtaken = record (client_in (pos 1) in_checkout) {
  hit_checkout_step = true;
  queue_entry_time = pos 10;
  queue_exit_time = pos 40;
}

abbrev overtaker : Client
overtaker = record (client_in (pos 2) in_checkout) {
  hit_checkout_step = true;
  queue_entry_time = pos 20;
  queue_exit_time = pos 30;
}

judge_all_marks_example :
    let reached = reached_checkout (overtaken ∷ overtaker ∷ []) in
    let t = judge_all fractions reached reached (no_events fractions) in
    ((lookup_or false (pos 1) t.unique_cheated_clients ≡ true)
      ↔ Unfair (λ cx cy. cx.id ≡ pos 1) (overtaken ∷ overtaker ∷ []))
    × ((lookup_or false (pos 1) t.unique_unfair_clients ≡ true)
        ↔ Unfair (λ cx cy. cy.id ≡ pos 1) (overtaken ∷ overtaker ∷ []))
judge_all_marks_example = judge_all_marks fractions (pos 1) (overtaken ∷ overtaker ∷ [])

aggregate_panics_example : aggregate_fairness_results fractions (overtaken ∷ []) ≡ panic nil_client
unfolding reached_checkout overtakes overtaking overtaken_pairs ◌*ℤ◌
aggregate_panics_example = aggregate_panics fractions (overtaken ∷ []) refl refl

abbrev greedy_config : ClientConfig
greedy_config = record {
  client_type = "jit_greedy_poller";
  humanized_label = "greedy";
  max_initial_delay_ms = pos 10;
  max_network_jitter_ms = pos 10;
  obeys_server_poll_after = true;
  custom_int_properties = ("window_dur_ms", pos 250) ∷ [];
  custom_bool_properties = [];
}

make_client_from_config-IsNew_example :
    IsNew (pos 7) (make_jit_greedy_poller greedy_config (make_base_client greedy_config (pos 7)))
unfolding make_client_from_config
make_client_from_config-IsNew_example =
    make_client_from_config-IsNew greedy_config (pos 7)
      (make_jit_greedy_poller greedy_config (make_base_client greedy_config (pos 7)))
      (omega arith, tt) refl
