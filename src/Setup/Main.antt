-- ===== src/Setup/Main.antt =====
-- cmd/goqueuesim/main.go with the rest of config.go: how the parts of a simulation are made and put
-- together, over the queue that makeUserQueue returns. The Redis client, which only the queues in
-- Redis use, and the outcome of decoding the distribution's file are outside.
use goqueuesim.Common.{
  ℕ, String, Bool, true, false, none, some, List, [], if◌then◌else◌, ℤ, pos, ◌*ℤ◌,
}
use goqueuesim.Common.Map.{Map, int_key, string_key, ◌==◌}
use goqueuesim.Common.Clock.{Duration, second}
use goqueuesim.Common.Panic.{Outcome, ok, panic, ◌>>=◌, fatal}
use goqueuesim.Common.Float.{Float64}
use goqueuesim.Client.{Client}
use goqueuesim.Tracker.{FixedWindowTracker, make_fixed_window_tracker}
use goqueuesim.Counter.{AtomicCounter}
use goqueuesim.Queue.{Queue}
use goqueuesim.Driver.{Driver}
use goqueuesim.Polling.{Net}
use goqueuesim.Simulator.{start_clients}
use goqueuesim.Simulator.Workers.{Simulation, Monitors}
use goqueuesim.Setup.{
  Made, Distribution, validate_params, set_logging, configure_experiment,
  load_client_distribution_config, prepare_network_params, make_mock_checkout_clients,
}

abbrev pub log_level : String
log_level = "disabled"

abbrev pub client_distribution_json_path : String
client_distribution_json_path =
    "config/simulation/client_distributions/plausible_best_case_scenario.json"

abbrev pub tracker_type : String
tracker_type = "fixed_window"

abbrev pub client_repo_type : String
client_repo_type = "simple_client_repo"

abbrev pub window_duration : Duration
window_duration = pos 2 *ℤ pos second

abbrev pub max_checkouts_allowed_per_window : ℕ
max_checkouts_allowed_per_window = 200

abbrev pub inventory_stock_total : ℕ
inventory_stock_total = 9200

abbrev pub force_random_client_order : Bool
force_random_client_order = false

abbrev pub num_server_workers : ℕ
num_server_workers = 2000

abbrev pub max_skpd_low_checkout_util_count : ℤ
max_skpd_low_checkout_util_count = pos 15

abbrev pub should_randomize_client_order : Bool
should_randomize_client_order = true

-- lowCheckoutUtilMaxThresholdPct, 0.25
abbrev pub low_checkout_util_max_threshold_pct : (fl : Float64) → fl.Carrier
low_checkout_util_max_threshold_pct fl = fl.literal 1 4

-- The `go` statements of makeRateTracker and makeCheckoutThrottleDriver
unfoldable pub start_monitors : (fl : Float64) → Monitors fl
start_monitors fl = record {
  low_util_max_threshold_pct = low_checkout_util_max_threshold_pct fl;
  max_skpd_low_polling_util_count = max_skpd_low_checkout_util_count;
  low_count = pos 0;
  received = none;
}

-- makeRateTracker; the goroutine that it starts waits for the start signal.
unfoldable pub make_rate_tracker : String → Duration → ℕ → Outcome FixedWindowTracker
make_rate_tracker kind duration max_allowed =
    if kind == "fixed_window"
    then elim (make_fixed_window_tracker duration max_allowed) [
      | none ↦ panic (fatal "Failed instantiating FixedWindowTracker: invalid window duration")
      | some t ↦ ok t
    ]
    else panic (fatal "tracker type must be one of: {fixed_window}")

-- makeClientRepo
unfoldable pub make_client_repo : String → Outcome (Map ℤ Client)
make_client_repo kind =
    if kind == "simple_client_repo"
    then ok []
    else panic (fatal "clientRepo type must be one of: {simple_client_repo}")

-- makeCheckoutThrottleDriver
unfoldable pub make_checkout_throttle_driver :
    {S : Type 0} → S → FixedWindowTracker → AtomicCounter → Driver S
make_checkout_throttle_driver user_queue rate_tracker counter = record {
  throttle_queue = user_queue;
  rate_tracker = rate_tracker;
  inventory = counter;
  cancelled = false;
}

-- makeSimulator: the clients are handed to `start_simulation`.
unfoldable pub make_simulator :
    {fl : Float64} {S : Type 0}
    → Driver S
    → Monitors fl
    → ℕ
    → Net
    → Map ℤ Client
    → Made
    → Simulation fl S
make_simulator driver monitors workers net client_repo made = record {
  system = record {
    driver = driver;
    client_repo = client_repo;
    response_channels = made.response_channels;
  };
  net = net;
  monitors = monitors;
  in_hand = [];
  calls = [];
  num_server_workers = workers;
  loops = [];
  completed = false;
}

-- SimulationDriver.StartSimulation, up to the start signal: the workers find no request yet.
unfoldable pub start_simulation :
    {fl : Float64} {S : Type 0} → List Client → Simulation fl S → Simulation fl S
start_simulation clients sim = record sim { system = start_clients clients sim.system }

module _ {fl : Float64} {S : Type 0} (q : Queue fl S) where
  -- main, up to the start signal, from what makeUserQueue returns
  unfoldable pub main : Outcome (Distribution fl) → List (ℕ × ℕ) → S → Outcome (Simulation fl S)
  main decoded swaps user_queue = do
    _ ← validate_params max_skpd_low_checkout_util_count
    _ ← set_logging log_level
    let randomize =
        configure_experiment client_distribution_json_path force_random_client_order
          should_randomize_client_order
    loaded ← load_client_distribution_config fl decoded
    net ← prepare_network_params loaded.1
    made ← make_mock_checkout_clients fl loaded.0 randomize swaps
    client_repo ← make_client_repo client_repo_type
    rate_tracker ← make_rate_tracker tracker_type window_duration max_checkouts_allowed_per_window
    let counter : AtomicCounter = record { is_locked = false; count = pos inventory_stock_total }
    let driver = make_checkout_throttle_driver (q.clear user_queue) rate_tracker counter
    ok (
        start_simulation made.clients
          (make_simulator driver (start_monitors fl) num_server_workers net client_repo made))
