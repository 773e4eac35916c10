-- ===== src/ClientFactory.antt =====
-- internal/client/client_config.go and internal/client/impl/client_factory.go: how a client is made
-- from its configuration. JSON decoding fills the maps; a missing map is an empty one.
pub mod Defaults
use goqueuesim.Common.{
  ℕ, String, ◌≡◌, Bool, true, false, Option, none, some, if◌then◌else◌, ℤ, pos, leb_ℤ, ltb_ℤ, ◌*ℤ◌,
}
use goqueuesim.Common.Map.{Map, string_key, lookup, ◌==◌}
use goqueuesim.Common.Word.{i64}
use goqueuesim.Common.Clock.{Duration, millisecond, second}
use goqueuesim.Client.{
  Client, ClientKind, routinely_polling, fully_disappearing, lazy_polling, exponential_backoff,
  jit_greedy, initial, nil_channel, nil_pointer,
}

-- type ClientConfig; the probability of a lazy client only enters the rounds that it skips, so the map
-- of floats is left out, and the share of the clients is read elsewhere.
pub record ClientConfig : Type 0 where
  pub client_type : String
  pub humanized_label : String
  pub max_initial_delay_ms : ℤ
  pub max_network_jitter_ms : ℤ
  pub obeys_server_poll_after : Bool
  pub custom_int_properties : Map String ℤ
  pub custom_bool_properties : Map String Bool

-- `v, found := CustomIntProperties[key]; if !found || v <= 0 { v = dflt }`
unfoldable pub positive_property : String → ℤ → ClientConfig → ℤ
positive_property key dflt config = elim (lookup key config.custom_int_properties) [
  | none ↦ dflt
  | some v ↦ if leb_ℤ v (pos 0) then dflt else v
]

-- MakeBaseClient
unfoldable pub make_base_client : ClientConfig → ℤ → Client
unfolding positive_property
make_base_client config id = record {
  id = id;
  label = config.humanized_label;
  kind = routinely_polling;
  default_poll_interval =
      i64 (positive_property "dflt_poll_interval_seconds" (pos 5) config *ℤ pos second);
  max_initial_delay_ms = config.max_initial_delay_ms;
  max_network_jitter_ms = config.max_network_jitter_ms;
  obeys_poll_after = config.obeys_server_poll_after;
  started_polling = false;
  poll_stopper = nil_channel;
  hit_checkout_step = false;
  advised_poll_after = pos 0;
  state = initial;
  queue_entry_time = pos 0;
  queue_exit_time = pos 0;
  is_locked = false;
  poll_timer = nil_pointer;
  throttle_cookie = none;
}

-- MakeFullyDisappearingClient
unfoldable pub polls_before_disappearing : ClientConfig → ℤ
polls_before_disappearing config =
    elim (lookup "polls_before_disappearing" config.custom_int_properties) [
      | none ↦ pos 0
      | some v ↦ if ltb_ℤ v (pos 0) then pos 0 else v
    ]

unfoldable pub make_fully_disappearing_client : ClientConfig → Client → Client
make_fully_disappearing_client config base = record base {
  kind = fully_disappearing (polls_before_disappearing config);
}

-- MakeLazyPollingClient
unfoldable pub make_lazy_polling_client : ClientConfig → Client → Client
make_lazy_polling_client config base = record base {
  kind = lazy_polling (positive_property "max_ms_sleep_dur" (pos 10_000) config);
}

-- MakeExponentialBackoffClient
unfoldable pub make_exponential_backoff_client : ClientConfig → Client → Client
make_exponential_backoff_client config base = record base {
  kind =
      exponential_backoff
        (i64 (positive_property "maximum_backoff_ms" (pos 1) config *ℤ pos millisecond));
}

-- MakeJitGreedyPoller; the delay between greedy polls only passes time.
unfoldable pub make_jit_greedy_poller : ClientConfig → Client → Client
make_jit_greedy_poller config base = record base {
  kind =
      jit_greedy
        (elim (lookup "window_cheater_only" config.custom_bool_properties) [
          | none ↦ false
          | some b ↦ b
        ])
        (positive_property "greedy_polls_count" (pos 1) config)
        (i64 (positive_property "early_poll_lead_time_ms" (pos 1) config *ℤ pos millisecond))
        (i64 (positive_property "window_dur_ms" (pos 1) config *ℤ pos millisecond));
}

-- MakeClientFromConfig; `none` where it panics on the type's name.
unfoldable pub make_client_from_config : ClientConfig → ℤ → Option Client
make_client_from_config config id =
    let base = make_base_client config id in
    if config.client_type == "routinely_polling_client"
    then some base
    else if config.client_type == "fully_disappearing_client"
    then some (make_fully_disappearing_client config base)
    else if config.client_type == "lazy_polling_client"
    then some (make_lazy_polling_client config base)
    else if config.client_type == "exponential_backoff_client"
    then some (make_exponential_backoff_client config base)
    else if config.client_type == "jit_greedy_poller"
    then some (make_jit_greedy_poller config base)
    else none
