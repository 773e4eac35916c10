-- ===== src/Setup.antt =====
-- cmd/goqueuesim/config.go: the checks of the parameters, the clients of a distribution, and the
-- wait group and channels that they share. Opening and decoding the distribution's JSON file is
-- outside: its outcome is an argument. The share of each client type stands beside its configuration.
pub mod Numbering
pub mod Shuffling
pub mod Distributing
pub mod Main
pub mod Queues
pub mod Running
pub mod Keeping
pub mod Starting
use Prim.Native.Char.{code}
use goqueuesim.Common.{
  ℕ, zero, suc, String, ◌≡◌, Bool, true, false, ◌||◌, not, Option, none, some, List, [], ◌∷◌, ◌++◌,
  nat_eq, if◌then◌else◌, ℤ, pos, negsuc, ◌+ℤ◌, ◌-ℤ◌, ltb_ℤ, pos_part, length,
}
use goqueuesim.Common.Map.{Map, int_key, string_key, ◌==◌, insert}
use goqueuesim.Common.Word.{i64}
use goqueuesim.Common.Panic.{Outcome, ok, panic, ◌>>=◌, fatal, negative_wait_group}
use goqueuesim.Common.Float.{Float64}
use goqueuesim.Client.{Client}
use goqueuesim.ClientFactory.{ClientConfig, make_client_from_config}
use goqueuesim.Network.{MockResponse}
use goqueuesim.Polling.{Net}

abbrev pub target_num_clients : ℕ
target_num_clients = 2200

abbrev pub max_network_io_backlog_size : ℕ
max_network_io_backlog_size = 2000

-- validateParams
unfoldable pub validate_params : ℤ → Outcome (Unit {0})
validate_params skipped_low_util_windows =
    if ltb_ℤ skipped_low_util_windows (pos 0)
    then panic (fatal "maxSkpdLowCheckoutUtilCount should be >= 0")
    else ok tt

pub data LogLevel : Type 0 where
  disabled info : LogLevel

-- setLogging
unfoldable pub set_logging : String → Outcome LogLevel
set_logging level =
    if level == "disabled"
    then ok disabled
    else if level == "info"
    then ok info
    else panic (fatal "log level must be one of: {disabled, info}")

-- isNonrandomClientsConfig
unfoldable pub is_nonrandom_clients_config : String → Bool
is_nonrandom_clients_config name =
    (name == "plausible_very_unfair")
    || (name == "polldriven_throughput_edge_case_1")
    || (name == "polldriven_throughput_edge_case_2")

-- The last element of strings.Split(path, "/"): what follows the last slash, or `cur` without one.
unfoldable pub last_segment : String → String → String
last_segment cur String.[] = cur
last_segment cur (String.◌∷◌ c s) = last_segment (if nat_eq (code c) b'/' then s else cur) s

-- strings.TrimSuffix(s, suffix), for a suffix that is not empty
unfoldable pub trim_suffix : String → String → String
trim_suffix suffix String.[] = String.[]
trim_suffix suffix (String.◌∷◌ c s) =
    let rest = trim_suffix suffix s in
    if String.◌∷◌ c s == suffix then String.[] else String.◌∷◌ c rest

-- configureExperiment, for shouldRandomizeClientOrder; the rest of it only tags the metrics.
unfoldable pub configure_experiment : String → Bool → Bool → Bool
unfolding is_nonrandom_clients_config last_segment trim_suffix
configure_experiment distribution_path force_random should_randomize =
    let name = trim_suffix ".json" (last_segment distribution_path distribution_path) in
    if force_random
    then true
    else if is_nonrandom_clients_config name
    then false
    else should_randomize

-- What makeMockCheckoutClients has made so far: the clients, their response channels and `id`.
pub record Made : Type 0 where
  pub clients : List Client
  pub response_channels : Map ℤ (List MockResponse)
  pub next_id : ℤ

-- The body of its inner loop.
unfoldable pub make_one : ClientConfig → Made → Outcome Made
make_one config m = elim (make_client_from_config config m.next_id) [
  | none ↦ panic (fatal "client type must be one of: {routinely_polling_client}")
  | some c ↦ ok (record {
    clients = m.clients ++ c ∷ [];
    response_channels = insert m.next_id [] m.response_channels;
    next_id = i64 (m.next_id +ℤ pos 1);
  })
]

-- The inner loop, with its number of rounds.
unfoldable pub make_some : ℕ → ClientConfig → Made → Outcome Made
make_some zero config m = ok m
make_some (suc n) config m = make_one config m >>= make_some n config

-- `checkoutClients[i], checkoutClients[j] = checkoutClients[j], checkoutClients[i]`; rand.Shuffle calls
-- it with indices inside the slice.
unfoldable pub get_elem? : List Client → ℕ → Option Client
get_elem? [] n = none
get_elem? (c ∷ cs) zero = some c
get_elem? (c ∷ cs) (suc n) = get_elem? cs n

unfoldable pub set_elem : ℕ → Client → List Client → List Client
set_elem n c [] = []
set_elem zero c (d ∷ cs) = c ∷ cs
set_elem (suc n) c (d ∷ cs) = d ∷ set_elem n c cs

unfoldable pub swap : ℕ → ℕ → List Client → List Client
swap i j cs = elim (get_elem? cs i) [
  | none ↦ cs
  | some c ↦ elim (get_elem? cs j) [ none ↦ cs | some d ↦ set_elem j c (set_elem i d cs) ]
]

-- rand.Shuffle calls the swap for a sequence of pairs of its own.
unfoldable pub shuffle : List (ℕ × ℕ) → List Client → List Client
shuffle [] cs = cs
shuffle ((i, j) ∷ swaps) cs = shuffle swaps (swap i j cs)

-- prepareNetworkParams; the response channels are made with the clients.
unfoldable pub prepare_network_params : ℤ → Outcome Net
prepare_network_params (pos n) =
    ok (record { requests = []; capacity = max_network_io_backlog_size; waiting = n })
prepare_network_params (negsuc n) = panic negative_wait_group

module _ (fl : Float64) where
  open fl use {Carrier, of_int, mul, floor, to_int}

  abbrev pub Distribution : Type 0
  Distribution = List (Carrier × ClientConfig)

  -- int(math.Floor(pct * targetNumClients))
  unfoldable pub num_clients_of : Carrier → ℤ
  num_clients_of pct = to_int (floor (mul pct (of_int (pos target_num_clients))))

  -- The loop of loadClientDistributionConfig
  unfoldable pub actual_num_clients : Distribution → ℤ → ℤ
  actual_num_clients [] n = n
  actual_num_clients ((pct, config) ∷ rest) n =
      actual_num_clients rest (i64 (n +ℤ num_clients_of pct))

  -- loadClientDistributionConfig, from the outcome of opening and decoding the file
  unfoldable pub load_client_distribution_config : Outcome Distribution → Outcome (Distribution × ℤ)
  load_client_distribution_config decoded = do
    config ← decoded
    let n = actual_num_clients config (pos 0)
    if ltb_ℤ (pos target_num_clients) n || ltb_ℤ n (pos target_num_clients -ℤ pos 1)
        then panic (fatal "Client config representationPercent values must sum to 1.0")
        else ok (config, n)

  -- The outer loop of makeMockCheckoutClients
  unfoldable pub make_all : Distribution → Made → Outcome Made
  make_all [] m = ok m
  make_all ((pct, config) ∷ rest) m =
      make_some (pos_part (num_clients_of pct)) config m >>= make_all rest

  -- makeMockCheckoutClients, with the swaps of rand.Shuffle
  unfoldable pub make_mock_checkout_clients : Distribution → Bool → List (ℕ × ℕ) → Outcome Made
  make_mock_checkout_clients config should_randomize_order swaps = do
    m ← make_all config (record { clients = []; response_channels = []; next_id = pos 1 })
    ok (record m {
      clients = if should_randomize_order then shuffle swaps m.clients else m.clients;
    })
