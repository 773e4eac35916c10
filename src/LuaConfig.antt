-- ===== src/LuaConfig.antt =====
-- internal/lua_config/lua_queue: the constants and parameters of the queues that Lua scripts drive, and
-- which method gets which keys and constant arguments (params_factory.go). The lists of keys and
-- arguments are slices that share their arrays.
pub mod Factory
pub mod Loading
pub mod Tables
use Prim.Native.String
use goqueuesim.Common.{ℕ, ◌+◌, ◌≡◌, List, [], ◌∷◌, map, String, ℤ, pos}
use goqueuesim.Common.Map.{Map}
use goqueuesim.Common.Clock.{Duration, milliseconds}
use goqueuesim.Common.Text.{format_int}
use goqueuesim.Common.Panic.{Outcome, quot}
use goqueuesim.Common.Float.{Float64, seconds}
use goqueuesim.Common.Slice.{Heap, Slice}

pub record LuaQueueConstants (fl : Float64) : Type 0 where
  pub queue_type : String
  pub shop_scope_prefix : String
  pub max_checkouts_allowed_per_window : ℤ
  pub window_duration : Duration
  pub polldriven_max_target_polling_util : fl.Carrier
  pub polldriven_util_update_interval : Duration
  pub polldriven_working_bin_update_interval : Duration
  pub polldriven_latest_polling_util_weight : fl.Carrier

-- The implementations of the interfaces, with their fields that are read.
pub data KeysBuilder : Type 0 where
  noop_keys notimers_keys ktimers_keys nobins_keys : KeysBuilder

pub data ArgsBuilder : Type 0 where
  noop_args notimers_args ktimers_args : ArgsBuilder
  -- DefaultWorkingPosIncr
  nobins_args : String → ArgsBuilder

pub data Postprocessor : Type 0 where
  default_postprocessor : Postprocessor
  -- MaxCps
  minimalist nobins : ℤ → Postprocessor

pub record LuaQueueParams : Type 0 where
  pub queue_scope_prefix : String
  pub method_to_shop_scope_keys : Map String Slice
  pub method_to_client_scope_keys : Map String Slice
  pub method_to_constant_args : Map String Slice
  pub method_to_sha : Map String String
  pub keys_builder : KeysBuilder
  pub args_builder : ArgsBuilder
  pub postprocessor : Postprocessor

-- `prefix + k` for every key
unfoldable pub prefixed_keys : String → List String → List String
prefixed_keys prefix keys = map (λ k. String.◌++◌ prefix k) keys

-- `{}`, which has no array of its own
abbrev pub empty_slice : Slice
empty_slice = record { array = 0; offset = 0; len = 0; cap = 0 }

-- A map literal with an entry for each method.
abbrev pub by_method : Slice → Slice → Slice → Slice → Slice → Slice → Map String Slice
by_method add remove poll feedback size clear =
    ("add", add)
    ∷ ("remove", remove)
    ∷ ("poll", poll)
    ∷ ("receive_feedback", feedback)
    ∷ ("size", size)
    ∷ ("clear", clear)
    ∷ []

abbrev pub default_lua_method_map : Map String Slice
default_lua_method_map =
    by_method empty_slice empty_slice empty_slice empty_slice empty_slice empty_slice

-- MakeNoopQueueParams, with defaultLuaQueueParams
unfoldable pub make_noop_queue_params : Map String String → LuaQueueParams
make_noop_queue_params shas = record {
  queue_scope_prefix = "";
  method_to_shop_scope_keys = default_lua_method_map;
  method_to_client_scope_keys = default_lua_method_map;
  method_to_constant_args = default_lua_method_map;
  method_to_sha = shas;
  keys_builder = noop_keys;
  args_builder = noop_args;
  postprocessor = default_postprocessor;
}

module _ (fl : Float64) where
  -- `constants.MaxCheckoutsAllowedPerWindow / int64(constants.WindowDuration.Seconds())`
  unfoldable pub checkouts_per_second : LuaQueueConstants fl → Outcome ℤ
  unfolding quot seconds
  checkouts_per_second k =
      quot k.max_checkouts_allowed_per_window (fl.to_int (seconds fl k.window_duration))

  -- The last four of the constant arguments of the poll driven queues; `format_float` is
  -- strconv.FormatFloat(x, 'f', -1, 64).
  unfoldable pub polling_args : (fl.Carrier → String) → LuaQueueConstants fl → List String
  polling_args format_float k =
      format_float k.polldriven_max_target_polling_util
      ∷ format_int (milliseconds k.polldriven_util_update_interval)
      ∷ format_int (milliseconds k.polldriven_working_bin_update_interval)
      ∷ format_float k.polldriven_latest_polling_util_weight
      ∷ []
