-- ===== src/LuaConfig/Factory.antt =====
-- The makers of internal/lua_config/lua_queue/params_factory.go, and prepareLuaQueueParams of
-- internal/lua_config/lua_queue_config.go, which chooses among them. No maker sets the prefix of the
-- shop in the parameters.
use Prim.Native.String
use goqueuesim.Common.{ℕ, String, not, List, [], ◌∷◌, ◌++◌, if◌then◌else◌}
use goqueuesim.Common.Map.{Map, string_key, ◌==◌}
use goqueuesim.Common.Clock.{milliseconds}
use goqueuesim.Common.Text.{format_int}
use goqueuesim.Common.Panic.{Outcome, ok, panic, ◌>>=◌, fatal}
use goqueuesim.Common.Float.{Float64, seconds}
use goqueuesim.Common.Slice.{Heap, Slice, read, slice_of, sub_slice, append}
use goqueuesim.LuaConfig.{
  LuaQueueConstants, LuaQueueParams, KeysBuilder, noop_keys, notimers_keys, ktimers_keys,
  nobins_keys, ArgsBuilder, noop_args, notimers_args, ktimers_args, nobins_args, Postprocessor,
  default_postprocessor, minimalist, nobins, prefixed_keys, empty_slice, by_method,
  default_lua_method_map, make_noop_queue_params, checkouts_per_second, polling_args,
}

module _ (fl : Float64) (format_float : fl.Carrier → String) where
  -- The array of the keys of a queue, each behind the prefix of the shop.
  unfoldable pub shop_keys : LuaQueueConstants fl → List String → Heap → Heap × Slice
  unfolding slice_of prefixed_keys
  shop_keys k names = slice_of (prefixed_keys (String.◌++◌ k.shop_scope_prefix ":") names)

  -- The end of a maker: what the six parameter literals have in common.
  unfoldable pub params_with :
      Map String Slice
      → Map String Slice
      → Map String String
      → KeysBuilder
      → ArgsBuilder
      → Postprocessor
      → LuaQueueParams
  params_with keys args shas keys_builder args_builder postprocessor = record {
    queue_scope_prefix = "";
    method_to_shop_scope_keys = keys;
    method_to_client_scope_keys = default_lua_method_map;
    method_to_constant_args = args;
    method_to_sha = shas;
    keys_builder = keys_builder;
    args_builder = args_builder;
    postprocessor = postprocessor;
  }

  abbrev Maker : Type 0
  Maker = LuaQueueConstants fl → Map String String → Heap → Outcome (Heap × LuaQueueParams)

  -- MakePollingFeedbackBinsQueueParams
  unfoldable pub make_polling_feedback_bins_queue_params : Maker
  make_polling_feedback_bins_queue_params k shas h = do
    cps ← checkouts_per_second fl k
    let (h1, keys) =
        shop_keys k
          ("latest_queue_bin" ∷ "latest_queue_bin_pos" ∷ "total_clients" ∷ "working_bin"
            ∷ "prev_poll_unix_second" ∷ "prev_unix_second_poll_count" ∷ "cur_second_poll_count"
            ∷ "poll_util_update_timer" ∷ "poll_util" ∷ "working_bin_update_timer" ∷ [])
          h
    let (h2, args) = slice_of (format_int cps ∷ format_int cps ∷ polling_args fl format_float k) h1
    ok (
      h2,
      params_with
          (by_method (sub_slice 0 3 keys) (sub_slice 2 3 keys) (sub_slice 3 10 keys) empty_slice
            (sub_slice 2 3 keys) keys)
          (by_method (sub_slice 0 2 args) empty_slice (sub_slice 1 6 args) empty_slice empty_slice
            empty_slice)
          shas noop_keys noop_args default_postprocessor,
    )

  -- MakeFairnessIntervalDrivenQueueParams
  unfoldable pub make_fairness_interval_driven_queue_params : Maker
  make_fairness_interval_driven_queue_params k shas h =
      let (h1, keys) =
        shop_keys k
          ("total_clients" ∷ "latest_queue_bin_update_timer" ∷ "latest_queue_bin"
            ∷ "bin_counts_dict" ∷ "working_bin" ∷ "working_bin_update_timer" ∷ [])
          h in
      let (h2, args) =
        slice_of
          ("2000"
            ∷ format_int (milliseconds k.window_duration)
            ∷ format_int k.max_checkouts_allowed_per_window
            ∷ [])
          h1 in
      let (h3, removed) =
        slice_of (read h2 (sub_slice 0 1 keys) ++ read h2 (sub_slice 3 4 keys)) h2 in
      ok (
        h3,
        params_with
            (by_method (sub_slice 0 4 keys) removed (sub_slice 2 6 keys) empty_slice
              (sub_slice 0 1 keys) keys)
            (by_method args empty_slice args empty_slice empty_slice empty_slice) shas noop_keys
            noop_args default_postprocessor,
      )

  -- MakeOptNotimersPollDrivenParams
  unfoldable pub make_opt_notimers_poll_driven_params : Maker
  make_opt_notimers_poll_driven_params k shas h = do
    cps ← checkouts_per_second fl k
    let (h1, keys) = shop_keys k ("checkout_throttle_dict" ∷ []) h
    let (h2, args) = slice_of (format_int cps ∷ format_int cps ∷ polling_args fl format_float k) h1
    ok (
      h2,
      params_with (by_method keys keys keys empty_slice keys keys)
          (by_method (sub_slice 0 2 args) empty_slice (sub_slice 1 6 args) empty_slice empty_slice
            empty_slice)
          shas notimers_keys notimers_args (minimalist cps),
    )

  -- MakeOptKTimersPollDrivenParams
  unfoldable pub make_opt_ktimers_poll_driven_params : Maker
  make_opt_ktimers_poll_driven_params k shas h = do
    cps ← checkouts_per_second fl k
    let (h1, keys) =
        shop_keys k
          ("checkout_throttle_dict" ∷ "poll_util_update_timer" ∷ "working_bin_update_timer" ∷ []) h
    let (h2, args) = slice_of (format_int cps ∷ format_int cps ∷ polling_args fl format_float k) h1
    ok (
      h2,
      params_with
          (by_method (sub_slice 0 1 keys) (sub_slice 0 1 keys) keys empty_slice (sub_slice 0 1 keys)
            keys)
          (by_method (sub_slice 0 2 args) empty_slice (sub_slice 1 6 args) empty_slice empty_slice
            empty_slice)
          shas ktimers_keys ktimers_args (minimalist cps),
    )

  -- MakeOptFairnessIntervalParams; the keys of poll are appended in the shared array.
  unfoldable pub make_opt_fairness_interval_params : (ℕ → ℕ) → Maker
  make_opt_fairness_interval_params spare k shas h =
      let (h1, keys) =
        shop_keys k
          ("checkout_throttle_dict" ∷ "bin_counts" ∷ "latest_bin_update_timer"
            ∷ "working_bin_update_timer" ∷ [])
          h in
      let (h2, args) =
        slice_of
          ("2000"
            ∷ format_int (milliseconds k.window_duration)
            ∷ format_int k.max_checkouts_allowed_per_window
            ∷ [])
          h1 in
      let max_cps =
        fl.to_int
          (fl.div (fl.of_int k.max_checkouts_allowed_per_window) (seconds fl k.window_duration)) in
      let (h3, polled) = append spare (sub_slice 0 2 keys) (read h2 (sub_slice 3 4 keys)) h2 in
      ok (
        h3,
        params_with
            (by_method (sub_slice 0 3 keys) (sub_slice 0 2 keys) polled empty_slice
              (sub_slice 0 1 keys) keys)
            (by_method args empty_slice args empty_slice empty_slice empty_slice) shas noop_keys
            noop_args (minimalist max_cps),
      )

  -- MakeOptPollDrivenNobinsParams
  unfoldable pub make_opt_poll_driven_nobins_params : Maker
  make_opt_poll_driven_nobins_params k shas h = do
    cps ← checkouts_per_second fl k
    let (h1, keys) = shop_keys k ("checkout_throttle_dict" ∷ []) h
    let (h2, args) = slice_of (format_int cps ∷ polling_args fl format_float k) h1
    ok (
      h2,
      params_with (by_method keys keys keys empty_slice keys keys)
          (by_method empty_slice empty_slice args empty_slice empty_slice empty_slice) shas
          nobins_keys (nobins_args (format_int cps)) (nobins cps),
    )

  -- prepareLuaQueueParams, by the name of the directory of the scripts; its caller panics on an error.
  unfoldable pub prepare_lua_queue_params : (ℕ → ℕ) → String → Maker
  prepare_lua_queue_params spare name k shas h =
      if not (k.queue_type == "lua_driven_bins_queue")
      then panic (fatal "can't build params for non-lua queue type")
      else if name == "noop"
      then ok (h, make_noop_queue_params shas)
      else if name == "polling_feedback_driven"
      then make_polling_feedback_bins_queue_params k shas h
      else if name == "fairness_interval_driven"
      then make_fairness_interval_driven_queue_params k shas h
      else if name == "opt_polldriven_notimers"
      then make_opt_notimers_poll_driven_params k shas h
      else if name == "opt_polldriven_ktimers"
      then make_opt_ktimers_poll_driven_params k shas h
      else if name == "opt_fairness_interval"
      then make_opt_fairness_interval_params spare k shas h
      else if name == "opt_polldriven_nobins"
      then make_opt_poll_driven_nobins_params k shas h
      else panic (fatal "unknown lua input directory")
