-- ===== src/Tests/Lua.antt =====
-- Slices, the keys of a Lua driven queue, and one that polls a server on concrete inputs.
use Prim.Native.String
use goqueuesim.Common.{Option, ℕ, ◌≡◌, refl, false, some, [], ◌∷◌, ◌++◌, arith, ℤ, pos, ◌≤ℤ◌, ◌+ℤ◌}
use goqueuesim.Common.Map.{string_key, lookup_or, lookup}
use goqueuesim.Common.Word.{i64}
use goqueuesim.Common.Panic.{ok}
use goqueuesim.Common.Float.{Fraction, fractions}
use goqueuesim.Common.Slice.{Heap, Slice, read, append, range, array_at, set_array, write}
use goqueuesim.Client.{Client, queued, get_throttle_cookie_val}
use goqueuesim.Counter.{AtomicCounter, atomic_read}
use goqueuesim.Counter
use goqueuesim.LuaConfig.{
  minimalist, LuaQueueConstants, LuaQueueParams, prefixed_keys, make_noop_queue_params, noop_keys,
  noop_args, default_postprocessor,
}
use goqueuesim.LuaConfig.Factory.{make_opt_fairness_interval_params}
use goqueuesim.LuaConfig.Tables.{keys_of, opt_fairness_keys}
use goqueuesim.Queue.SortedSet.{replied, or_panic}
use goqueuesim.Queue.LuaDriven.{
  post_process, LuaCalls, LuaDrivenQueue, is_candidate_to_proceed, remaining, run_script,
  redis_lua_result_or_die, preprocess_poll_args, args_with_client_data, append_cookie,
  with_client_scoped_keys,
}
use goqueuesim.Queue.LuaDriven.Shapes.{KeepsClient, postprocess-answers}
use goqueuesim.Queue.LuaDriven.Results.{
  PostprocessParams, PostprocessResult, postprocess_lua_result, method_of, tuple, int, string, nth,
  post_poll, post_other, as_string,
}
use goqueuesim.Queue.LuaDriven.Stock.{candidate_needs_stock}
use goqueuesim.Queue.LuaDriven.Arguments.{carried, args_with_client_data-eq}
use goqueuesim.Tests.{client_in}

abbrev three_entries : Heap
three_entries = ("a" ∷ "b" ∷ "c" ∷ []) ∷ []

abbrev first_entry : Slice
first_entry = record { array = 0; offset = 0; len = 1; cap = 3 }

abbrev tenth : Fraction
tenth = record { top = pos 1; bottom = 10 }

abbrev demo_constants : LuaQueueConstants fractions
demo_constants = record {
  queue_type = "lua_driven_bins_queue";
  shop_scope_prefix = "shop_id:1";
  max_checkouts_allowed_per_window = pos 200;
  window_duration = pos 2_000_000_000;
  polldriven_max_target_polling_util = tenth;
  polldriven_util_update_interval = pos 100_000_000;
  polldriven_working_bin_update_interval = pos 1_000_000_000;
  polldriven_latest_polling_util_weight = tenth;
}

opt_fairness_keys_example :
    let prefix = prefixed_keys (String.◌++◌ "shop_id:1" ":") in
    (made : Heap × LuaQueueParams) × (make_opt_fairness_interval_params fractions
        (λ x. "0.1")
        (λ n. n)
        demo_constants
        []
        three_entries
      ≡ ok made)
    × (keys_of "add" made
        ≡ prefix ("checkout_throttle_dict" ∷ "bin_counts" ∷ "working_bin_update_timer" ∷ []))
    × (keys_of "poll" made
        ≡ prefix ("checkout_throttle_dict" ∷ "bin_counts" ∷ "working_bin_update_timer" ∷ []))
    × (keys_of "clear" made
        ≡ prefix (
            "checkout_throttle_dict" ∷ "bin_counts" ∷ "working_bin_update_timer"
            ∷ "working_bin_update_timer" ∷ []))
opt_fairness_keys_example =
    opt_fairness_keys fractions (λ x. "0.1") (λ n. n) demo_constants [] three_entries

abbrev passing : LuaCalls fractions ℕ
passing = record {
  eval_sha =
      λ sha keys args n. replied (n, tuple (int (pos 1) ∷ string "polled" ∷ string "pass" ∷ []));
  format_float = λ x. "0.1";
  rune_string = λ n. "r";
  spare = λ n. n;
}

abbrev asking : ℤ → LuaDrivenQueue ℕ
unfolding make_noop_queue_params
asking polls = record {
  redis = 0;
  heap = [];
  params = make_noop_queue_params [];
  total_polls_count = polls;
}

candidate_needs_stock_example : pos 1 ≤ℤ pos 3
unfolding is_candidate_to_proceed remaining run_script redis_lua_result_or_die or_panic nth
    post_poll post_other as_string asking preprocess_poll_args i64 args_with_client_data ◌+ℤ◌
    append_cookie get_throttle_cookie_val with_client_scoped_keys append lookup_or lookup read range
    array_at prefixed_keys set_array write atomic_read Counter.lock post_process
candidate_needs_stock_example =
    candidate_needs_stock passing (pos 0) (record { is_locked = false; count = pos 3 })
      (asking (pos 0)) (asking (pos 1)) (client_in (pos 4) queued) refl

abbrev armed : LuaDrivenQueue ℕ
armed = record {
  redis = 0;
  heap = three_entries;
  params = record {
    queue_scope_prefix = "";
    method_to_shop_scope_keys = [];
    method_to_client_scope_keys = [];
    method_to_constant_args = ("poll", first_entry) ∷ [];
    method_to_sha = [];
    keys_builder = noop_keys;
    args_builder = noop_args;
    postprocessor = default_postprocessor;
  };
  total_polls_count = pos 0;
}

abbrev with_bin : Client
with_bin = record (client_in (pos 4) queued) { throttle_cookie = some (("luaUserBinId", "7") ∷ []) }

args_with_client_data-eq_example :
    read
      (args_with_client_data passing "poll" with_bin armed).0
      (args_with_client_data passing "poll" with_bin armed).1
    ≡ (read three_entries first_entry ++ carried "luaUserBinId" with_bin)
      ++ carried "luaUserQueuePos" with_bin
unfolding lookup_or lookup array_at
args_with_client_data-eq_example =
    args_with_client_data-eq passing "poll" with_bin armed
      (record { allocated = omega arith; len_below = omega arith; in_array = omega arith })

abbrev placed : PostprocessParams
placed = record {
  result_tuple = int (pos 1) ∷ string "added" ∷ int (pos 7) ∷ int (pos 12) ∷ [];
  c = some (client_in (pos 4) queued);
}

postprocess-answers_example :
    (r : Option Client × PostprocessResult) × (postprocess_lua_result fractions
        (minimalist (pos 100))
        (pos 5)
        "add"
        placed
      ≡ ok r)
    × KeepsClient (method_of "add") placed.c r
unfolding method_of
postprocess-answers_example =
    postprocess-answers fractions (minimalist (pos 100)) (pos 5) "add" placed
      ((_, refl), ((_, refl), ((_, refl), tt))) (_, refl)
