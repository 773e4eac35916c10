-- ===== src/Setup/Queues.antt =====
-- makeUserQueue and prepareLuaQueueConstants of cmd/goqueuesim/config.go: which queue the users wait in.
use goqueuesim.Common.{ℕ, Option, none, some, String, if◌then◌else◌, pos, ◌*ℤ◌}
use goqueuesim.Common.Map.{string_key, ◌==◌}
use goqueuesim.Common.Clock.{Time, millisecond, second}
use goqueuesim.Common.Panic.{Outcome, ok, panic, ◌>>=◌, fatal}
use goqueuesim.Common.Float.{Float64}
use goqueuesim.Common.Slice.{Heap}
use goqueuesim.LuaConfig.Loading.{ScriptFiles, set_default_lua_queue_params, configure_redis_lua}
use goqueuesim.LuaConfig.{LuaQueueConstants, LuaQueueParams}
use goqueuesim.Queue.Noop.{NoopQueue, make_noop_queue}
use goqueuesim.Queue.Capped.{CappedBinsQueue, make_capped_bins_queue}
use goqueuesim.Queue.PollDriven.{PollDrivenQueue, make_poll_driven_queue}
use goqueuesim.Queue.Interval.{IntervalBinsQueue, make_interval_bins_queue}
use goqueuesim.Queue.SortedSet.{Reply, SortedSets, SortedSetQueue, make_sorted_set_queue}
use goqueuesim.Queue.LuaDriven.{LuaDrivenQueue, make_lua_driven_bins_queue}
use goqueuesim.Setup.Main.{max_checkouts_allowed_per_window, window_duration}

abbrev pub queue_type : String
queue_type = "capped_bins_queue"

abbrev pub lua_queue_dir_path : String
lua_queue_dir_path = "redis-lua/bins-queue/noop"

abbrev pub shop_scope_prefix_demo : String
shop_scope_prefix_demo = "shop_id:1"

-- A queue.Queue: a pointer to one of the implementations.
pub data UserQueue (fl : Float64) (R : Type 0) : Type 0 where
  noop : NoopQueue → UserQueue fl R
  sorted_set : SortedSetQueue R → UserQueue fl R
  capped_bins : CappedBinsQueue → UserQueue fl R
  interval_bins : IntervalBinsQueue → UserQueue fl R
  polldriven_capped_bins : PollDrivenQueue fl → UserQueue fl R
  lua_driven_bins : LuaDrivenQueue R → UserQueue fl R

module _ (fl : Float64) where
  -- prepareLuaQueueConstants, for a type of queue
  unfoldable pub prepare_lua_queue_constants : String → LuaQueueConstants fl
  unfolding ◌*ℤ◌
  prepare_lua_queue_constants kind = record {
    queue_type = kind;
    shop_scope_prefix = shop_scope_prefix_demo;
    max_checkouts_allowed_per_window = pos max_checkouts_allowed_per_window;
    window_duration = window_duration;
    polldriven_max_target_polling_util = fl.literal 25 10;
    polldriven_util_update_interval = pos 100 *ℤ pos millisecond;
    polldriven_working_bin_update_interval = pos 1 *ℤ pos second;
    polldriven_latest_polling_util_weight = fl.literal 2 10;
  }

  -- makeUserQueue
  unfoldable pub make_user_queue :
      {R : Type 0}
      → SortedSets fl R
      → String
      → Time
      → R
      → Heap
      → LuaQueueParams
      → Outcome (UserQueue fl R)
  unfolding make_noop_queue
  make_user_queue server kind now redis heap params =
      if kind == "noop_queue"
      then ok (noop make_noop_queue)
      else if kind == "sorted_set"
      then (make_sorted_set_queue server redis (pos max_checkouts_allowed_per_window) >>= λ q.
          ok (sorted_set q))
      else if kind == "capped_bins_queue"
      then ok (capped_bins (make_capped_bins_queue fl (pos max_checkouts_allowed_per_window)))
      else if kind == "interval_bins_queue"
      then ok (
          interval_bins (
            make_interval_bins_queue now window_duration (pos max_checkouts_allowed_per_window)
              (pos 2000 *ℤ pos millisecond)))
      else if kind == "polldriven_capped_bins_queue"
      then (make_poll_driven_queue fl (pos max_checkouts_allowed_per_window) window_duration
            (fl.literal 25 10) (pos 1 *ℤ pos second) (fl.literal 2 10)
          >>= λ q. ok (polldriven_capped_bins q))
      else if kind == "lua_driven_bins_queue"
      then ok (lua_driven_bins (make_lua_driven_bins_queue redis heap params))
      else panic (fatal "queue type must be one of: {sorted_set, capped_bins_queue}")

  -- How main gets its queue: the scripts are loaded for the Lua driven queue only, which needs a
  -- server that answered the ping. `ping` is the error of the ping, if any.
  unfoldable pub main_user_queue :
      {R : Type 0}
      → (fl.Carrier → String)
      → (ℕ → ℕ)
      → ScriptFiles
      → (String → R → Reply (R × String))
      → SortedSets fl R
      → String
      → Time
      → Option String
      → R
      → Heap
      → Outcome (UserQueue fl R)
  unfolding set_default_lua_queue_params
  main_user_queue format_float spare files script_load server kind now ping redis h =
      let default = make_user_queue server kind now redis h set_default_lua_queue_params in
      let scripted =
        configure_redis_lua files script_load fl format_float spare lua_queue_dir_path
          (prepare_lua_queue_constants kind) redis h
        >>= λ loaded. make_user_queue server kind now loaded.0 loaded.1 loaded.2 in
      if kind == "lua_driven_bins_queue"
      then elim ping [
        | some err ↦
            panic (fatal "Redis is required for Lua queues but failed to respond a ping request")
        | none ↦ scripted
      ]
      else default
