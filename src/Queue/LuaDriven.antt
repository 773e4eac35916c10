-- ===== src/Queue/LuaDriven.antt =====
-- internal/throttle/queue/impl/redis_queue/lua_driven_queue.go, lua_param_builders.go and the builders of
-- lua_config/lua_queue/param_builders, with MakeLuaDrivenBinsQueue: a queue that lives in a Redis
-- server and is driven by Lua scripts. EVALSHA of the Redis client and the runtime's conversions are
-- parameters. The lists of keys and arguments are the slices of the parameters, on a heap.
pub mod Results
pub mod Shapes
pub mod Stock
pub mod Arguments
use Prim.Native.String
use goqueuesim.Common.{
  ℕ, zero, suc, ◌≡◌, Bool, true, false, Option, none, some, List, [], ◌∷◌, ◌++◌, String,
  if◌then◌else◌, ℤ, pos, negsuc, ◌+ℤ◌, ◌-ℤ◌, ◌*ℤ◌, leb_ℤ, length,
}
use goqueuesim.Common.Map.{Map, string_key, lookup_or}
use goqueuesim.Common.Word.{i64}
use goqueuesim.Common.Clock.{Time, zero_time, unix}
use goqueuesim.Common.Text.{format_int}
use goqueuesim.Common.Panic.{Outcome, ok, panic, ◌>>=◌, fatal, type_assertion}
use goqueuesim.Common.Float.{Float64}
use goqueuesim.Common.Slice.{Heap, Slice, read, append}
use goqueuesim.Client.{Client, get_throttle_cookie_val}
use goqueuesim.Counter.{AtomicCounter, atomic_read}
use goqueuesim.Counter
use goqueuesim.Tracker.{Feedback}
use goqueuesim.LuaConfig.{
  LuaQueueParams, prefixed_keys, empty_slice, ArgsBuilder, noop_args, notimers_args, ktimers_args,
  nobins_args,
}
use goqueuesim.Queue.SortedSet.{Reply, or_panic}
use Results.{
  Value, tuple, Scalar, nil, int, string, lua_user_bin_key, lua_user_pos_key, nth, as_string,
  PostprocessResult, postprocess_lua_result,
}

-- What the queue calls and does not define: EVALSHA; strconv.FormatFloat(x, 'f', -1, 64); `string(n)`
-- of an int, the text of the code point n; and the room that append leaves in a new array.
pub record LuaCalls (fl : Float64) (R : Type 0) : Type 0 where
  pub eval_sha : String → List String → List String → R → Reply (R × Value)
  pub format_float : fl.Carrier → String
  pub rune_string : ℤ → String
  pub spare : ℕ → ℕ

-- The inventory counter, which all share, is an argument of the calls that read it.
pub record LuaDrivenQueue (R : Type 0) : Type 0 where
  pub redis : R
  pub heap : Heap
  pub params : LuaQueueParams
  pub total_polls_count : ℤ

-- MakeLuaDrivenBinsQueue
unfoldable pub make_lua_driven_bins_queue :
    {R : Type 0} → R → Heap → LuaQueueParams → LuaDrivenQueue R
make_lua_driven_bins_queue redis heap params = record {
  redis = redis;
  heap = heap;
  params = params;
  total_polls_count = pos 0;
}

-- `remInventory, _ := ldq.GlobalInventoryCounter.AtomicRead()`, under the lock that the call takes
unfoldable pub remaining : AtomicCounter → ℤ
unfolding atomic_read Counter.lock
remaining counter = (atomic_read (Counter.lock counter)).0

module _ {fl : Float64} {R : Type 0} (calls : LuaCalls fl R) where
  -- PreprocessArgs of the builders that add arguments, for the method `poll`; for the other methods
  -- they return what they are given, as PreprocessKeys always does.
  unfoldable pub notimers_poll_args : Time → Slice → Heap → Heap × Slice
  notimers_poll_args now args h =
      append calls.spare args (format_int (i64 (unix now *ℤ pos 1000)) ∷ []) h

  unfoldable pub ktimers_poll_args : Time → Slice → Heap → Heap × Slice
  ktimers_poll_args now args h =
      append calls.spare args (format_int (i64 (unix now -ℤ pos 1)) ∷ format_int (unix now) ∷ []) h

  unfoldable pub nobins_poll_args : String → Time → Slice → Heap → Heap × Slice
  nobins_poll_args incr now args h =
      append calls.spare args (incr ∷ format_int (i64 (unix now *ℤ pos 1000)) ∷ []) h

  unfoldable pub preprocess_poll_args : ArgsBuilder → Time → Slice → Heap → Heap × Slice
  preprocess_poll_args noop_args now args h = (h, args)
  preprocess_poll_args notimers_args now args h = notimers_poll_args now args h
  preprocess_poll_args ktimers_args now args h = ktimers_poll_args now args h
  preprocess_poll_args (nobins_args incr) now args h = nobins_poll_args incr now args h

  -- redisLuaResultOrDie
  unfoldable pub redis_lua_result_or_die :
      String → List String → List String → R → Outcome (R × List Scalar)
  redis_lua_result_or_die sha keys args redis = do
    answer ← or_panic (calls.eval_sha sha keys args redis)
    elim answer.1 [
      | tuple result ↦ do
        first ← nth 0 result
        elim first [
          | nil ↦ nth 1 result >>= as_string >>= λ err. panic (fatal err)
          | _ ↦ ok (answer.0, result)
        ]
      | _ ↦ panic type_assertion
    ]

  -- withClientScopedKeys, with prependPrefix
  unfoldable pub with_client_scoped_keys : String → String → LuaDrivenQueue R → Heap × Slice
  unfolding prefixed_keys
  with_client_scoped_keys method client_id q =
      let shop_keys = lookup_or empty_slice method q.params.method_to_shop_scope_keys in
      let prefix =
        String.◌++◌ q.params.queue_scope_prefix
          (String.◌++◌ ":client_id:" (String.◌++◌ client_id ":")) in
      let client_keys = lookup_or empty_slice method q.params.method_to_client_scope_keys in
      append calls.spare shop_keys (prefixed_keys prefix (read q.heap client_keys)) q.heap

  -- `if v, ok := c.GetThrottleCookieVal(key); ok { args = append(args, v) }`
  unfoldable pub append_cookie : String → Client → Heap × Slice → Heap × Slice
  append_cookie key c made =
      let (value, found) = get_throttle_cookie_val key c in
      if found then append calls.spare made.1 (value ∷ []) made.0 else made

  -- argsWithClientData
  unfoldable pub args_with_client_data : String → Client → LuaDrivenQueue R → Heap × Slice
  args_with_client_data method c q = append_cookie lua_user_pos_key c (
      append_cookie lua_user_bin_key c
        (q.heap, lookup_or empty_slice method q.params.method_to_constant_args))

  -- The script of a method, on the keys and arguments that two slices of the heap hold.
  unfoldable pub run_script :
      String → Slice → Slice → LuaDrivenQueue R → Outcome (LuaDrivenQueue R × List Scalar)
  run_script method keys args q = do
    answer ←
        redis_lua_result_or_die (lookup_or "" method q.params.method_to_sha) (read q.heap keys)
          (read q.heap args) q.redis
    ok (record q { redis = answer.0 }, answer.1)

  -- The client after a call that was given it.
  abbrev pub client_or : Client → Option Client → Client
  client_or c none = c
  client_or c (some c') = c'

  -- `ldq.Postprocessor.PostprocessLuaResult(methodKey, …)`; the time counts for `add` only.
  unfoldable pub post_process :
      Time
      → String
      → Option Client
      → LuaDrivenQueue R × List Scalar
      → Outcome (Option Client × PostprocessResult)
  unfolding postprocess_lua_result
  post_process now method c answer =
      postprocess_lua_result fl answer.0.params.postprocessor now method
        (record { result_tuple = answer.1; c = c })

  unfoldable pub add :
      Time → AtomicCounter → LuaDrivenQueue R → Client → Outcome (LuaDrivenQueue R × Client)
  add now counter q c =
      let (h, keys) = with_client_scoped_keys "add" (calls.rune_string c.id) q in
      let args = lookup_or empty_slice "add" q.params.method_to_constant_args in
      if leb_ℤ (remaining counter) (pos 0) then ok (q, c) else do
        answer ← run_script "add" keys args (record q { heap = h })
        post ← post_process now "add" (some c) answer
        ok (answer.0, client_or c post.0)

  unfoldable pub remove : AtomicCounter → LuaDrivenQueue R → Client → Outcome (LuaDrivenQueue R)
  remove counter q c =
      let (h, keys) = with_client_scoped_keys "remove" (calls.rune_string c.id) q in
      let (h', args) = args_with_client_data "remove" c (record q { heap = h }) in
      if leb_ℤ (remaining counter) (negsuc 0) then ok q else do
        answer ← run_script "remove" keys args (record q { heap = h' })
        _ ← post_process zero_time "remove" (some c) answer
        ok answer.0

  unfoldable pub is_candidate_to_proceed :
      Time → AtomicCounter → LuaDrivenQueue R → Client → Outcome (LuaDrivenQueue R × Bool)
  is_candidate_to_proceed now counter q c =
      let polled = record q { total_polls_count = i64 (q.total_polls_count +ℤ pos 1) } in
      let (h, keys) = with_client_scoped_keys "poll" (calls.rune_string c.id) polled in
      let (h', args) = args_with_client_data "poll" c (record polled { heap = h }) in
      let (h'', all_args) = preprocess_poll_args q.params.args_builder now args h' in
      if leb_ℤ (remaining counter) (pos 0) then ok (polled, false) else do
        answer ← run_script "poll" keys all_args (record polled { heap = h'' })
        post ← post_process now "poll" (some c) answer
        ok (answer.0, post.1.poll_result)

  unfoldable pub size : LuaDrivenQueue R → Outcome (LuaDrivenQueue R × ℤ)
  size q = do
    answer ←
        run_script "size" (lookup_or empty_slice "size" q.params.method_to_shop_scope_keys)
          (lookup_or empty_slice "size" q.params.method_to_constant_args) q
    post ← post_process zero_time "size" none answer
    ok (answer.0, post.1.size_result)

  -- ReceiveTrackerFeedback, which prints the size first
  unfoldable pub receive_tracker_feedback :
      Feedback fl → LuaDrivenQueue R → Outcome (LuaDrivenQueue R)
  receive_tracker_feedback m q = do
    sized ← size q
    let constants = lookup_or empty_slice "receive_feedback" q.params.method_to_constant_args
    let (h, args) =
        append calls.spare constants
          (calls.format_float m.checkout_util ∷ calls.format_float m.polling_util ∷ []) sized.0.heap
    answer ←
        run_script "receive_feedback"
          (lookup_or empty_slice "receive_feedback" q.params.method_to_shop_scope_keys) args
          (record sized.0 { heap = h })
    _ ← post_process zero_time "receive_feedback" none answer
    ok answer.0

  unfoldable pub clear : LuaDrivenQueue R → Outcome (LuaDrivenQueue R)
  clear q = do
    let keys = lookup_or empty_slice "clear" q.params.method_to_shop_scope_keys
    let (h, args) =
        append calls.spare (lookup_or empty_slice "clear" q.params.method_to_constant_args)
          (format_int (pos keys.len) ∷ []) q.heap
    answer ← run_script "clear" keys args (record q { heap = h; total_polls_count = pos 0 })
    _ ← post_process zero_time "clear" none answer
    ok answer.0
