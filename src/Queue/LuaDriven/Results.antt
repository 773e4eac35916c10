-- ===== src/Queue/LuaDriven/Results.antt =====
-- What the scripts answer, and how it is read: lua_postprocessors.go of
-- internal/throttle/queue/impl/redis_queue and the postprocessors of internal/lua_config/lua_queue.
use goqueuesim.Common.{
  ℕ, zero, suc, Bool, true, false, Option, none, some, List, [], ◌∷◌, String, if◌then◌else◌, ℤ, pos,
  ◌*ℤ◌,
}
use goqueuesim.Common.Map.{string_key, ◌==◌}
use goqueuesim.Common.Word.{i64}
use goqueuesim.Common.Clock.{Time, Duration, millisecond, add_time}
use goqueuesim.Common.Text.{format_int}
use goqueuesim.Common.Panic.{
  Outcome, ok, panic, ◌>>=◌, fatal, index_out_of_range, nil_client, type_assertion,
}
use goqueuesim.Common.Float.{Float64, millis}
use goqueuesim.Client.{Client, set_throttle_cookie_val, advise_poll_after}
use goqueuesim.LuaConfig.{Postprocessor, default_postprocessor, minimalist, nobins}

-- An interface{} value of the client library: the entries of a reply, and a whole reply.
pub data Scalar : Type 0 where
  nil other : Scalar
  int : ℤ → Scalar
  string : String → Scalar

pub data Value : Type 0 where
  tuple : List Scalar → Value
  not_tuple : Value

abbrev pub lua_user_bin_key : String
lua_user_bin_key = "luaUserBinId"

abbrev pub lua_user_pos_key : String
lua_user_pos_key = "luaUserQueuePos"

-- `resultTuple[n]`
unfoldable pub nth : ℕ → List Scalar → Outcome Scalar
nth n [] = panic index_out_of_range
nth zero (x ∷ xs) = ok x
nth (suc n) (x ∷ xs) = nth n xs

-- `.(int64)` and `.(string)`
unfoldable pub as_int : Scalar → Outcome ℤ
as_int (int n) = ok n
as_int nil = panic type_assertion
as_int other = panic type_assertion
as_int (string s) = panic type_assertion

unfoldable pub as_string : Scalar → Outcome String
as_string (string s) = ok s
as_string nil = panic type_assertion
as_string other = panic type_assertion
as_string (int n) = panic type_assertion

-- The message that is logged: `resultTuple[1].(string)`
unfoldable pub post_other : List Scalar → Outcome String
post_other result = nth 1 result >>= as_string

-- The cookie values and the advice of an arrival; a method that fails on an unlocked client changes
-- nothing.
unfoldable pub arrived : ℤ → Time → Duration → Client → Client
arrived queue_pos now wait c =
    (advise_poll_after (add_time now wait)
      (set_throttle_cookie_val lua_user_pos_key (format_int queue_pos) c).0).0

unfoldable pub arrived_in : ℤ → ℤ → Time → Duration → Client → Client
unfolding arrived
arrived_in bin_idx queue_pos now wait c =
    arrived queue_pos now wait (set_throttle_cookie_val lua_user_bin_key (format_int bin_idx) c).0

-- `(float64(totalClients) / float64(p.MaxCps)) * 1000`, in milliseconds
unfoldable pub wait_for : (fl : Float64) → ℤ → ℤ → Duration
wait_for fl total_clients max_cps =
    millis fl (fl.mul (fl.div (fl.of_int total_clients) (fl.of_int max_cps)) (fl.literal 1000 1))

-- PostprocessParams; its feedback is never read.
pub record PostprocessParams : Type 0 where
  pub result_tuple : List Scalar
  -- the nil interface where the method has no client
  pub c : Option Client

pub record PostprocessResult : Type 0 where
  pub poll_result : Bool
  pub size_result : ℤ

abbrev pub no_result : PostprocessResult
no_result = record { poll_result = false; size_result = pos 0 }

-- The calls of methods on the client, which panic on the nil interface.
unfoldable pub on_client : (Client → Client) → Option Client → Outcome (Option Client)
on_client change none = panic nil_client
on_client change (some c) = ok (some (change c))

-- PostprocessLuaResult for `add`, of the three postprocessors
unfoldable pub default_post_add : Time → PostprocessParams → Outcome (Option Client)
default_post_add now p = do
  bin_idx ← nth 2 p.result_tuple >>= as_int
  queue_pos ← nth 3 p.result_tuple >>= as_int
  wait_ms ← nth 4 p.result_tuple >>= as_int
  c' ← on_client (arrived_in bin_idx queue_pos now (i64 (wait_ms *ℤ pos millisecond))) p.c
  _ ← post_other p.result_tuple
  ok c'

unfoldable pub minimalist_post_add :
    (fl : Float64) → ℤ → Time → PostprocessParams → Outcome (Option Client)
minimalist_post_add fl max_cps now p = do
  bin_idx ← nth 2 p.result_tuple >>= as_int
  total_clients ← nth 3 p.result_tuple >>= as_int
  c' ← on_client (arrived_in bin_idx total_clients now (wait_for fl total_clients max_cps)) p.c
  _ ← post_other p.result_tuple
  ok c'

unfoldable pub nobins_post_add :
    (fl : Float64) → ℤ → Time → PostprocessParams → Outcome (Option Client)
nobins_post_add fl max_cps now p = do
  total_clients ← nth 2 p.result_tuple >>= as_int
  c' ← on_client (arrived total_clients now (wait_for fl total_clients max_cps)) p.c
  _ ← post_other p.result_tuple
  ok c'

-- PostprocessLuaResult for `poll`, the same in all three
unfoldable pub post_poll : List Scalar → Outcome Bool
post_poll result = do
  _ ← post_other result
  answer ← nth 2 result >>= as_string
  if answer == "pass"
      then ok true
      else if answer == "reject"
      then ok false
      else panic (fatal "unexpected poll result")

-- PostprocessLuaResult for `size`
unfoldable pub post_size : List Scalar → Outcome ℤ
post_size result = do _ ← post_other result; nth 2 result >>= as_int

-- The cases of the switch on the method's name
pub data Method : Type 0 where
  adding polling sizing another : Method

unfoldable pub method_of : String → Method
method_of name =
    if name == "add"
    then adding
    else if name == "poll"
    then polling
    else if name == "size"
    then sizing
    else another

-- PostprocessLuaResult but for its case `add`, and with what that case does to the client.
unfoldable pub post_with :
    (PostprocessParams → Outcome (Option Client))
    → Method
    → PostprocessParams
    → Outcome (Option Client × PostprocessResult)
post_with add adding p = do c' ← add p; ok (c', no_result)
post_with add polling p = do
  passed ← post_poll p.result_tuple
  ok (p.c, record no_result { poll_result = passed })
post_with add sizing p = do
  total ← post_size p.result_tuple
  ok (p.c, record no_result { size_result = total })
post_with add another p = do _ ← post_other p.result_tuple; ok (p.c, no_result)

-- PostprocessLuaResult of each postprocessor; `now` is read for `add` only.
unfoldable pub default_postprocess :
    Time → String → PostprocessParams → Outcome (Option Client × PostprocessResult)
unfolding post_with default_post_add method_of
default_postprocess now name p = post_with (default_post_add now) (method_of name) p

unfoldable pub minimalist_postprocess :
    (fl : Float64)
    → ℤ
    → Time
    → String
    → PostprocessParams
    → Outcome (Option Client × PostprocessResult)
unfolding post_with minimalist_post_add method_of
minimalist_postprocess fl max_cps now name p =
    post_with (minimalist_post_add fl max_cps now) (method_of name) p

unfoldable pub nobins_postprocess :
    (fl : Float64)
    → ℤ
    → Time
    → String
    → PostprocessParams
    → Outcome (Option Client × PostprocessResult)
unfolding post_with nobins_post_add method_of
nobins_postprocess fl max_cps now name p =
    post_with (nobins_post_add fl max_cps now) (method_of name) p

unfoldable pub postprocess_lua_result :
    (fl : Float64)
    → Postprocessor
    → Time
    → String
    → PostprocessParams
    → Outcome (Option Client × PostprocessResult)
unfolding default_postprocess minimalist_postprocess nobins_postprocess
postprocess_lua_result fl default_postprocessor now name p = default_postprocess now name p
postprocess_lua_result fl (minimalist max_cps) now name p =
    minimalist_postprocess fl max_cps now name p
postprocess_lua_result fl (nobins max_cps) now name p = nobins_postprocess fl max_cps now name p
