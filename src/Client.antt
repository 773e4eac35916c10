-- ===== src/Client.antt =====
-- internal/client/throttle_state.go and internal/client/impl/base_client.go: the client's record,
-- its lock, its throttle cookie and the marks of its state. A method that mutates `*BaseClient`
-- returns the new record, with the error where the method returns one.
pub mod Cookies
use goqueuesim.Common.{
  ℕ, zero, suc, String, ◌≡◌, refl, ◌⊎◌, Bool, true, false, ◌&&◌, Option, none, some, [], arith,
  if◌then◌else◌, ℤ, pos,
}
use goqueuesim.Common.Map.{Map, string_key, lookup, insert, delete}
use goqueuesim.Common.Clock.{Time, Duration, zero_time, sub_time}
use goqueuesim.Common.Panic.{Outcome, ok, panic, negative_wait_group, ◌>>=◌}

-- type ThrottleState
pub data ThrottleState : Type 0 where
  initial queued in_checkout exited : ThrottleState

-- ThrottleState.String
unfoldable pub state_string : ThrottleState → String
state_string initial = "initial"
state_string queued = "queued"
state_string in_checkout = "inCheckout"
state_string exited = "exited"

abbrev pub throttle_state_key : String
throttle_state_key = "ThrottleState"

abbrev pub state_eq : ThrottleState → ThrottleState → Bool
state_eq initial initial = true
state_eq queued queued = true
state_eq in_checkout in_checkout = true
state_eq exited exited = true
state_eq _ _ = false

-- A `chan struct{}` that is only ever closed.
pub data Stopper : Type 0 where
  nil_channel open_channel closed_channel : Stopper

-- A `*time.Timer`: nil, stopped or expired, or running for a duration.
pub data Timer : Type 0 where
  nil_pointer stopped : Timer
  running : Duration → Timer

-- What each client type adds to BaseClient.
pub data ClientKind : Type 0 where
  routinely_polling : ClientKind
  -- PollsBeforeDisappearing
  fully_disappearing : ℤ → ClientKind
  -- MaxSleepMs
  lazy_polling : ℤ → ClientKind
  -- MaximumBackoff
  exponential_backoff : Duration → ClientKind
  -- windowCheaterOnly, greedyPollsCount, earlyPollLeadTime, windowDur
  jit_greedy : Bool → ℤ → Duration → Duration → ClientKind

-- type BaseClient. The wait group and the request channel are shared by all clients and stand
-- outside; the context, the mutex and the random delays do not enter the state.
pub record Client : Type 0 where
  pub id : ℤ
  pub label : String
  pub kind : ClientKind
  pub default_poll_interval : Duration
  pub max_initial_delay_ms : ℤ
  pub max_network_jitter_ms : ℤ
  pub obeys_poll_after : Bool
  pub started_polling : Bool
  pub poll_stopper : Stopper
  pub hit_checkout_step : Bool
  pub advised_poll_after : Time
  pub state : ThrottleState
  pub queue_entry_time : Time
  pub queue_exit_time : Time
  pub is_locked : Bool
  pub poll_timer : Timer
  -- `none` is the nil map.
  pub throttle_cookie : Option (Map String String)

abbrev pub Error : Type 0
Error = String

-- BaseClient.Lock and Unlock, once the mutex is held: the flag that the methods test.
unfoldable pub lock : Client → Client
lock c = record c { is_locked = true }

unfoldable pub unlock : Client → Client
unlock c = record c { is_locked = false }

-- BaseClient.QueueDuration
unfoldable pub queue_duration : Client → Duration
queue_duration c = sub_time c.queue_exit_time c.queue_entry_time

abbrev pub cookie_error : Error
cookie_error = "lock required to mutate throttle cookie"

abbrev pub made : Option (Map String String) → Map String String
made none = []
made (some m) = m

-- BaseClient.SetThrottleCookieVal
unfoldable pub set_throttle_cookie_val : String → String → Client → Client × Option Error
set_throttle_cookie_val key value c =
    if c.is_locked
    then (record c { throttle_cookie = some (insert key value (made c.throttle_cookie)) }, none)
    else (c, some cookie_error)

abbrev pub found : Option String → String × Bool
found none = ("", false)
found (some v) = (v, true)

abbrev pub read_cookie : String → Option (Map String String) → String × Bool
read_cookie key none = ("", false)
read_cookie key (some m) = found (lookup key m)

-- BaseClient.GetThrottleCookieVal
unfoldable pub get_throttle_cookie_val : String → Client → String × Bool
get_throttle_cookie_val key c =
    if c.is_locked then read_cookie key c.throttle_cookie else ("", false)

abbrev dropped : String → Option (Map String String) → Option (Map String String)
dropped key none = none
dropped key (some m) = some (delete key m)

-- BaseClient.RemoveThrottleCookieVal
unfoldable pub remove_throttle_cookie_val : String → Client → Client × Option Error
remove_throttle_cookie_val key c =
    if c.is_locked
    then (record c { throttle_cookie = dropped key c.throttle_cookie }, none)
    else (c, some cookie_error)

-- BaseClient.ClearThrottleCookie
unfoldable pub clear_throttle_cookie : Client → Client × Option Error
clear_throttle_cookie c =
    if c.is_locked then (record c { throttle_cookie = some [] }, none) else (c, some cookie_error)

-- BaseClient.IsQueued, InCheckout, HasExited
unfoldable pub is_queued : Client → Bool
is_queued c = state_eq c.state queued

unfoldable pub is_in_checkout : Client → Bool
is_in_checkout c = state_eq c.state in_checkout

unfoldable pub has_exited : Client → Bool
has_exited c = state_eq c.state exited

abbrev pub state_error : Error
state_error = "lock required to mutate throttle state"

-- BaseClient.MarkQueued; `now` is the time that it reads.
unfoldable pub mark_queued : Time → Client → Client × Option Error
unfolding set_throttle_cookie_val state_string
mark_queued now c =
    if c.is_locked
    then (
      (set_throttle_cookie_val throttle_state_key (state_string queued)
          (record c { queue_entry_time = now; state = queued })).0,
      none,
    )
    else (c, some state_error)

-- BaseClient.MarkInCheckout
unfoldable pub mark_in_checkout : Time → Client → Client × Option Error
unfolding set_throttle_cookie_val state_string
mark_in_checkout now c =
    if c.is_locked
    then (
      let c' =
            (set_throttle_cookie_val throttle_state_key (state_string in_checkout)
              (record c { state = in_checkout })).0 in
          record c' { queue_exit_time = now; hit_checkout_step = true },
      none,
    )
    else (c, some state_error)

-- sync.WaitGroup.Done, on the counter
unfoldable pub wait_group_done : ℕ → Outcome ℕ
wait_group_done zero = panic negative_wait_group
wait_group_done (suc n) = ok n

-- BaseClient.MarkExited, with the counter of ClientsFinishedWaitGroup
unfoldable pub mark_exited : Client → ℕ → Outcome (Client × ℕ × Option Error)
unfolding set_throttle_cookie_val state_string wait_group_done
mark_exited c waiting =
    let left : Outcome (Client × ℕ × Option Error) = do
      n ← wait_group_done waiting
      ok (
        (set_throttle_cookie_val throttle_state_key (state_string exited)
            (record c { state = exited })).0,
        n,
        none,
      )
    in if c.is_locked then left else ok (c, waiting, some state_error)

-- BaseClient.AdvisePollAfter
unfoldable pub advise_poll_after : Time → Client → Client × Option Error
advise_poll_after t c =
    if c.is_locked
    then (record c { advised_poll_after = t }, none)
    else (c, some "lock required to mutate advised poll after")
