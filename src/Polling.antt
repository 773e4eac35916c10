-- ===== src/Polling.antt =====
-- The polling half of the clients: internal/client/impl/base_client.go and the four client types
-- that embed BaseClient and replace StartPolling. All clients share the request channel and the wait
-- group. Random delays only pass time; what is kept of rand.Intn is its panic.
pub mod Rounds
pub mod Responses
pub mod Backoff
pub mod Leaving
pub mod Sending
pub mod Acting
pub mod Turns
pub mod Stages
pub mod Pace
pub mod Alone
use goqueuesim.Common.{
  ℕ, zero, suc, ◌≡◌, Bool, true, false, ◌&&◌, ◌||◌, not, Option, none, some, List, [], ◌∷◌, ◌++◌,
  if◌then◌else◌, ltb, ℤ, pos, ◌+ℤ◌, ◌-ℤ◌, ◌*ℤ◌, leb_ℤ, length,
}
use goqueuesim.Common.Word.{i64}
use goqueuesim.Common.Clock.{Time, Duration, is_zero, before, sub_time, millisecond, second}
use goqueuesim.Common.Panic.{
  Outcome, ok, panic, ◌>>=◌, rem, nil_timer, close_of_nil_channel, close_of_closed_channel,
  invalid_intn,
}
use goqueuesim.Common.Float.{Float64, seconds}
use goqueuesim.Client.{
  Client, Error, ClientKind, routinely_polling, fully_disappearing, lazy_polling,
  exponential_backoff, jit_greedy, Timer, nil_pointer, stopped, running, Stopper, nil_channel,
  open_channel, closed_channel, lock, unlock, is_queued, mark_exited,
}
use goqueuesim.Network.{MockRequest, make_checkout_request, make_poll_request, session_data}

-- The request channel, its capacity, and the counter of ClientsFinishedWaitGroup.
pub record Net : Type 0 where
  pub requests : List MockRequest
  pub capacity : ℕ
  pub waiting : ℕ

-- rand.Intn(n), but for the number
unfoldable pub rand_intn : ℤ → Outcome (Unit {0})
rand_intn n = if leb_ℤ n (pos 0) then panic invalid_intn else ok tt

abbrev pub polling_error : Error
polling_error = "lock required to mutate polling state"

-- bc.pollTimer.Stop()
unfoldable pub stop_timer : Timer → Outcome Timer
stop_timer nil_pointer = panic nil_timer
stop_timer stopped = ok stopped
stop_timer (running d) = ok stopped

-- close(bc.PollStopper)
unfoldable pub close_stopper : Stopper → Outcome Stopper
close_stopper nil_channel = panic close_of_nil_channel
close_stopper open_channel = ok closed_channel
close_stopper closed_channel = panic close_of_closed_channel

-- BaseClient.StopPolling
unfoldable pub stop_polling : Client → Outcome (Client × Option Error)
unfolding stop_timer close_stopper
stop_polling c =
    let stop : Outcome (Client × Option Error) = do
      timer ← stop_timer c.poll_timer
      stopper ← close_stopper c.poll_stopper
      ok (record c { started_polling = false; poll_timer = timer; poll_stopper = stopper }, none)
    in if not c.is_locked
      then ok (c, some polling_error)
      else if not c.started_polling
      then ok (c, none)
      else stop

-- BaseClient.dieOnRequestTimeout: the send has a default case, so a full channel kills the client.
unfoldable pub die_on_request_timeout : MockRequest → Client → Net → Outcome (Client × Net)
die_on_request_timeout request c net =
    let die : Outcome (Client × Net) = do
      (c', left, _) ← mark_exited c net.waiting
      (c'', _) ← stop_polling c'
      ok (c'', record net { waiting = left })
    in if ltb (length net.requests) net.capacity
      then ok (c, record net { requests = net.requests ++ request ∷ [] })
      else die

-- BaseClient.SendInitialCheckoutRequest
unfoldable pub send_initial_checkout_request : Client → Net → Outcome (Client × Net)
send_initial_checkout_request c net = do
  _ ← rand_intn c.max_initial_delay_ms
  die_on_request_timeout (make_checkout_request (session_data c)) c net

-- BaseClient.makeSinglePollRequest; its error is always ignored.
unfoldable pub make_single_poll_request : Client → Net → Outcome (Client × Net)
make_single_poll_request c net =
    let stop : Outcome (Client × Net) = do (c', _) ← stop_polling c; ok (c', net)
    in let c' = record c { started_polling = true } in
      if not c.is_locked
      then ok (c, net)
      else if not (is_queued c)
      then stop
      else die_on_request_timeout (make_poll_request (session_data c')) c' net

-- A polling goroutine between two rounds of its loop, with its pollsSoFar, or after its return.
pub data Loop : Type 0 where
  polling : ℤ → Loop
  returned : Loop

-- `bc.PollStopper = make(chan struct{})`, `bc.pollTimer = time.NewTimer(d)` and the `go` statement
unfoldable pub spawn : Duration → ℤ → Client → Net → Client × Net × Loop
spawn d polls c net =
    (record c { poll_stopper = open_channel; poll_timer = running d }, net, polling polls)

-- The start that most client types share: one poll, then the goroutine, if the poll went out.
unfoldable pub start_with : Outcome Duration → Client → Net → Outcome (Client × Net × Loop)
unfolding spawn
start_with delay c net =
    let spawned : Client → Net → Outcome (Client × Net × Loop) =
      λ c' net'. do d ← delay; ok (spawn d (pos 1) c' net')
    in let begin : Outcome (Client × Net × Loop) = do
      (c', net') ← make_single_poll_request c net
      if not c'.started_polling then ok (c', net', returned) else spawned c' net'
      in if c.started_polling || not c.is_locked then ok (c, net, returned) else begin

-- FullyDisappearingClient.StartPolling
unfoldable pub start_disappearing : ℤ → Client → Net → Outcome (Client × Net × Loop)
unfolding spawn
start_disappearing polls_before_disappearing c net =
    let begin : Outcome (Client × Net × Loop) = do
      (c', net') ← make_single_poll_request c net
      if not c'.started_polling
          then ok (c', net', returned)
          else ok (spawn c.default_poll_interval (pos 1) c' net')
    in if c.started_polling || not (is_queued c) || not c.is_locked
      then ok (c, net, returned)
      else if leb_ℤ (pos 1) polls_before_disappearing
      then begin
      else ok (spawn c.default_poll_interval (pos 0) c net)

-- StartPolling of each client type. The goroutine's pollsSoFar is the counter of that name where the
-- type has one.
unfoldable pub start_polling_of : ClientKind → Client → Net → Outcome (Client × Net × Loop)
unfolding start_with start_disappearing
start_polling_of routinely_polling c net = start_with (ok c.default_poll_interval) c net
start_polling_of (fully_disappearing n) c net = start_disappearing n c net
start_polling_of (lazy_polling _) c net = start_with (ok c.default_poll_interval) c net
start_polling_of (exponential_backoff _) c net = start_with (ok c.default_poll_interval) c net
start_polling_of (jit_greedy _ _ lead window) c net =
    start_with (rem (i64 (window -ℤ lead)) window) c net

unfoldable pub start_polling : Client → Net → Outcome (Client × Net × Loop)
unfolding start_polling_of
start_polling c net = start_polling_of c.kind c net
