-- ===== src/Polling/Responses.antt =====
-- BaseClient.HandleResponse and delegateResponseTo (internal/client/impl/base_client.go).
use goqueuesim.Common.{not, Option, none, some, if◌then◌else◌}
use goqueuesim.Common.Map.{string_key}
use goqueuesim.Common.Clock.{is_zero}
use goqueuesim.Common.Panic.{Outcome, ok, panic, ◌>>=◌, asymmetric_data}
use goqueuesim.Client.{
  Client, Error, ThrottleState, initial, queued, in_checkout, exited, state_string, mark_exited,
  advise_poll_after,
}
use goqueuesim.Network.{MockResponse}
use goqueuesim.Polling.{
  Net, stop_polling, send_initial_checkout_request, Loop, returned, start_polling,
}

-- The switch of BaseClient.delegateResponseTo on the client's state, with the goroutine that it
-- starts.
unfoldable pub respond_in : ThrottleState → Client → Net → Outcome (Client × Net × Loop)
respond_in initial c net = do
  (c', net') ← send_initial_checkout_request c net
  ok (c', net', returned)
respond_in queued c net = start_polling c net
respond_in in_checkout c net = do
  (c', left, _) ← mark_exited c net.waiting
  (c'', _) ← stop_polling c'
  ok (c'', record net { waiting = left }, returned)
respond_in exited c net = ok (c, net, returned)

-- BaseClient.delegateResponseTo
unfoldable pub delegate_response_to : Client → MockResponse → Net → Outcome (Client × Net × Loop)
unfolding state_string advise_poll_after
delegate_response_to c resp net =
    let advised : Client =
      if not (is_zero resp.client_data.advised_poll_after)
      then (advise_poll_after resp.client_data.advised_poll_after c).0
      else c in
    if not (string_key.same resp.client_data.throttle_state (state_string c.state))
    then panic asymmetric_data
    else respond_in c.state advised net

-- HandleResponse of every client type
unfoldable pub handle_response :
    MockResponse → Client → Net → Outcome (Client × Net × Loop × Option Error)
handle_response resp c net =
    let handle : Outcome (Client × Net × Loop × Option Error) = do
      (c', net', loop) ← delegate_response_to c resp net
      ok (c', net', loop, none)
    in if not c.is_locked
      then ok (c, net, returned, some "lock required to handle server response")
      else handle
