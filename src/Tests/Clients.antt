-- ===== src/Tests/Clients.antt =====
-- Cookies, numbers and polling on concrete clients.
use goqueuesim.Common.{◌≡◌, refl, inl, true, false, none, [], ◌∷◌, arith, pos, length}
use goqueuesim.Common.Panic.{ok, panic, nil_timer}
use goqueuesim.Common.Float.{fractions}
use goqueuesim.Client.{Client, queued, in_checkout, exponential_backoff, running, open_channel}
use goqueuesim.Network.{make_server_response, session_data}
use goqueuesim.Polling.{Net, start_polling, polling, returned}
use goqueuesim.Polling.Rounds.{Tick, rounds, backoff_delay}
use goqueuesim.Polling.Backoff.{start_polling_full, rounds_keep_delay}
use goqueuesim.Polling.Responses.{handle_response}
use goqueuesim.Polling.Leaving.{HasLeft, handle_response_leaves}
use goqueuesim.Tests.{client_in}

abbrev roomy : Net
roomy = record { requests = []; capacity = 3; waiting = 2 }

abbrev full : Net
full = record { requests = []; capacity = 0; waiting = 2 }

abbrev backing_off : Client
backing_off = record (client_in (pos 1) queued) {
  kind = exponential_backoff (pos 60_000_000_000);
  started_polling = true;
  poll_stopper = open_channel;
  poll_timer = running (pos 1_000_000_000);
}

abbrev any_tick : Tick
any_tick = record { now = pos 5; reset_at = pos 5; skips = false; nap = pos 0 }

rounds_keep_delay_example :
    (c' : Client) × (net' : Net) × (rounds fractions
        (any_tick ∷ any_tick ∷ [])
        (polling (pos 1))
        backing_off
        roomy
      ≡ ok (c', net', polling (pos 1)))
    × (c'.poll_timer
        ≡ running (backoff_delay fractions (pos 1) (pos 1_000_000_000) (pos 60_000_000_000)))
    × (length net'.requests ≡ 2)
rounds_keep_delay_example =
    rounds_keep_delay fractions (pos 60_000_000_000) (pos 1_000_000_000) (any_tick ∷ []) any_tick
      (pos 1_000_000_000) backing_off roomy
      (record { kind = refl; waits = refl; jitter = omega arith; timer = refl }) refl (omega arith)

start_polling_full_example : start_polling (client_in (pos 1) queued) full ≡ panic nil_timer
start_polling_full_example =
    start_polling_full (client_in (pos 1) queued) full 1 tt refl refl refl refl refl refl

handle_response_leaves_example :
    (c' : Client) × (handle_response
        (make_server_response (session_data (client_in (pos 1) in_checkout)))
        (client_in (pos 1) in_checkout)
        roomy
      ≡ ok (c', record roomy { waiting = 1 }, returned, none))
    × HasLeft (client_in (pos 1) in_checkout) c'
unfolding make_server_response session_data
handle_response_leaves_example =
    handle_response_leaves (make_server_response (session_data (client_in (pos 1) in_checkout)))
      (client_in (pos 1) in_checkout) roomy 1 refl refl refl (inl refl) refl
