-- ===== src/Polling/Backoff.antt =====
-- internal/client/impl/exponential_backoff_client.go and the rounds it shares with the other client
-- types: the polls that go out, and the delays between them.
use goqueuesim.Common.{
  ℕ, suc, ◌≡◌, ◌≢◌, refl, ◌∙◌, ap, ◌+◌, ◌≤◌, true, false, List, [], ◌∷◌, ◌++◌, ℤ, pos, arith, leb_ℤ,
  ◌<ℤ◌, ◌-ℤ◌, ◌<◌, length,
}
use goqueuesim.Common.Word.{i64}
use goqueuesim.Common.Clock.{Duration}
use goqueuesim.Common.Panic.{Outcome, ok, panic, rem, ◌>>=◌, nil_timer}
use goqueuesim.Common.Float.{Float64}
use goqueuesim.Client.{
  Client, ClientKind, routinely_polling, fully_disappearing, lazy_polling, jit_greedy,
  exponential_backoff, Timer, nil_pointer, running, lock, unlock, is_queued, queued, mark_exited,
}
use goqueuesim.Network.{make_poll_request, session_data}
use goqueuesim.Polling.{
  Net, rand_intn, stop_polling, stop_timer, make_single_poll_request, die_on_request_timeout,
  polling, start_with, start_disappearing, start_polling_of, start_polling,
}
use goqueuesim.Polling.Rounds.{
  Tick, reset_timer, locked_poll, rearm, poll_and_rearm, backoff_delay, backoff_round, round_of,
  rounds,
}

poll_sends :
    (c : Client) (net : Net)
    → c.is_locked ≡ true
    → c.state ≡ queued
    → length net.requests < net.capacity
    → make_single_poll_request c net
      ≡ ok (
        record c { started_polling = true },
        record net { requests = net.requests ++ make_poll_request (session_data c) ∷ [] },
      )
unfolding make_single_poll_request die_on_request_timeout is_queued session_data
poll_sends c net locked e room = ground arith

locked_poll_sends :
    (c : Client) (net : Net)
    → c.state ≡ queued
    → length net.requests < net.capacity
    → locked_poll c net
      ≡ ok (
        record c { is_locked = false; started_polling = true },
        record net { requests = net.requests ++ make_poll_request (session_data c) ∷ [] },
        true,
      )
unfolding locked_poll lock unlock is_queued session_data
locked_poll_sends c net e room = let sent = poll_sends (lock c) net refl e room in ground arith

rand_intn_pos : (n : ℤ) → pos 0 <ℤ n → rand_intn n ≡ ok tt
unfolding rand_intn
rand_intn_pos n h = ground arith

rearm_ok :
    (d : Duration) (polls : ℤ) (c : Client) (net : Net)
    → c.poll_timer ≢ nil_pointer
    → rearm d polls c net ≡ ok (record c { poll_timer = running d }, net, polling polls)
unfolding rearm reset_timer
rearm_ok d polls c net h = ground arith

-- A queued client with room in the request channel sends exactly one poll in a round, its timer runs
-- for the delay of the round, and the goroutine goes on.
poll_and_rearm_sends :
    (d : Duration) (polls : ℤ) (c : Client) (net : Net)
    → c.state ≡ queued
    → length net.requests < net.capacity
    → pos 0 <ℤ c.max_network_jitter_ms
    → c.poll_timer ≢ nil_pointer
    → poll_and_rearm d polls c net
      ≡ ok (
        record c { is_locked = false; started_polling = true; poll_timer = running d },
        record net { requests = net.requests ++ make_poll_request (session_data c) ∷ [] },
        polling polls,
      )
unfolding poll_and_rearm
poll_and_rearm_sends d polls c net e room jitter timer =
    rw (rand_intn_pos c.max_network_jitter_ms jitter, locked_poll_sends c net e room)
      (rearm_ok d polls _ _ timer)

poll_full :
    (c : Client) (net : Net) (n : ℕ)
    → c.is_locked ≡ true
    → c.state ≡ queued
    → c.poll_timer ≡ nil_pointer
    → net.capacity ≡ length net.requests
    → net.waiting ≡ suc n
    → make_single_poll_request c net ≡ panic nil_timer
unfolding make_single_poll_request die_on_request_timeout is_queued session_data mark_exited
    stop_polling stop_timer
poll_full c net n locked e timer full waiting = ground arith

start_with_panics :
    (delay : Outcome Duration) (c : Client) (net : Net)
    → c.is_locked ≡ true
    → c.started_polling ≡ false
    → make_single_poll_request c net ≡ panic nil_timer
    → start_with delay c net ≡ panic nil_timer
unfolding start_with
start_with_panics delay c net locked idle p = rw (p, locked, idle) refl

at_least_one : (n : ℕ) → leb_ℤ (pos 1) (pos (suc n)) ≡ true
at_least_one n = ground arith

start_disappearing_panics :
    (n : ℕ) (c : Client) (net : Net)
    → c.is_locked ≡ true
    → c.state ≡ queued
    → c.started_polling ≡ false
    → make_single_poll_request c net ≡ panic nil_timer
    → start_disappearing (pos (suc n)) c net ≡ panic nil_timer
unfolding start_disappearing is_queued
start_disappearing_panics n c net locked e idle p = rw (p, e, locked, idle, at_least_one n) refl

-- A client type whose first poll goes out when polling starts.
abbrev pub PollsAtOnce : ClientKind → Type 0
PollsAtOnce (fully_disappearing n) = (m : ℕ) × (n ≡ pos (suc m))
PollsAtOnce _ = Unit

start_of :
    (k : ClientKind) (c : Client) (net : Net)
    → PollsAtOnce k
    → c.is_locked ≡ true
    → c.state ≡ queued
    → c.started_polling ≡ false
    → make_single_poll_request c net ≡ panic nil_timer
    → start_polling_of k c net ≡ panic nil_timer
unfolding start_polling_of
start_of routinely_polling c net h locked e idle p =
    start_with_panics (ok c.default_poll_interval) c net locked idle p
start_of (fully_disappearing n) c net (m, h) locked e idle p =
    ap (λ i. start_disappearing i c net) h ∙ start_disappearing_panics m c net locked e idle p
start_of (lazy_polling _) c net h locked e idle p =
    start_with_panics (ok c.default_poll_interval) c net locked idle p
start_of (exponential_backoff _) c net h locked e idle p =
    start_with_panics (ok c.default_poll_interval) c net locked idle p
start_of (jit_greedy _ _ lead window) c net h locked e idle p =
    start_with_panics (rem (i64 (window -ℤ lead)) window) c net locked idle p

-- A locked, queued client that starts to poll for the first time while the request channel is full, and
-- while the wait group is not yet at zero, is to be killed, but it has no timer yet that could be
-- stopped: the process panics. This holds of every type but the fully disappearing one, and of that one
-- where it polls at least once before it disappears.
pub start_polling_full :
    (c : Client) (net : Net) (n : ℕ)
    → PollsAtOnce c.kind
    → c.is_locked ≡ true
    → c.state ≡ queued
    → c.started_polling ≡ false
    → c.poll_timer ≡ nil_pointer
    → net.capacity ≡ length net.requests
    → net.waiting ≡ suc n
    → start_polling c net ≡ panic nil_timer
unfolding start_polling
start_polling_full c net n kind locked e idle timer full waiting =
    start_of c.kind c net kind locked e idle (poll_full c net n locked e timer full waiting)

-- A queued client of the type, whose timer runs for `d`.
pub record BacksOff (maximum : Duration) (d : Duration) (c : Client) : Type 0 where
  pub kind : c.kind ≡ exponential_backoff maximum
  pub waits : c.state ≡ queued
  pub jitter : pos 0 <ℤ c.max_network_jitter_ms
  pub timer : c.poll_timer ≡ running d

timer_set : (d : Duration) (t : Timer) → t ≡ running d → t ≢ nil_pointer
timer_set d t e n = ground arith

length-snoc : {A : Type 0} (xs : List A) (x : A) → length (xs ++ x ∷ []) ≡ suc (length xs)
length-snoc [] x = refl
length-snoc (y ∷ xs) x = ap suc (length-snoc xs x)

module _ (fl : Float64) (maximum interval : Duration) where
  abbrev same_delay : Duration
  same_delay = backoff_delay fl (pos 1) interval maximum

  -- The client after a round.
  abbrev again : Client → Client
  again c = record c { is_locked = false; started_polling = true; poll_timer = running same_delay }

  abbrev sent : Client → Net → Net
  sent c net = record net { requests = net.requests ++ make_poll_request (session_data c) ∷ [] }

  one_round :
      (t : Tick) (d : Duration) (c : Client) (net : Net)
      → BacksOff maximum d c
      → c.default_poll_interval ≡ interval
      → length net.requests < net.capacity
      → round_of fl c.kind t (pos 1) c net ≡ ok (again c, sent c net, polling (pos 1))
  unfolding round_of backoff_round
  one_round t d c net h e room =
      ap (λ k. round_of fl k t (pos 1) c net) h.kind
      ∙ ap (λ i. poll_and_rearm (backoff_delay fl (pos 1) i maximum) (pos 1) c net) e
      ∙ poll_and_rearm_sends same_delay (pos 1) c net h.waits room h.jitter
          (timer_set d c.poll_timer h.timer)

  -- However often a waiting client of the type has polled, its goroutine counts one poll, so with room
  -- for its requests every further round sends one poll and sets the timer to the same delay.
  pub rounds_keep_delay :
      (ts : List Tick) (t : Tick) (d : Duration) (c : Client) (net : Net)
      → BacksOff maximum d c
      → c.default_poll_interval ≡ interval
      → length net.requests + length (t ∷ ts) ≤ net.capacity
      → (c' : Client) × (net' : Net) × (rounds fl (t ∷ ts) (polling (pos 1)) c net
          ≡ ok (c', net', polling (pos 1)))
        × (c'.poll_timer ≡ running same_delay)
        × (length net'.requests ≡ length net.requests + length (t ∷ ts))
  unfolding rounds
  rounds_keep_delay [] t d c net h e room = (
    again c,
    sent c net,
    rw (one_round t d c net h e (ground arith)) refl,
    refl,
    length-snoc net.requests (make_poll_request (session_data c)) ∙ ground arith,
  )
  rounds_keep_delay (u ∷ ts) t d c net h e room =
      let one = length-snoc net.requests (make_poll_request (session_data c)) in
      let (c', net', run, timer, count) =
        rounds_keep_delay ts u same_delay (again c) (sent c net)
          (record { kind = h.kind; waits = h.waits; jitter = h.jitter; timer = refl }) e
          (ground (arith, one)) in
      (
        c',
        net',
        ap (λ o. o >>= (λ x. rounds fl (u ∷ ts) x.2 x.0 x.1))
              (one_round t d c net h e (ground arith))
            ∙ run,
        timer,
        count ∙ ground (arith, one),
      )
