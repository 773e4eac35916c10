-- ===== src/Polling/Turns.antt =====
-- A step of each client type's goroutine, and a whole response: each keeps the client as
-- Sending says (internal/client/impl).
use goqueuesim.Common.{
  refl, ◌≡◌, inl, Bool, false, zero, suc, true, false, not, Option, some, if◌then◌else◌, ℤ, pos,
  ◌-ℤ◌, leb_ℤ, pos_part, arith,
}
use goqueuesim.Common.Map.{string_key}
use goqueuesim.Common.Clock.{Duration, Time, is_zero}
use goqueuesim.Common.Panic.{
  ok, panic, Post, Post-bind, Post-if, Post-then, Post-map, asymmetric_data,
}
use goqueuesim.Common.Float.{Float64}
use goqueuesim.Client.{
  Client, Error, ThrottleState, initial, queued, in_checkout, exited, ClientKind, routinely_polling,
  fully_disappearing, lazy_polling, exponential_backoff, jit_greedy, lock, unlock,
  advise_poll_after, state_string,
}
use goqueuesim.Network.{MockResponse}
use goqueuesim.Polling.{
  Net, rand_intn, send_initial_checkout_request, Loop, returned, start_polling,
}
use goqueuesim.Polling.Rounds.{Tick, reset_timer, locked_poll}
use goqueuesim.Polling.Stages.{
  Stage, waiting, greedy, resetting, halted, obeys_advice, poll_then, wait_for_timer,
  begin_disappearing, begin_lazy, begin_round, delay_of, polls_after, finish_round, advance,
  needs_lock,
}
use goqueuesim.Polling.Responses.{respond_in, delegate_response_to, handle_response}
use goqueuesim.Polling.Sending.{
  SameClient, SameClient-refl, SameClient-trans, Kept, Keeps₂, leave-Post, left-Kept,
  send_initial_checkout_request-Kept, Kept-trans, Kept-client,
}
use goqueuesim.Polling.Acting.{
  Loops, Polls, lock_same, unlock_same, start_polling_of-Kept, locked_poll-Kept,
}

still : (c : Client) (net : Net) → Kept c net c net
still c net = Kept-client c c net (SameClient-refl c)

-- A step of a goroutine keeps the client so, if it has a result.
abbrev pub Advances : Client → Net → Client × Net × Stage → Type 0
Advances c net r = Kept c net r.0 r.1

poll_then-Kept :
    (next gone : Stage) (c : Client) (net : Net) → Post (Advances c net) (poll_then next gone c net)
unfolding poll_then
poll_then-Kept next gone c net =
    Post-then (Advances c net) (rand_intn c.max_network_jitter_ms) _ (λ u.
      Post-bind (Polls c net) (Advances c net) (locked_poll c net) _ (locked_poll-Kept c net)
        (λ r h. h))

wait_for_timer-Kept :
    (d : Duration) (p : ℤ) (c : Client) (net : Net)
    → Post (Advances c net) (wait_for_timer d p c net)
unfolding wait_for_timer
wait_for_timer-Kept d p c net = Post-then (Advances c net) (reset_timer d c.poll_timer) _ (λ t.
    Kept-client c _ net (record { same_id = refl; same_step = refl; same_or_exited = inl refl }))

begin_disappearing-Kept :
    (n p : ℤ) (c : Client) (net : Net) → Post (Advances c net) (begin_disappearing n p c net)
unfolding begin_disappearing
begin_disappearing-Kept n p c net =
    Post-if (Advances c net) (leb_ℤ n p) _ (poll_then (resetting false p) halted c net)
      (leave-Post (Advances c net) (lock c) net.waiting
        (λ c' left. (unlock c', record net { waiting = left }, halted))
        (λ c' left h.
          left-Kept c (unlock c') net left
            (unlock_same c c' (SameClient-trans c (lock c) c' (lock_same c) h))))
      (poll_then-Kept (resetting false p) halted c net)

begin_lazy-Kept :
    (n : ℤ) (t : Tick) (p : ℤ) (c : Client) (net : Net)
    → Post (Advances c net) (begin_lazy n t p c net)
unfolding begin_lazy
begin_lazy-Kept n t p c net =
    Post-if (Advances c net) t.skips _ (poll_then (resetting false p) halted c net)
      (Post-then (Advances c net) (rand_intn n) _ (λ u. wait_for_timer-Kept t.nap p c net))
      (poll_then-Kept (resetting false p) halted c net)

begin_round-Kept :
    (k : ClientKind) (t : Tick) (p : ℤ) (c : Client) (net : Net)
    → Post (Advances c net) (begin_round k t p c net)
unfolding begin_round
begin_round-Kept routinely_polling t p c net =
    poll_then-Kept (resetting (obeys_advice t c) p) halted c net
begin_round-Kept (fully_disappearing n) t p c net = begin_disappearing-Kept n p c net
begin_round-Kept (lazy_polling n) t p c net = begin_lazy-Kept n t p c net
begin_round-Kept (exponential_backoff d) t p c net = poll_then-Kept (resetting false p) halted c net
begin_round-Kept (jit_greedy _ count _ _) t p c net =
    poll_then-Kept (greedy (pos_part (count -ℤ pos 1)) p) halted c net

module _ (fl : Float64) where
  pub advance-Kept :
      (k : ClientKind) (t : Tick) (s : Stage) (c : Client) (net : Net)
      → Post (Advances c net) (advance fl k t s c net)
  unfolding advance finish_round
  advance-Kept k t (waiting p) c net = begin_round-Kept k t p c net
  advance-Kept k t (greedy zero p) c net = still c net
  advance-Kept k t (greedy (suc n) p) c net = poll_then-Kept (greedy n p) (resetting false p) c net
  advance-Kept k t (resetting b p) c net =
      Post-then (Advances c net) (delay_of fl k t b p c) _
        (λ d. wait_for_timer-Kept d (polls_after k p) c net)
  advance-Kept k t halted c net = still c net

-- What a step without a section under the lock leaves alone.
abbrev pub Untouched : Client → Client × Net × Stage → Type 0
Untouched c r = (r.0.is_locked ≡ c.is_locked) × (r.0.state ≡ c.state)

wait_for_timer-Untouched :
    (d : Duration) (p : ℤ) (c : Client) (net : Net) → Post (Untouched c) (wait_for_timer d p c net)
unfolding wait_for_timer
wait_for_timer-Untouched d p c net =
    Post-then (Untouched c) (reset_timer d c.poll_timer) _ (λ t. (refl, refl))

skips-Untouched :
    (skips : Bool) (n : ℤ) (t : Tick) (p : ℤ) (c : Client) (net : Net)
    → t.skips ≡ skips
    → not skips ≡ false
    → Post (Untouched c) (begin_lazy n t p c net)
unfolding begin_lazy
skips-Untouched true n t p c net e h =
    rw e (Post-then (Untouched c) (rand_intn n) _ (λ u. wait_for_timer-Untouched t.nap p c net))
skips-Untouched false n t p c net e h = cc

finish_round-Untouched :
    (fl : Float64) (k : ClientKind) (t : Tick) (b : Bool) (p : ℤ) (c : Client) (net : Net)
    → Post (Untouched c) (finish_round fl k t b p c net)
unfolding finish_round
finish_round-Untouched fl k t b p c net =
    Post-then (Untouched c) (delay_of fl k t b p c) _
      (λ d. wait_for_timer-Untouched d (polls_after k p) c net)

pub advance-Untouched :
    (fl : Float64) (k : ClientKind) (t : Tick) (s : Stage) (c : Client) (net : Net)
    → needs_lock k t s ≡ false
    → Post (Untouched c) (advance fl k t s c net)
unfolding advance needs_lock begin_round
advance-Untouched fl (lazy_polling n) t (waiting p) c net h =
    skips-Untouched t.skips n t p c net refl h
advance-Untouched fl k t (resetting b p) c net h = finish_round-Untouched fl k t b p c net
advance-Untouched fl k t halted c net h = (refl, refl)
advance-Untouched fl k t s c net h = cc

respond_in-Kept :
    (s : ThrottleState) (c : Client) (net : Net) → Post (Loops c net) (respond_in s c net)
unfolding respond_in start_polling
respond_in-Kept initial c net =
    Post-bind (Keeps₂ c net) (Loops c net) (send_initial_checkout_request c net) _
      (send_initial_checkout_request-Kept c net) (λ r h. h)
respond_in-Kept queued c net = start_polling_of-Kept c.kind c net
respond_in-Kept in_checkout c net =
    leave-Post (Loops c net) c net.waiting
      (λ c' left. (c', record net { waiting = left }, returned))
      (λ c' left. left-Kept c c' net left)
respond_in-Kept exited c net = still c net

advise_same : (t : Time) (c : Client) → SameClient c (advise_poll_after t c).0
unfolding advise_poll_after
advise_same t c = ground arith

advised_same :
    (c : Client) (resp : MockResponse)
    → SameClient c (
        if not (is_zero resp.client_data.advised_poll_after)
        then (advise_poll_after resp.client_data.advised_poll_after c).0
        else c)
advised_same c resp =
    elim (is_zero resp.client_data.advised_poll_after)
      as (λ b.
        SameClient c
          (if not b then (advise_poll_after resp.client_data.advised_poll_after c).0 else c)) [
            | true ↦ SameClient-refl c
            | false ↦ advise_same resp.client_data.advised_poll_after c
          ]

abbrev pub Handled : Client → Net → Client × Net × Loop × Option Error → Type 0
Handled c net r = Kept c net r.0 r.1

delegate_response_to-Kept :
    (c : Client) (resp : MockResponse) (net : Net)
    → Post (Loops c net) (delegate_response_to c resp net)
unfolding delegate_response_to
delegate_response_to-Kept c resp net =
    Post-if (Loops c net)
      (not (string_key.same resp.client_data.throttle_state (state_string c.state)))
      (panic asymmetric_data) _ tt
      (Post-map (Loops _ net) (Loops c net) _ (respond_in-Kept c.state _ net)
        (λ r h. Kept-trans c _ r.0 net net r.1 (Kept-client c _ net (advised_same c resp)) h))

pub handle_response-Kept :
    (resp : MockResponse) (c : Client) (net : Net)
    → Post (Handled c net) (handle_response resp c net)
unfolding handle_response
handle_response-Kept resp c net =
    Post-if (Handled c net) (not c.is_locked)
      (ok (c, net, returned, some "lock required to handle server response")) _ (still c net)
      (Post-bind (Loops c net) (Handled c net) (delegate_response_to c resp net) _
        (delegate_response_to-Kept c resp net) (λ r h. h))
