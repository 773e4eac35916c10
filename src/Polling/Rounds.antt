-- ===== src/Polling/Rounds.antt =====
-- The polling goroutines of internal/client/impl: what one firing of the poll timer does, in
-- BaseClient and in the four client types that embed it. The rounds of one client come one after the
-- other; a sleep only passes time.
use goqueuesim.Common.{
  ℕ, zero, suc, Bool, true, false, ◌&&◌, not, List, [], ◌∷◌, if◌then◌else◌, ℤ, pos, ◌+ℤ◌, ◌-ℤ◌,
  ◌*ℤ◌, leb_ℤ, pos_part,
}
use goqueuesim.Common.Word.{i64}
use goqueuesim.Common.Clock.{Time, Duration, is_zero, before, sub_time, second}
use goqueuesim.Common.Panic.{Outcome, ok, panic, ◌>>=◌, rem, nil_timer}
use goqueuesim.Common.Float.{Float64, seconds}
use goqueuesim.Client.{
  Client, ClientKind, routinely_polling, fully_disappearing, lazy_polling, exponential_backoff,
  jit_greedy, Timer, nil_pointer, stopped, running, lock, unlock, is_queued, mark_exited,
}
use goqueuesim.Polling.{
  Net, rand_intn, stop_polling, make_single_poll_request, Loop, polling, returned,
}

-- bc.pollTimer.Reset(d)
unfoldable pub reset_timer : Duration → Timer → Outcome Timer
reset_timer d nil_pointer = panic nil_timer
reset_timer d stopped = ok (running d)
reset_timer d (running e) = ok (running d)

-- From bc.Lock() to bc.Unlock() in a round; the flag is false where the goroutine returns.
unfoldable pub locked_poll : Client → Net → Outcome (Client × Net × Bool)
unfolding lock unlock
locked_poll c net =
    let leave : Outcome (Client × Net × Bool) = do
      (c', _) ← stop_polling (lock c)
      ok (unlock c', net, false)
    in let poll : Outcome (Client × Net × Bool) = do
      (c', net') ← make_single_poll_request (lock c) net
      ok (unlock c', net', true)
      in if not (is_queued c) then leave else poll

-- The timer is reset to `d`, and the loop goes on.
unfoldable pub rearm : Duration → ℤ → Client → Net → Outcome (Client × Net × Loop)
unfolding reset_timer
rearm d polls c net = do
  timer ← reset_timer d c.poll_timer
  ok (record c { poll_timer = timer }, net, polling polls)

-- The round that most client types share.
unfoldable pub poll_and_rearm : Duration → ℤ → Client → Net → Outcome (Client × Net × Loop)
poll_and_rearm d polls c net = do
  _ ← rand_intn c.max_network_jitter_ms
  (c', net', alive) ← locked_poll c net
  if alive then rearm d polls c' net' else ok (c', net', returned)

-- What a round reads from outside: the clock, twice, whether a lazy client skips it, and for how long.
pub record Tick : Type 0 where
  pub now : Time
  pub reset_at : Time
  pub skips : Bool
  pub nap : Duration

-- The delay of BaseClient's round
unfoldable pub base_delay : Tick → Client → Duration
base_delay t c =
    if c.obeys_poll_after && not (is_zero c.advised_poll_after) && before t.now c.advised_poll_after
    then sub_time c.advised_poll_after t.reset_at
    else c.default_poll_interval

-- BaseClient's round
unfoldable pub base_round : Tick → ℤ → Client → Net → Outcome (Client × Net × Loop)
unfolding base_delay
base_round t polls c net = poll_and_rearm (base_delay t c) polls c net

-- FullyDisappearingClient's round
unfoldable pub disappearing_round : ℤ → ℤ → Client → Net → Outcome (Client × Net × Loop)
unfolding lock unlock
disappearing_round polls_before_disappearing polls c net =
    let disappear : Outcome (Client × Net × Loop) = do
      (c', left, _) ← mark_exited (lock c) net.waiting
      (c'', _) ← stop_polling c'
      ok (unlock c'', record net { waiting = left }, returned)
    in if leb_ℤ polls_before_disappearing polls
      then disappear
      else poll_and_rearm c.default_poll_interval (polls +ℤ pos 1) c net

-- LazyPollingClient's round
unfoldable pub lazy_round : ℤ → Tick → ℤ → Client → Net → Outcome (Client × Net × Loop)
lazy_round max_sleep_ms t polls c net =
    let skip : Outcome (Client × Net × Loop) = do
      _ ← rand_intn max_sleep_ms
      rearm t.nap polls c net
    in if t.skips then skip else poll_and_rearm c.default_poll_interval polls c net

-- JitGreedyPoller.doGreedyPolls, over the repetitions that are left
unfoldable pub do_greedy_polls : ℕ → Client → Net → Outcome (Client × Net)
do_greedy_polls zero c net = ok (c, net)
do_greedy_polls (suc n) c net = do
  _ ← rand_intn c.max_network_jitter_ms
  (c', net', alive) ← locked_poll c net
  elim alive [ true ↦ do_greedy_polls n c' net' | false ↦ ok (c', net') ]

-- JitGreedyPoller's round; both of its branches poll, and differ in when.
unfoldable pub jit_round : ℤ → Duration → ℤ → Client → Net → Outcome (Client × Net × Loop)
jit_round greedy_polls_count window_delay polls c net = do
  _ ← rand_intn c.max_network_jitter_ms
  (c', net', alive) ← locked_poll c net
  elim alive [
    | true ↦ do
      (c'', net'') ← do_greedy_polls (pos_part (greedy_polls_count -ℤ pos 1)) c' net'
      rearm window_delay polls c'' net''
    | false ↦ ok (c', net', returned)
  ]

module _ (fl : Float64) where
  -- ExponentialBackoffClient's backoffDur
  unfoldable pub backoff_delay : ℤ → Duration → Duration → Duration
  backoff_delay polls default_interval maximum_backoff =
      let backoff_secs =
        fl.mul (fl.pow (fl.literal 2 1) (fl.of_int polls)) (seconds fl default_interval) in
      i64 (fl.to_int (fl.min backoff_secs (seconds fl maximum_backoff)) *ℤ pos second)

  -- ExponentialBackoffClient's round
  unfoldable pub backoff_round : Duration → ℤ → Client → Net → Outcome (Client × Net × Loop)
  unfolding backoff_delay
  backoff_round maximum_backoff polls c net =
      poll_and_rearm (backoff_delay polls c.default_poll_interval maximum_backoff) polls c net

  -- A round of the client's type, from the goroutine's pollsSoFar.
  unfoldable pub round_of : ClientKind → Tick → ℤ → Client → Net → Outcome (Client × Net × Loop)
  unfolding base_round backoff_round
  round_of routinely_polling t polls c net = base_round t polls c net
  round_of (fully_disappearing n) t polls c net = disappearing_round n polls c net
  round_of (lazy_polling max_sleep) t polls c net = lazy_round max_sleep t polls c net
  round_of (exponential_backoff max) t polls c net = backoff_round max polls c net
  round_of (jit_greedy _ count lead window) t polls c net = do
    d ← rem (i64 (window -ℤ lead)) window
    jit_round count d polls c net

  -- The goroutine over a sequence of firings.
  unfoldable pub rounds : List Tick → Loop → Client → Net → Outcome (Client × Net × Loop)
  rounds [] l c net = ok (c, net, l)
  rounds (t ∷ ts) returned c net = ok (c, net, returned)
  rounds (t ∷ ts) (polling polls) c net = do
    (c', net', l) ← round_of c.kind t polls c net
    rounds ts l c' net'
