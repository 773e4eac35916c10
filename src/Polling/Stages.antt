-- ===== src/Polling/Stages.antt =====
-- The polling goroutines of internal/client/impl in steps, each at most one section under the client's
-- lock: the goroutine waits in its select, polls, polls on greedily, and resets its timer. Between two
-- steps the client may change. Rounds has the same goroutines, a whole round at a time.
use goqueuesim.Common.{
  ℕ, zero, suc, Bool, true, false, ◌&&◌, not, if◌then◌else◌, ℤ, pos, ◌+ℤ◌, ◌-ℤ◌, leb_ℤ, pos_part,
}
use goqueuesim.Common.Word.{i64}
use goqueuesim.Common.Clock.{Duration, is_zero, before, sub_time}
use goqueuesim.Common.Panic.{Outcome, ok, ◌>>=◌, rem}
use goqueuesim.Common.Float.{Float64}
use goqueuesim.Client.{
  Client, ClientKind, routinely_polling, fully_disappearing, lazy_polling, exponential_backoff,
  jit_greedy, lock, unlock, mark_exited,
}
use goqueuesim.Polling.{Net, rand_intn, stop_polling, Loop, polling, returned}
use goqueuesim.Polling.Rounds.{Tick, reset_timer, locked_poll, backoff_delay}

-- In the select; in doGreedyPolls, with the repetitions that are left; before `pollTimer.Reset`, with
-- what BaseClient decided under the lock; and after the return. The counter is pollsSoFar.
pub data Stage : Type 0 where
  waiting : ℤ → Stage
  greedy : ℕ → ℤ → Stage
  resetting : Bool → ℤ → Stage
  halted : Stage

unfoldable pub stage_of : Loop → Stage
stage_of (polling polls) = waiting polls
stage_of returned = halted

-- `willObeyPollAfter && time.Now().Before(bc.AdvisedPollAfter())`
unfoldable pub obeys_advice : Tick → Client → Bool
obeys_advice t c =
    c.obeys_poll_after && not (is_zero c.advised_poll_after) && before t.now c.advised_poll_after

-- A random delay and the poll under the lock, where it is due; a goroutine that finds its client not
-- queued goes to `gone`.
unfoldable pub poll_then : Stage → Stage → Client → Net → Outcome (Client × Net × Stage)
poll_then next gone c net = do
  _ ← rand_intn c.max_network_jitter_ms
  (c', net', alive) ← locked_poll c net
  ok (c', net', if alive then next else gone)

-- The timer is reset to `d`, and the goroutine waits again.
unfoldable pub wait_for_timer : Duration → ℤ → Client → Net → Outcome (Client × Net × Stage)
unfolding reset_timer
wait_for_timer d polls c net = do
  timer ← reset_timer d c.poll_timer
  ok (record c { poll_timer = timer }, net, waiting polls)

-- FullyDisappearingClient, from the timer's firing to the end of its section under the lock
unfoldable pub begin_disappearing : ℤ → ℤ → Client → Net → Outcome (Client × Net × Stage)
unfolding lock unlock
begin_disappearing polls_before_disappearing polls c net =
    let disappear : Outcome (Client × Net × Stage) = do
      (c', left, _) ← mark_exited (lock c) net.waiting
      (c'', _) ← stop_polling c'
      ok (unlock c'', record net { waiting = left }, halted)
    in if leb_ℤ polls_before_disappearing polls
      then disappear
      else poll_then (resetting false polls) halted c net

-- LazyPollingClient: it goes inactive, or polls
unfoldable pub begin_lazy : ℤ → Tick → ℤ → Client → Net → Outcome (Client × Net × Stage)
begin_lazy max_sleep_ms t polls c net =
    let skip : Outcome (Client × Net × Stage) = do
      _ ← rand_intn max_sleep_ms
      wait_for_timer t.nap polls c net
    in if t.skips then skip else poll_then (resetting false polls) halted c net

-- `case <-pollTimer.C` of each client type, up to the end of its first section under the lock
unfoldable pub begin_round : ClientKind → Tick → ℤ → Client → Net → Outcome (Client × Net × Stage)
unfolding begin_disappearing begin_lazy
begin_round routinely_polling t polls c net =
    poll_then (resetting (obeys_advice t c) polls) halted c net
begin_round (fully_disappearing n) t polls c net = begin_disappearing n polls c net
begin_round (lazy_polling max_sleep) t polls c net = begin_lazy max_sleep t polls c net
begin_round (exponential_backoff _) t polls c net = poll_then (resetting false polls) halted c net
begin_round (jit_greedy _ count _ _) t polls c net =
    poll_then (greedy (pos_part (count -ℤ pos 1)) polls) halted c net

-- pollsSoFar in the next round; only FullyDisappearingClient counts on.
unfoldable pub polls_after : ClientKind → ℤ → ℤ
polls_after routinely_polling polls = polls
polls_after (fully_disappearing _) polls = polls +ℤ pos 1
polls_after (lazy_polling _) polls = polls
polls_after (exponential_backoff _) polls = polls
polls_after (jit_greedy _ _ _ _) polls = polls

-- The rest of the round, after the last section under the lock
-- The step of a polling goroutine has a section under the client's lock.
unfoldable pub needs_lock : ClientKind → Tick → Stage → Bool
needs_lock (lazy_polling _) t (waiting polls) = not t.skips
needs_lock _ t (waiting polls) = true
needs_lock _ t (greedy reps polls) = true
needs_lock _ t (resetting obeys polls) = false
needs_lock _ t halted = false

module _ (fl : Float64) where
  -- The duration that the timer is reset to, from the client as it then is.
  unfoldable pub delay_of : ClientKind → Tick → Bool → ℤ → Client → Outcome Duration
  delay_of routinely_polling t obeys polls c =
      ok (if obeys then sub_time c.advised_poll_after t.reset_at else c.default_poll_interval)
  delay_of (fully_disappearing _) t obeys polls c = ok c.default_poll_interval
  delay_of (lazy_polling _) t obeys polls c = ok c.default_poll_interval
  delay_of (exponential_backoff max) t obeys polls c =
      ok (backoff_delay fl polls c.default_poll_interval max)
  delay_of (jit_greedy _ _ lead window) t obeys polls c = rem (i64 (window -ℤ lead)) window

  unfoldable pub finish_round :
      ClientKind → Tick → Bool → ℤ → Client → Net → Outcome (Client × Net × Stage)
  unfolding delay_of polls_after wait_for_timer
  finish_round k t obeys polls c net = do
    d ← delay_of k t obeys polls c
    wait_for_timer d (polls_after k polls) c net

  -- The goroutine's next step. A greedy poller that finds its client not queued leaves doGreedyPolls,
  -- and its loop goes on.
  unfoldable pub advance : ClientKind → Tick → Stage → Client → Net → Outcome (Client × Net × Stage)
  unfolding begin_round finish_round poll_then
  advance k t (waiting polls) c net = begin_round k t polls c net
  advance k t (greedy zero polls) c net = ok (c, net, resetting false polls)
  advance k t (greedy (suc n) polls) c net =
      poll_then (greedy n polls) (resetting false polls) c net
  advance k t (resetting obeys polls) c net = finish_round k t obeys polls c net
  advance k t halted c net = ok (c, net, halted)

  -- The steps up to the end of the round, at most `fuel` of them, with nothing else in between.
  unfoldable pub settle :
      ℕ → ClientKind → Tick → Client × Net × Stage → Outcome (Client × Net × Stage)
  unfolding advance
  settle zero k t (c, net, s) = ok (c, net, s)
  settle (suc n) k t (c, net, waiting polls) = ok (c, net, waiting polls)
  settle (suc n) k t (c, net, greedy reps polls) =
      advance k t (greedy reps polls) c net >>= settle n k t
  settle (suc n) k t (c, net, resetting obeys polls) =
      advance k t (resetting obeys polls) c net >>= settle n k t
  settle (suc n) k t (c, net, halted) = ok (c, net, halted)
