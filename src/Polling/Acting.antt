-- ===== src/Polling/Acting.antt =====
-- Starting to poll, and a poll under the lock: each keeps the client as Sending says (internal/client/impl).
use goqueuesim.Common.{refl, inl, Bool, not, ◌||◌, ℤ, pos, ◌-ℤ◌, leb_ℤ}
use goqueuesim.Common.Map.{string_key}
use goqueuesim.Common.Word.{i64}
use goqueuesim.Common.Clock.{Duration}
use goqueuesim.Common.Panic.{Outcome, ok, ◌>>=◌, Post, Post-bind, Post-if, Post-then, Post-map, rem}
use goqueuesim.Client.{
  Client, ClientKind, routinely_polling, fully_disappearing, lazy_polling, exponential_backoff,
  jit_greedy, lock, unlock, is_queued,
}
use goqueuesim.Polling.{
  Net, stop_polling, make_single_poll_request, Loop, returned, start_with, start_disappearing,
  start_polling_of, spawn,
}
use goqueuesim.Polling.Rounds.{locked_poll}
use goqueuesim.Polling.Sending.{
  SameClient, SameClient-refl, Kept, Stays, Keeps₂, stop_polling-SameClient,
  make_single_poll_request-Kept, Kept-trans, Kept-client,
}

abbrev pub Loops : Client → Net → Client × Net × Loop → Type 0
Loops c net r = Kept c net r.0 r.1

abbrev pub Polls : Client → Net → Client × Net × Bool → Type 0
Polls c net r = Kept c net r.0 r.1

-- A change of the polling fields and of the lock.
spawn_same : (d : Duration) (p : ℤ) (c : Client) (net : Net) → Loops c net (spawn d p c net)
unfolding spawn
spawn_same d p c net =
    Kept-client c _ net (record { same_id = refl; same_step = refl; same_or_exited = inl refl })

pub lock_same : (c : Client) → SameClient c (lock c)
unfolding lock
lock_same c = record { same_id = refl; same_step = refl; same_or_exited = inl refl }

pub unlock_same : (c d : Client) → SameClient c d → SameClient c (unlock d)
unfolding unlock
unlock_same c d h = record {
  same_id = h.same_id;
  same_step = h.same_step;
  same_or_exited = h.same_or_exited;
}

pub unlock-Kept : (c d : Client) (net net' : Net) → Kept c net d net' → Kept c net (unlock d) net'
unlock-Kept c d net net' h = record { client = unlock_same c d h.client; sends = h.sends }

pub lock-Kept : (c d : Client) (net net' : Net) → Kept (lock c) net d net' → Kept c net d net'
lock-Kept c d net net' h =
    Kept-trans c (lock c) d net net net' (Kept-client c (lock c) net (lock_same c)) h

-- The first poll, and what follows it.
first_poll :
    (c : Client) (net : Net) (f : Client × Net → Outcome (Client × Net × Loop))
    → ((r : Client × Net) → Post (Loops r.0 r.1) (f r))
    → Post (Loops c net) (make_single_poll_request c net >>= f)
first_poll c net f k =
    Post-bind (Keeps₂ c net) (Loops c net) (make_single_poll_request c net) f
      (make_single_poll_request-Kept c net)
      (λ r h.
        Post-map (Loops r.0 r.1) (Loops c net) (f r) (k r)
          (λ s l. Kept-trans c r.0 s.0 net r.1 s.1 h l))

start_with-Kept :
    (delay : Outcome Duration) (c : Client) (net : Net)
    → Post (Loops c net) (start_with delay c net)
unfolding start_with
start_with-Kept delay c net =
    Post-if (Loops c net) (c.started_polling || not c.is_locked) (ok (c, net, returned)) _
      (Kept-client c c net (SameClient-refl c))
      (first_poll c net _ (λ r.
        Post-if (Loops r.0 r.1) (not r.0.started_polling) (ok (r.0, r.1, returned)) _
          (Kept-client r.0 r.0 r.1 (SameClient-refl r.0))
          (Post-then (Loops r.0 r.1) delay _ (λ d. spawn_same d (pos 1) r.0 r.1))))

start_disappearing-Kept :
    (n : ℤ) (c : Client) (net : Net) → Post (Loops c net) (start_disappearing n c net)
unfolding start_disappearing
start_disappearing-Kept n c net =
    Post-if (Loops c net) (c.started_polling || not (is_queued c) || not c.is_locked)
      (ok (c, net, returned)) _ (Kept-client c c net (SameClient-refl c))
      (Post-if (Loops c net) (leb_ℤ (pos 1) n) _ (ok (spawn c.default_poll_interval (pos 0) c net))
        (first_poll c net _ (λ r.
          Post-if (Loops r.0 r.1) (not r.0.started_polling) (ok (r.0, r.1, returned))
            (ok (spawn c.default_poll_interval (pos 1) r.0 r.1))
            (Kept-client r.0 r.0 r.1 (SameClient-refl r.0))
            (spawn_same c.default_poll_interval (pos 1) r.0 r.1)))
        (spawn_same c.default_poll_interval (pos 0) c net))

pub start_polling_of-Kept :
    (k : ClientKind) (c : Client) (net : Net) → Post (Loops c net) (start_polling_of k c net)
unfolding start_polling_of
start_polling_of-Kept routinely_polling c net = start_with-Kept (ok c.default_poll_interval) c net
start_polling_of-Kept (fully_disappearing n) c net = start_disappearing-Kept n c net
start_polling_of-Kept (lazy_polling _) c net = start_with-Kept (ok c.default_poll_interval) c net
start_polling_of-Kept (exponential_backoff _) c net =
    start_with-Kept (ok c.default_poll_interval) c net
start_polling_of-Kept (jit_greedy _ _ lead window) c net =
    start_with-Kept (rem (i64 (window -ℤ lead)) window) c net

pub locked_poll-Kept : (c : Client) (net : Net) → Post (Polls c net) (locked_poll c net)
unfolding locked_poll
locked_poll-Kept c net =
    Post-if (Polls c net) (not (is_queued c)) _ _
      (Post-bind (Stays (lock c)) (Polls c net) (stop_polling (lock c)) _
        (stop_polling-SameClient (lock c))
        (λ r h.
          unlock-Kept c r.0 net net (lock-Kept c r.0 net net (Kept-client (lock c) r.0 net h))))
      (Post-bind (Keeps₂ (lock c) net) (Polls c net) (make_single_poll_request (lock c) net) _
        (make_single_poll_request-Kept (lock c) net)
        (λ r h. unlock-Kept c r.0 net r.1 (lock-Kept c r.0 net r.1 h)))
