-- ===== src/Polling/Pace.antt =====
-- What a poll under the lock leaves alone: the fields of a client that the next delay is computed from
-- (internal/client/impl/base_client.go).
use goqueuesim.Common.{◌≡◌, refl, ◌∙◌, true, arith, not, ℕ, none, some, ltb, length, ◌++◌, [], ◌∷◌}
use goqueuesim.Common.Panic.{ok, Post, Post-bind, Post-if, Post-then, Post-map}
use goqueuesim.Client.{
  Client, mark_exited, wait_group_done, set_throttle_cookie_val, is_queued, state_error, lock,
  unlock,
}
use goqueuesim.Network.{MockRequest, make_poll_request, session_data}
use goqueuesim.Polling.{
  Net, stop_timer, close_stopper, stop_polling, die_on_request_timeout, make_single_poll_request,
  polling_error,
}
use goqueuesim.Polling.Rounds.{locked_poll}

pub record SamePace (c c' : Client) : Type 0 where
  pub same_interval : c'.default_poll_interval ≡ c.default_poll_interval
  pub same_advice : c'.advised_poll_after ≡ c.advised_poll_after

same_pace : (c : Client) → SamePace c c
same_pace c = record { same_interval = refl; same_advice = refl }

SamePace-trans : (c d e : Client) → SamePace c d → SamePace d e → SamePace c e
SamePace-trans c d e h k = record {
  same_interval = k.same_interval ∙ h.same_interval;
  same_advice = k.same_advice ∙ h.same_advice;
}

stop_polling-SamePace : (c : Client) → Post (λ r. SamePace c r.0) (stop_polling c)
unfolding stop_polling
stop_polling-SamePace c =
    Post-if (λ r. SamePace c r.0) (not c.is_locked) (ok (c, some polling_error)) _ (same_pace c)
      (Post-if (λ r. SamePace c r.0) (not c.started_polling) (ok (c, none)) _ (same_pace c)
        (Post-then (λ r. SamePace c r.0) (stop_timer c.poll_timer) _
          (λ timer.
            Post-then (λ r. SamePace c r.0) (close_stopper c.poll_stopper) _
              (λ stopper. record { same_interval = refl; same_advice = refl }))))

mark_exited-SamePace : (c : Client) (n : ℕ) → Post (λ r. SamePace c r.0) (mark_exited c n)
unfolding mark_exited set_throttle_cookie_val
mark_exited-SamePace c n =
    Post-if (λ r. SamePace c r.0) c.is_locked _ (ok (c, n, some state_error))
      (Post-then (λ r. SamePace c r.0) (wait_group_done n) _ (λ left. ground arith)) (same_pace c)

die_on_request_timeout-SamePace :
    (req : MockRequest) (c : Client) (net : Net)
    → Post (λ r. SamePace c r.0) (die_on_request_timeout req c net)
unfolding die_on_request_timeout
die_on_request_timeout-SamePace req c net =
    Post-if (λ r. SamePace c r.0) (ltb (length net.requests) net.capacity)
      (ok (c, record net { requests = net.requests ++ req ∷ [] })) _ (same_pace c)
      (Post-bind (λ r. SamePace c r.0) (λ r. SamePace c r.0) (mark_exited c net.waiting) _
        (mark_exited-SamePace c net.waiting)
        (λ r h.
          Post-bind (λ s. SamePace r.0 s.0) (λ s. SamePace c s.0) (stop_polling r.0) _
            (stop_polling-SamePace r.0) (λ s l. SamePace-trans c r.0 s.0 h l)))

make_single_poll_request-SamePace :
    (c : Client) (net : Net) → Post (λ r. SamePace c r.0) (make_single_poll_request c net)
unfolding make_single_poll_request
make_single_poll_request-SamePace c net =
    let c' = record c { started_polling = true } in
    Post-if (λ r. SamePace c r.0) (not c.is_locked) (ok (c, net)) _ (same_pace c)
      (Post-if (λ r. SamePace c r.0) (not (is_queued c)) _ _
        (Post-bind (λ r. SamePace c r.0) (λ r. SamePace c r.0) (stop_polling c) _
          (stop_polling-SamePace c) (λ r h. h))
        (Post-map (λ r. SamePace c' r.0) (λ r. SamePace c r.0)
          (die_on_request_timeout (make_poll_request (session_data c')) c' net)
          (die_on_request_timeout-SamePace (make_poll_request (session_data c')) c' net)
          (λ r h. record { same_interval = h.same_interval; same_advice = h.same_advice })))

pub locked_poll-SamePace : (c : Client) (net : Net) → Post (λ r. SamePace c r.0) (locked_poll c net)
unfolding locked_poll lock unlock
locked_poll-SamePace c net =
    Post-if (λ r. SamePace c r.0) (not (is_queued c)) _ _
      (Post-bind (λ r. SamePace (lock c) r.0) (λ r. SamePace c r.0) (stop_polling (lock c)) _
        (stop_polling-SamePace (lock c))
        (λ r h. record { same_interval = h.same_interval; same_advice = h.same_advice }))
      (Post-bind (λ r. SamePace (lock c) r.0) (λ r. SamePace c r.0)
        (make_single_poll_request (lock c) net) _ (make_single_poll_request-SamePace (lock c) net)
        (λ r h. record { same_interval = h.same_interval; same_advice = h.same_advice }))
