-- ===== src/Polling/Sending.antt =====
-- What the client's side of the simulation may change: the methods of internal/client/impl leave the
-- client's id and its record of checkout, move it to no state but the last one, and send requests in
-- its own name only.
use goqueuesim.Common.{
  ℕ, ◌≡◌, refl, ◌∙◌, ap, subst, ◌⊎◌, inl, true, not, Option, none, some, List, [], ◌∷◌, ◌++◌, All,
  ltb, ℤ, length, arith,
}
use goqueuesim.Common.Panic.{ok, ◌>>=◌, Post, Post-bind, Post-if, Post-then, Post-map}
use goqueuesim.Client.{
  Client, Error, exited, mark_exited, wait_group_done, set_throttle_cookie_val, is_queued,
  state_error,
}
use goqueuesim.Network.{MockRequest, make_checkout_request, make_poll_request, session_data}
use goqueuesim.Polling.{
  Net, rand_intn, stop_timer, close_stopper, stop_polling, die_on_request_timeout,
  send_initial_checkout_request, make_single_poll_request, polling_error,
}

pub record SameClient (c c' : Client) : Type 0 where
  pub same_id : c'.id ≡ c.id
  pub same_step : c'.hit_checkout_step ≡ c.hit_checkout_step
  pub same_or_exited : (c'.state ≡ c.state) ⊎ (c'.state ≡ exited)

pub SameClient-refl : (c : Client) → SameClient c c
SameClient-refl c = record { same_id = refl; same_step = refl; same_or_exited = inl refl }

pub SameClient-trans : (c d e : Client) → SameClient c d → SameClient d e → SameClient c e
SameClient-trans c d e h k = record {
  same_id = ground (arith, h, k);
  same_step = ground (arith, h, k);
  same_or_exited = ground (arith, h, k);
}

abbrev pub Sends : ℤ → Net → Net → Type 0
Sends id net net' =
    (sent : List MockRequest) × (net'.requests ≡ net.requests ++ sent)
    × All (λ r. r.client_data.id ≡ id) sent

pub record Kept (c : Client) (net : Net) (c' : Client) (net' : Net) : Type 0 where
  pub client : SameClient c c'
  pub sends : Sends c.id net net'

append_nil : {A : Type 0} (xs : List A) → xs ≡ xs ++ []
append_nil [] = refl
append_nil (x ∷ xs) = ap (λ ys. x ∷ ys) (append_nil xs)

append_assoc : {A : Type 0} (xs ys zs : List A) → (xs ++ ys) ++ zs ≡ xs ++ (ys ++ zs)
append_assoc [] ys zs = refl
append_assoc (x ∷ xs) ys zs = ap (λ l. x ∷ l) (append_assoc xs ys zs)

pub All-append {ℓ κ} :
    {A : Type ℓ} (P : A → Type κ) (xs ys : List A) → All P xs → All P ys → All P (xs ++ ys)
All-append P [] ys h k = k
All-append P (x ∷ xs) ys h k = (h.0, All-append P xs ys h.1 k)

pub Kept-client : (c c' : Client) (net : Net) → SameClient c c' → Kept c net c' net
Kept-client c c' net h = record { client = h; sends = ([], append_nil net.requests, tt) }

Sends-trans :
    (id : ℤ) (net net' net'' : Net) → Sends id net net' → Sends id net' net'' → Sends id net net''
Sends-trans id net net' net'' (xs, e, h) (ys, e', h') = (
  xs ++ ys,
  e' ∙ ap (λ l. l ++ ys) e ∙ append_assoc net.requests xs ys,
  All-append (λ r. r.client_data.id ≡ id) xs ys h h',
)

pub Kept-trans :
    (c d e : Client) (net net' net'' : Net)
    → Kept c net d net'
    → Kept d net' e net''
    → Kept c net e net''
Kept-trans c d e net net' net'' h k = record {
  client = SameClient-trans c d e h.client k.client;
  sends =
      Sends-trans c.id net net' net'' h.sends
        (subst (λ id. Sends id net' net'') h.client.same_id k.sends);
}

abbrev pub Stays : Client → Client × Option Error → Type 0
Stays c r = SameClient c r.0

abbrev pub Exits : Client → Client × ℕ × Option Error → Type 0
Exits c r = SameClient c r.0

pub stop_polling-SameClient : (c : Client) → Post (Stays c) (stop_polling c)
unfolding stop_polling
stop_polling-SameClient c =
    Post-if (Stays c) (not c.is_locked) (ok (c, some polling_error)) _ (SameClient-refl c) (
      Post-if (Stays c) (not c.started_polling) (ok (c, none)) _ (SameClient-refl c) (
        Post-then (Stays c) (stop_timer c.poll_timer) _ (λ timer.
          Post-then (Stays c) (close_stopper c.poll_stopper) _
            (λ stopper. record { same_id = refl; same_step = refl; same_or_exited = inl refl }))))

pub mark_exited-SameClient : (c : Client) (n : ℕ) → Post (Exits c) (mark_exited c n)
unfolding mark_exited set_throttle_cookie_val
mark_exited-SameClient c n =
    Post-if (Exits c) c.is_locked _ (ok (c, n, some state_error))
      (Post-then (Exits c) (wait_group_done n) _ (λ left. ground arith)) (SameClient-refl c)

-- MarkExited, then StopPolling.
pub leave-Post :
    {B : Type 0} (Q : B → Type 0) (c : Client) (n : ℕ) (f : Client → ℕ → B)
    → ((c' : Client) (left : ℕ) → SameClient c c' → Q (f c' left))
    → Post Q (do (c', left, _) ← mark_exited c n; (c'', _) ← stop_polling c'; ok (f c'' left))
leave-Post Q c n f k =
    Post-bind (Exits c) Q (mark_exited c n) _ (mark_exited-SameClient c n) (λ r h.
      Post-bind (Stays r.0) Q (stop_polling r.0) _ (stop_polling-SameClient r.0)
        (λ s l. k s.0 r.1 (SameClient-trans c r.0 s.0 h l)))

-- A step keeps the client, and the net but for requests in the client's name.
abbrev pub Keeps₂ : Client → Net → Client × Net → Type 0
Keeps₂ c net r = Kept c net r.0 r.1

send-Kept :
    (c : Client) (net : Net) (req : MockRequest)
    → req.client_data.id ≡ c.id
    → Kept c net c (record net { requests = net.requests ++ req ∷ [] })
send-Kept c net req e = record { client = SameClient-refl c; sends = (req ∷ [], refl, (e, tt)) }

-- The count of the wait group is no part of what is sent.
pub left-Kept :
    (c c' : Client) (net : Net) (left : ℕ)
    → SameClient c c'
    → Kept c net c' (record net { waiting = left })
left-Kept c c' net left h = record { client = h; sends = ([], append_nil net.requests, tt) }

die_on_request_timeout-Kept :
    (req : MockRequest) (c : Client) (net : Net)
    → req.client_data.id ≡ c.id
    → Post (Keeps₂ c net) (die_on_request_timeout req c net)
unfolding die_on_request_timeout
die_on_request_timeout-Kept req c net e =
    Post-if (Keeps₂ c net) (ltb (length net.requests) net.capacity)
      (ok (c, record net { requests = net.requests ++ req ∷ [] })) _ (send-Kept c net req e)
      (leave-Post (Keeps₂ c net) c net.waiting (λ c' left. (c', record net { waiting = left }))
        (λ c' left. left-Kept c c' net left))

pub send_initial_checkout_request-Kept :
    (c : Client) (net : Net) → Post (Keeps₂ c net) (send_initial_checkout_request c net)
unfolding send_initial_checkout_request make_checkout_request session_data
send_initial_checkout_request-Kept c net =
    Post-then (Keeps₂ c net) (rand_intn c.max_initial_delay_ms) _
      (λ u. die_on_request_timeout-Kept (make_checkout_request (session_data c)) c net refl)

started_same : (c : Client) → SameClient c (record c { started_polling = true })
started_same c = record { same_id = refl; same_step = refl; same_or_exited = inl refl }

pub make_single_poll_request-Kept :
    (c : Client) (net : Net) → Post (Keeps₂ c net) (make_single_poll_request c net)
unfolding make_single_poll_request make_poll_request session_data
make_single_poll_request-Kept c net =
    let c' = record c { started_polling = true } in
    Post-if (Keeps₂ c net) (not c.is_locked) (ok (c, net)) _
      (Kept-client c c net (SameClient-refl c))
      (Post-if (Keeps₂ c net) (not (is_queued c)) _ _
        (Post-bind (Stays c) (Keeps₂ c net) (stop_polling c) _ (stop_polling-SameClient c)
          (λ r h. Kept-client c r.0 net h))
        (Post-map (Keeps₂ c' net) (Keeps₂ c net) _
          (die_on_request_timeout-Kept (make_poll_request (session_data c')) c' net refl)
          (λ r h. Kept-trans c c' r.0 net net r.1 (Kept-client c c' net (started_same c)) h)))
