-- ===== src/Polling/Leaving.antt =====
-- How a client leaves the simulation: StopPolling, MarkExited and the response that reports checkout
-- (internal/client/impl/base_client.go).
use goqueuesim.Common.{
  ℕ, suc, ◌≡◌, ◌≢◌, refl, ap, ◌∙◌, ◌⊎◌, inl, inr, true, false, not, none, some, arith,
  if◌then◌else◌, Bool-cases, String,
}
use goqueuesim.Common.Map.{string_key, insert}
use goqueuesim.Common.Clock.{Time, is_zero}
use goqueuesim.Common.Panic.{ok, ◌>>=◌}
use goqueuesim.Client.{
  Client, nil_pointer, stopped, open_channel, closed_channel, in_checkout, exited, state_string,
  mark_exited, wait_group_done, set_throttle_cookie_val, advise_poll_after, throttle_state_key,
  made,
}
use goqueuesim.Network.{MockResponse}
use goqueuesim.Polling.{Net, stop_timer, close_stopper, stop_polling, returned}
use goqueuesim.Polling.Responses.{respond_in, delegate_response_to, handle_response}

pub record HasLeft (c c' : Client) : Type 0 where
  pub out : c'.state ≡ exited
  pub silent : c'.started_polling ≡ false
  pub same_step : c'.hit_checkout_step ≡ c.hit_checkout_step

stop_polling_ok :
    (c : Client)
    → c.is_locked ≡ true
    → (c.started_polling ≡ false) ⊎ ((c.poll_stopper ≡ open_channel) × (c.poll_timer ≢ nil_pointer))
    → (c' : Client) × (stop_polling c ≡ ok (c', none))
      × (c'.started_polling ≡ false)
      × (c'.state ≡ c.state)
      × (c'.hit_checkout_step ≡ c.hit_checkout_step)
unfolding stop_polling stop_timer close_stopper
stop_polling_ok c locked (inl e) = (c, ground arith, e, refl, refl)
stop_polling_ok c locked (inr (e, h)) = elim (Bool-cases c.started_polling) [
  | inl s ↦ (
    record c { started_polling = false; poll_timer = stopped; poll_stopper = closed_channel },
    ground arith,
    refl,
    refl,
    refl,
  )
  | inr s ↦ (c, ground arith, s, refl, refl)
]

-- What MarkExited leaves of a client that holds its lock.
record HasExited (c c' : Client) : Type 0 where
  out : c'.state ≡ exited
  locked : c'.is_locked ≡ true
  same_polling : c'.started_polling ≡ c.started_polling
  same_stopper : c'.poll_stopper ≡ c.poll_stopper
  same_timer : c'.poll_timer ≡ c.poll_timer
  same_step : c'.hit_checkout_step ≡ c.hit_checkout_step

mark_exited_ok :
    (c : Client) (n : ℕ)
    → c.is_locked ≡ true
    → (c' : Client) × (mark_exited c (suc n) ≡ ok (c', n, none)) × (HasExited c c')
unfolding mark_exited wait_group_done set_throttle_cookie_val
mark_exited_ok c n locked = (
  record c {
    state = exited;
    throttle_cookie =
        some (insert throttle_state_key (state_string exited) (made c.throttle_cookie));
  },
  ground arith,
  record {
    out = refl;
    locked = locked;
    same_polling = refl;
    same_stopper = refl;
    same_timer = refl;
    same_step = refl;
  },
)

advised_same :
    (t : Time) (c : Client)
    → c.is_locked ≡ true
    → (if not (is_zero t) then (advise_poll_after t c).0 else c)
      ≡ record c { advised_poll_after = if not (is_zero t) then t else c.advised_poll_after }
unfolding advise_poll_after
advised_same t c locked = ground arith

-- What the advice leaves.
abbrev with_advice : MockResponse → Client → Client
with_advice resp c =
    let t = resp.client_data.advised_poll_after in
    record c { advised_poll_after = if not (is_zero t) then t else c.advised_poll_after }

delegated :
    (resp : MockResponse) (c : Client) (net : Net)
    → string_key.same resp.client_data.throttle_state (state_string c.state) ≡ true
    → delegate_response_to c resp net
      ≡ respond_in c.state
          (if not (is_zero resp.client_data.advised_poll_after)
            then (advise_poll_after resp.client_data.advised_poll_after c).0
            else c)
          net
unfolding delegate_response_to
delegated resp c net h = rw h refl

finished :
    (c c₁ c₂ : Client) (net : Net) (n : ℕ)
    → mark_exited c net.waiting ≡ ok (c₁, n, none)
    → stop_polling c₁ ≡ ok (c₂, none)
    → respond_in in_checkout c net ≡ ok (c₂, record net { waiting = n }, returned)
unfolding respond_in
finished c c₁ c₂ net n marked stop = rw (marked, stop) refl

leaves :
    (resp : MockResponse) (c c₁ c₂ : Client) (net : Net) (n : ℕ)
    → c.is_locked ≡ true
    → c.state ≡ in_checkout
    → string_key.same resp.client_data.throttle_state (state_string c.state) ≡ true
    → mark_exited (with_advice resp c) net.waiting ≡ ok (c₁, n, none)
    → stop_polling c₁ ≡ ok (c₂, none)
    → handle_response resp c net ≡ ok (c₂, record net { waiting = n }, returned, none)
unfolding handle_response
leaves resp c c₁ c₂ net n locked e reported marked stop =
    let asked : delegate_response_to c resp net ≡ ok (c₂, record net { waiting = n }, returned) =
      delegated resp c net reported
      ∙ ap (λ x. respond_in c.state x net)
          (advised_same resp.client_data.advised_poll_after c locked)
      ∙ ap (λ s. respond_in s (with_advice resp c) net) e
      ∙ finished (with_advice resp c) c₁ c₂ net n marked stop in
    ap
      (λ b.
        if◌then◌else◌ (not b)
          (ok (c, net, returned, some "lock required to handle server response"))
          (delegate_response_to c resp net >>= (λ x. ok (x.0, x.1, x.2, none))))
      locked
    ∙ ap (λ o. o >>= (λ x. ok (x.0, x.1, x.2, none))) asked

string_self : (s : String) → string_key.same s s ≡ true
string_self s = (string_key.same_iff s s).1 refl

-- The response that reports checkout ends a client that polls or never did: it exits, polls no more,
-- and the wait group counts one client less. The stepping into checkout stays recorded.
pub handle_response_leaves :
    (resp : MockResponse) (c : Client) (net : Net) (n : ℕ)
    → c.is_locked ≡ true
    → c.state ≡ in_checkout
    → resp.client_data.throttle_state ≡ state_string in_checkout
    → (c.started_polling ≡ false) ⊎ ((c.poll_stopper ≡ open_channel) × (c.poll_timer ≢ nil_pointer))
    → net.waiting ≡ suc n
    → (c' : Client) × (handle_response resp c net
        ≡ ok (c', record net { waiting = n }, returned, none))
      × (HasLeft c c')
unfolding handle_response delegate_response_to
handle_response_leaves resp c net n locked e reported polls waiting =
    let (c₁, marked, left) = mark_exited_ok (with_advice resp c) n locked in
    let (c₂, stop, silent, same_state, same_step) =
      stop_polling_ok c₁ left.locked
        (rw (left.same_polling, left.same_stopper, left.same_timer) polls) in
    (
      c₂,
      leaves resp c c₁ c₂ net n locked e (rw (reported, e) (string_self (state_string in_checkout)))
          (rw waiting marked) stop,
      record {
        out = same_state ∙ left.out;
        silent = silent;
        same_step = same_step ∙ left.same_step;
      },
    )
