-- ===== src/Client/Cookies.antt =====
-- Facts on the throttle cookie and the marks of internal/client/impl/base_client.go.
use goqueuesim.Common.{String, ◌≡◌, true, arith, if◌then◌else◌}
use goqueuesim.Common.Map.{◌==◌, string_key, lookup, lookup-insert}
use goqueuesim.Common.Clock.{Time}
use goqueuesim.Client.{
  Client, made, set_throttle_cookie_val, get_throttle_cookie_val, advise_poll_after,
}

-- After a write to the cookie of a locked client, a read gives the value under the key written, and
-- what it gave before under every other key.
pub get-set_throttle_cookie_val :
    (key j value : String) (c : Client)
    → c.is_locked ≡ true
    → get_throttle_cookie_val j (set_throttle_cookie_val key value c).0
      ≡ (if key == j then (value, true) else get_throttle_cookie_val j c)
unfolding set_throttle_cookie_val get_throttle_cookie_val lookup
get-set_throttle_cookie_val key j value c h =
    ground (arith, lookup-insert key j value (made c.throttle_cookie))

-- The part of a client that the throttle driver decides on.
pub record SameThrottle (c d : Client) : Type 0 where
  pub same_id : d.id ≡ c.id
  pub same_state : d.state ≡ c.state
  pub same_lock : d.is_locked ≡ c.is_locked
  pub same_step : d.hit_checkout_step ≡ c.hit_checkout_step
  pub same_entry : d.queue_entry_time ≡ c.queue_entry_time
  pub same_exit : d.queue_exit_time ≡ c.queue_exit_time

pub SameThrottle-refl : (c : Client) → SameThrottle c c
SameThrottle-refl c = ground arith

pub SameThrottle-trans : (c d e : Client) → SameThrottle c d → SameThrottle d e → SameThrottle c e
SameThrottle-trans c d e h k = ground arith

pub set_throttle_cookie_val-SameThrottle :
    (key value : String) (c : Client) → SameThrottle c (set_throttle_cookie_val key value c).0
unfolding set_throttle_cookie_val
set_throttle_cookie_val-SameThrottle key value c = ground arith

pub advise_poll_after-SameThrottle :
    (t : Time) (c : Client) → SameThrottle c (advise_poll_after t c).0
unfolding advise_poll_after
advise_poll_after-SameThrottle t c = ground arith
