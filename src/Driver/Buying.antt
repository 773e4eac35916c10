-- ===== src/Driver/Buying.antt =====
-- What the queued case does between the lock and the unlock of the counter
-- (internal/throttle/throttle_driver.go).
use goqueuesim.Common.{◌≡◌, subst, ◌⊎◌, true, false, arith, none, ℤ, pos, negsuc, ◌+ℤ◌, ltb_ℤ}
use goqueuesim.Common.Word.{i32, IsI32, i32_lem}
use goqueuesim.Common.Clock.{Time}
use goqueuesim.Common.Float.{Float64}
use goqueuesim.Client.{Client, mark_in_checkout}
use goqueuesim.Counter.{atomic_add, atomic_read}
use goqueuesim.Counter
use goqueuesim.Queue.{Queue}
use goqueuesim.Driver.{Driver, take_stock}
use goqueuesim.Driver.Phases.{finished, removing, buy}

-- What GlobalInventoryCounter.Unlock() leaves of a counter that was read, and of one that was set.
abbrev pub given_up : {S : Type 0} → Driver S → Driver S
given_up d = record d { inventory = record { is_locked = false; count = d.inventory.count } }

abbrev pub holding : {S : Type 0} → ℤ → Driver S → Driver S
holding n d = record d { inventory = record { is_locked = false; count = n } }

mark_succeeds : (now : Time) (c : Client) → c.is_locked ≡ true → (mark_in_checkout now c).1 ≡ none
unfolding mark_in_checkout
mark_succeeds now c locked = ground arith

module _ {fl : Float64} {S : Type 0} (q : Queue fl S) (now : Time) (d : Driver S) (c : Client) where
  -- The counter is below zero, or the client is not locked.
  abbrev pub Refused : Type 0
  Refused = (ltb_ℤ d.inventory.count (pos 0) ≡ true) ⊎ (c.is_locked ≡ false)

  pub buy_refused : Refused → buy q now d c ≡ (given_up d, c, finished)
  unfolding buy mark_in_checkout atomic_read Counter.lock Counter.unlock
  buy_refused h = ground arith

  pub take_stock_refused :
      Refused
      → take_stock q now d c
        ≡ record { driver = given_up d; client = c; state = c.state; changed = false }
  unfolding take_stock mark_in_checkout atomic_read Counter.lock Counter.unlock
  take_stock_refused h = ground arith

  abbrev pub left : ℤ
  left = i32 (d.inventory.count +ℤ negsuc 0)

  pub buy_takes :
      ltb_ℤ d.inventory.count (pos 0) ≡ false
      → c.is_locked ≡ true
      → buy q now d c ≡ (holding left d, (mark_in_checkout now c).0, removing left)
  unfolding buy atomic_read atomic_add Counter.lock Counter.unlock
  buy_takes there locked = rw (there, mark_succeeds now c locked)

  pub buy_sells :
      ltb_ℤ d.inventory.count (pos 0) ≡ false
      → c.is_locked ≡ true
      → IsI32 (d.inventory.count +ℤ negsuc 0)
      → buy q now d c ≡ (
        holding (d.inventory.count +ℤ negsuc 0) d,
        (mark_in_checkout now c).0,
        removing (d.inventory.count +ℤ negsuc 0),
      )
  buy_sells there locked small =
      subst (λ n. buy q now d c ≡ (holding n d, (mark_in_checkout now c).0, removing n))
        (i32_lem (d.inventory.count +ℤ negsuc 0) small) (buy_takes there locked)
