-- ===== src/Queue/LuaDriven/Stock.antt =====
-- The Lua driven queue at the end of the stock
-- (internal/throttle/queue/impl/redis_queue/lua_driven_queue.go).
use goqueuesim.Common.{
  ◌≡◌, refl, ap, subst, Bool, true, false, arith, if◌then◌else◌, ℤ, pos, ◌≤ℤ◌, leb_ℤ,
}
use goqueuesim.Common.Clock.{Time}
use goqueuesim.Common.Panic.{Outcome, ok}
use goqueuesim.Common.Float.{Float64}
use goqueuesim.Client.{Client}
use goqueuesim.Counter.{AtomicCounter, atomic_read}
use goqueuesim.Counter
use goqueuesim.Queue.LuaDriven.{LuaCalls, LuaDrivenQueue, remaining, is_candidate_to_proceed}

ok-inj {ℓ} : {A : Type ℓ} {a b : A} → ok a ≡ ok b → a ≡ b
ok-inj e = cc e

remaining-eq : (counter : AtomicCounter) → remaining counter ≡ counter.count
unfolding remaining atomic_read Counter.lock
remaining-eq counter = refl

-- A guarded call that answers true has passed its guard.
guarded :
    {A : Type 0} (n : ℤ) (a b : A) (m : Outcome (A × Bool))
    → (if leb_ℤ n (pos 0) then ok (a, false) else m) ≡ ok (b, true)
    → pos 1 ≤ℤ n
guarded {A} n a b m e = go (leb_ℤ n (pos 0)) refl e
  where
    go :
        (refused : Bool)
        → leb_ℤ n (pos 0) ≡ refused
        → (if◌then◌else◌ {A = Outcome (A × Bool)} refused (ok (a, false)) m) ≡ ok (b, true)
        → pos 1 ≤ℤ n
    go true low f = let same : false ≡ true = ap (λ r. r.1) (ok-inj f) in cc same
    go false high f = ground arith

module _ {fl : Float64} {R : Type 0} (calls : LuaCalls fl R) where
  -- Whatever Redis holds and answers, a poll lets a client through only while there is stock.
  pub candidate_needs_stock :
      (now : Time) (counter : AtomicCounter) (q q' : LuaDrivenQueue R) (c : Client)
      → is_candidate_to_proceed calls now counter q c ≡ ok (q', true)
      → pos 1 ≤ℤ counter.count
  unfolding is_candidate_to_proceed
  candidate_needs_stock now counter q q' c e =
      subst (λ n. pos 1 ≤ℤ n) (remaining-eq counter) (guarded (remaining counter) _ q' _ e)
