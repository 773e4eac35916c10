-- ===== src/Counter.antt =====
-- internal/common/AtomicCounter.go: the shared inventory counter, an int32 behind a lock flag.
use goqueuesim.Common.{
  String, Bool, true, false, Option, none, some, if◌then◌else◌, ℤ, negsuc, ◌+ℤ◌,
}
use goqueuesim.Common.Word.{i32}

pub record AtomicCounter : Type 0 where
  pub is_locked : Bool
  pub count : ℤ

-- AtomicCounter.Lock and Unlock, once the mutex is held.
unfoldable pub lock : AtomicCounter → AtomicCounter
lock ac = record ac { is_locked = true }

unfoldable pub unlock : AtomicCounter → AtomicCounter
unlock ac = record ac { is_locked = false }

-- AtomicCounter.AtomicAdd
unfoldable pub atomic_add : ℤ → AtomicCounter → AtomicCounter × ℤ × Option String
atomic_add delta ac =
    if ac.is_locked
    then (record ac { count = i32 (ac.count +ℤ delta) }, i32 (ac.count +ℤ delta), none)
    else (ac, negsuc 0, some "lock required to mutate atomic counter")

-- AtomicCounter.AtomicRead
unfoldable pub atomic_read : AtomicCounter → ℤ × Option String
atomic_read ac =
    if ac.is_locked
    then (ac.count, none)
    else (negsuc 0, some "lock required to read atomic counter")
