-- ===== src/Common/Panic.antt =====
-- Go code that may panic: a run-time panic ends the process, so it carries no state.
use goqueuesim.Common.Int.{ℤ, pos, negsuc, ◌-ℤ◌}
use goqueuesim.Common.Word.{i64}
use goqueuesim.Common.Clock.{div_ℤ, rem_ℤ}
use goqueuesim.Common.Tests.{if◌then◌else◌}
use Prim.Native.Nat.{zero, suc}
use Prim.Native.String.{String}
use mathlib.Core.Path.{◌≡◌, subst}
use mathlib.Core.Bool.{Bool, true, false}

pub data Panic : Type 0 where
  -- `(*time.Timer)(nil).Stop()`
  nil_timer : Panic
  close_of_nil_channel close_of_closed_channel : Panic
  -- `rand.Intn(n)` with n ≤ 0
  invalid_intn : Panic
  -- `sync: negative WaitGroup counter`
  negative_wait_group : Panic
  asymmetric_data : Panic
  unrecognized_state : Panic
  -- a method call on a nil interface
  nil_client : Panic
  division_by_zero : Panic
  -- a recursion that does not end
  stack_overflow : Panic
  index_out_of_range : Panic
  -- an interface that does not hold the type that is asserted
  type_assertion : Panic
  -- `panic` with an error or a text of the program's own
  fatal : String → Panic

pub data Outcome {ℓ} (A : Type ℓ) : Type ℓ where
  ok : A → Outcome A
  panic : Panic → Outcome A

infixl 5 ◌>>=◌
abbrev pub ◌>>=◌ {ℓ κ} : {A : Type ℓ} {B : Type κ} → Outcome A → (A → Outcome B) → Outcome B
ok a >>= f = f a
panic p >>= f = panic p

-- Go's integer division of int64 values.
unfoldable pub quot : ℤ → ℤ → Outcome ℤ
quot a (pos zero) = panic division_by_zero
quot a (pos (suc n)) = ok (div_ℤ a (suc n))
quot a (negsuc n) = ok (i64 (pos 0 -ℤ div_ℤ a (suc n)))

-- Go's remainder of int64 values, with the sign of the dividend.
unfoldable pub rem : ℤ → ℤ → Outcome ℤ
rem a (pos zero) = panic division_by_zero
rem a (pos (suc n)) = ok (rem_ℤ a (suc n))
rem a (negsuc n) = ok (rem_ℤ a (suc n))

-- What every result satisfies, if there is one.
abbrev pub Post {ℓ κ} : {A : Type ℓ} → (A → Type κ) → Outcome A → Type κ
Post P (ok a) = P a
Post P (panic p) = Unit

pub Post-bind {ℓ κ μ ν} :
    {A : Type ℓ} {B : Type κ} (P : A → Type μ) (Q : B → Type ν) (m : Outcome A) (f : A → Outcome B)
    → Post P m
    → ((a : A) → P a → Post Q (f a))
    → Post Q (m >>= f)
Post-bind P Q (ok a) f h k = k a h
Post-bind P Q (panic p) f h k = tt

pub Post-if {ℓ κ} :
    {A : Type ℓ} (P : A → Type κ) (b : Bool) (m n : Outcome A)
    → Post P m
    → Post P n
    → Post P (if b then m else n)
Post-if P true m n h k = h
Post-if P false m n h k = k

-- The same where the first part says nothing.
pub Post-then {ℓ κ ν} :
    {A : Type ℓ} {B : Type κ} (Q : B → Type ν) (m : Outcome A) (f : A → Outcome B)
    → ((a : A) → Post Q (f a))
    → Post Q (m >>= f)
Post-then Q (ok a) f k = k a
Post-then Q (panic p) f k = tt

pub Post-map {ℓ κ μ} :
    {A : Type ℓ} (P : A → Type κ) (Q : A → Type μ) (m : Outcome A)
    → Post P m
    → ((a : A) → P a → Q a)
    → Post Q m
Post-map P Q (ok a) h k = k a h
Post-map P Q (panic p) h k = tt

pub Post-ok {ℓ κ} :
    {A : Type ℓ} (P : A → Type κ) {m : Outcome A} {a : A} → Post P m → m ≡ ok a → P a
Post-ok P h e = subst (Post P) e h
