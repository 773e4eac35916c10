-- ===== src/Common/Float.antt =====
-- float64 and the operations on it that the program calls. The checker has no floats: the type and
-- its operations are a parameter of the definitions that compute with them.
use goqueuesim.Common.Int.{ℤ, pos, negsuc, pos_part, ◌*ℤ◌, ◌-ℤ◌, ◌+ℤ◌, ltb_ℤ, leb_ℤ, ◌==ℤ◌}
use goqueuesim.Common.Clock.{Duration, div_ℤ, rem_ℤ, second, millisecond}
use goqueuesim.Common.Word.{i64}
use goqueuesim.Common.Tests.{if◌then◌else◌}
use Prim.Native.Nat.{ℕ, suc, ◌+◌, ◌-◌, ◌*◌, ◌/◌, ◌^◌}
use mathlib.Core.Bool.{Bool}

pub record Float64 : Type 1 where
  pub Carrier : Type 0
  -- float64(n)
  pub of_int : ℤ → Carrier
  -- the literal nearest to n / d
  pub literal : ℕ → ℕ → Carrier
  pub add : Carrier → Carrier → Carrier
  pub sub : Carrier → Carrier → Carrier
  pub mul : Carrier → Carrier → Carrier
  pub div : Carrier → Carrier → Carrier
  -- the comparisons `<`, `<=` and `==`
  pub lt : Carrier → Carrier → Bool
  pub le : Carrier → Carrier → Bool
  pub eq : Carrier → Carrier → Bool
  -- math.Ceil, math.Floor, math.Max, math.Min and math.Pow
  pub ceil : Carrier → Carrier
  pub floor : Carrier → Carrier
  pub max : Carrier → Carrier → Carrier
  pub min : Carrier → Carrier → Carrier
  pub pow : Carrier → Carrier → Carrier
  -- int64(x)
  pub to_int : Carrier → ℤ

-- d.Seconds()
unfoldable pub seconds : (fl : Float64) → Duration → fl.Carrier
seconds fl d =
    fl.add (fl.of_int (div_ℤ d second)) (fl.div (fl.of_int (rem_ℤ d second)) (fl.literal second 1))

-- `time.Duration(x) * time.Millisecond`
unfoldable pub millis : (fl : Float64) → fl.Carrier → Duration
millis fl x = i64 (fl.to_int x *ℤ pos millisecond)

-- A fraction with a denominator that is not zero, as a concrete instance for tests.
pub record Fraction : Type 0 where
  pub top : ℤ
  pub bottom : ℕ

abbrev over : ℤ → ℤ → ℕ → ℕ → Fraction
over n (pos d) a b = record { top = n *ℤ pos b; bottom = d * a }
over n (negsuc d) a b = record { top = (pos 0 -ℤ n) *ℤ pos b; bottom = suc d * a }

abbrev floor_ℤ : ℤ → ℕ → ℤ
floor_ℤ (pos n) d = pos (n / d)
floor_ℤ (negsuc n) d = pos 0 -ℤ pos ((n + d) / d)

abbrev ceil_ℤ : ℤ → ℕ → ℤ
ceil_ℤ (pos n) d = pos ((n + d - 1) / d)
ceil_ℤ (negsuc n) d = div_ℤ (negsuc n) d

abbrev pub fractions : Float64
fractions = record {
  Carrier = Fraction;
  of_int = λ n. record { top = n; bottom = 1 };
  literal = λ n d. record { top = pos n; bottom = d };
  add = λ x y. record {
    top = x.top *ℤ pos y.bottom +ℤ y.top *ℤ pos x.bottom;
    bottom = x.bottom * y.bottom;
  };
  sub = λ x y. record {
    top = x.top *ℤ pos y.bottom -ℤ y.top *ℤ pos x.bottom;
    bottom = x.bottom * y.bottom;
  };
  mul = λ x y. record { top = x.top *ℤ y.top; bottom = x.bottom * y.bottom };
  div = λ x y. over x.top y.top x.bottom y.bottom;
  lt = λ x y. ltb_ℤ (x.top *ℤ pos y.bottom) (y.top *ℤ pos x.bottom);
  le = λ x y. leb_ℤ (x.top *ℤ pos y.bottom) (y.top *ℤ pos x.bottom);
  eq = λ x y. (x.top *ℤ pos y.bottom) ==ℤ (y.top *ℤ pos x.bottom);
  ceil = λ x. record { top = ceil_ℤ x.top x.bottom; bottom = 1 };
  floor = λ x. record { top = floor_ℤ x.top x.bottom; bottom = 1 };
  max = λ x y. if leb_ℤ (x.top *ℤ pos y.bottom) (y.top *ℤ pos x.bottom) then y else x;
  min = λ x y. if leb_ℤ (x.top *ℤ pos y.bottom) (y.top *ℤ pos x.bottom) then x else y;
  pow = λ x y. record {
    top = pos (pos_part x.top ^ pos_part y.top);
    bottom = x.bottom ^ pos_part y.top;
  };
  to_int = λ x. div_ℤ x.top x.bottom;
}
