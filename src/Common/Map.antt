-- ===== src/Common/Map.antt =====
-- Go's maps: an association list that holds each key once.
use goqueuesim.Common.Tests.{if◌then◌else◌}
use goqueuesim.Common.Int.{ℤ, ◌==ℤ◌, ==ℤ_iff}
use goqueuesim.Common.Lists.{length}
use Prim.Native.Nat.{suc, ◌+◌, ◌≤◌}
use Prim.Native.String.{String}
use text.Mathlib.Text.{◌==◌ as str_eq}
use text.Mathlib.TextEquality.{eq_iff}
use mathlib.Core.Path.{◌≡◌, refl}
use mathlib.Core.Logic.{◌↔◌}
use mathlib.Core.Bool.{Bool, true}
use mathlib.Core.Option.{Option, none, some}
use mathlib.Core.List.{List, [], ◌∷◌}
use native.Mathlib.Omega.{arith}

-- A type of keys: Go compares them with `==`.
pub record Key {ℓ} (K : Type ℓ) : Type ℓ where
  pub same : K → K → Bool
  pub same_iff : (k j : K) → (same k j ≡ true) ↔ (k ≡ j)

instance abbrev pub string_key : Key String
string_key = record { same = str_eq; same_iff = eq_iff }

instance abbrev pub int_key : Key ℤ
int_key = record { same = ◌==ℤ◌; same_iff = ==ℤ_iff }

infix 50 ◌==◌
abbrev pub ◌==◌ {ℓ} : {K : Type ℓ} ⦃key : Key K⦄ → K → K → Bool
◌==◌ ⦃key⦄ = key.same

abbrev pub Map {ℓ κ} : Type ℓ → Type κ → Type (ℓ ⊔ κ)
Map K V = List (K × V)

module _ {ℓ κ} {K : Type ℓ} {V : Type κ} ⦃key : Key K⦄ where
  -- `v, ok := m[k]`
  unfoldable pub lookup : K → Map K V → Option V
  lookup wanted [] = none
  lookup wanted ((k, found) ∷ rest) = if k == wanted then some found else lookup wanted rest

  -- `m[k] = v`
  unfoldable pub insert : K → V → Map K V → Map K V
  insert wanted new [] = (wanted, new) ∷ []
  insert wanted new ((k, old) ∷ rest) =
      if k == wanted then (wanted, new) ∷ rest else (k, old) ∷ insert wanted new rest

  -- `delete(m, k)`
  unfoldable pub delete : K → Map K V → Map K V
  delete wanted [] = []
  delete wanted ((k, old) ∷ rest) = if k == wanted then rest else (k, old) ∷ delete wanted rest

  -- `m[k]` where a missing key reads as the zero value `d`
  unfoldable pub lookup_or : V → K → Map K V → V
  unfolding lookup
  lookup_or d k m = elim (lookup k m) [ none ↦ d | some v ↦ v ]

  pub lookup-insert :
      (at asked : K) (new : V) (m : Map K V)
      → lookup asked (insert at new m) ≡ (if at == asked then some new else lookup asked m)
  unfolding insert lookup
  lookup-insert at asked new [] = refl
  lookup-insert at asked new ((k, old) ∷ rest) =
      let rec = lookup-insert at asked new rest in
      ground (arith, key.same_iff k at, key.same_iff k asked, key.same_iff at asked, rec)

  pub lookup-insert_self : (k : K) (v : V) (m : Map K V) → lookup k (insert k v m) ≡ some v
  lookup-insert_self k v m = rw (lookup-insert k k v m, (key.same_iff k k).1 refl)

  -- A write grows the map by one exactly where the key is new.
  pub length-insert :
      (k : K) (v : V) (m : Map K V)
      → length (insert k v m) ≡ elim (lookup k m) [ none ↦ suc (length m) | some _ ↦ length m ]
  unfolding lookup insert
  length-insert k v [] = refl
  length-insert k v ((j, w) ∷ m) = ground (arith, length-insert k v m)

  pub length-insert-le : (k : K) (v : V) (m : Map K V) → length (insert k v m) ≤ length m + 1
  length-insert-le k v m = ground (arith, length-insert k v m)

  pub le-length-insert : (k : K) (v : V) (m : Map K V) → length m ≤ length (insert k v m)
  le-length-insert k v m = ground (arith, length-insert k v m)
