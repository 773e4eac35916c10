-- ===== src/Common/Slice.antt =====
-- Go's slices of strings: windows on arrays that they share. `append` writes into the array of its
-- slice while the capacity lasts, and copies to a new array otherwise, whose capacity the runtime
-- chooses.
pub mod Writes
pub mod Sharing
use goqueuesim.Common.Tests.{if◌then◌else◌, leb}
use goqueuesim.Common.Lists.{length, length-append}
use Prim.Native.Nat.{ℕ, zero, suc, ◌+◌, ◌-◌, ◌≤◌, ◌<◌}
use Prim.Native.String.{String}
use mathlib.Core.Path.{◌≡◌, refl, sym, ap, ◌∙◌}
use mathlib.Core.Logic.{◌≢◌}
use mathlib.Core.Bool.{Bool, true, false}
use mathlib.Core.List.{List, [], ◌∷◌, ◌++◌}
use native.Mathlib.Omega.{arith}

-- The arrays that were allocated, each with as many entries as its capacity.
abbrev pub Heap : Type 0
Heap = List (List String)

pub record Slice : Type 0 where
  pub array : ℕ
  pub offset : ℕ
  pub len : ℕ
  pub cap : ℕ

unfoldable pub array_at : ℕ → Heap → List String
array_at n [] = []
array_at zero (xs ∷ h) = xs
array_at (suc n) (xs ∷ h) = array_at n h

unfoldable pub set_array : ℕ → List String → Heap → Heap
set_array n ys [] = []
set_array zero ys (xs ∷ h) = ys ∷ h
set_array (suc n) ys (xs ∷ h) = xs ∷ set_array n ys h

-- The `n` entries from an offset on.
unfoldable pub range : ℕ → ℕ → List String → List String
range o n [] = []
range zero zero (x ∷ xs) = []
range zero (suc n) (x ∷ xs) = x ∷ range zero n xs
range (suc o) n (x ∷ xs) = range o n xs

-- Entries written over those from an offset on.
unfoldable pub write : ℕ → List String → List String → List String
write o ys [] = []
write zero [] (x ∷ xs) = x ∷ xs
write zero (y ∷ ys) (x ∷ xs) = y ∷ write zero ys xs
write (suc o) ys (x ∷ xs) = x ∷ write o ys xs

unfoldable pub read : Heap → Slice → List String
read h s = range s.offset s.len (array_at s.array h)

-- A composite literal, `[]string{...}`, or make and a loop that fills it.
unfoldable pub slice_of : List String → Heap → Heap × Slice
slice_of xs h =
    (h ++ xs ∷ [], record { array = length h; offset = 0; len = length xs; cap = length xs })

-- `s[i:j]`, for i ≤ j ≤ cap(s)
unfoldable pub sub_slice : ℕ → ℕ → Slice → Slice
sub_slice i j s = record { array = s.array; offset = s.offset + i; len = j - i; cap = s.cap - i }

unfoldable blanks : ℕ → List String
blanks zero = []
blanks (suc n) = "" ∷ blanks n

-- `append(s, ys...)`; `spare n` is the room that the runtime leaves behind `n` entries.
unfoldable pub append : (ℕ → ℕ) → Slice → List String → Heap → Heap × Slice
unfolding blanks
append spare s ys h =
    let n = s.len + length ys in
    if leb n s.cap
    then (
      set_array s.array (write (s.offset + s.len) ys (array_at s.array h)) h,
      record s { len = n },
    )
    else (
      h ++ (read h s ++ ys ++ blanks (spare n)) ∷ [],
      record { array = length h; offset = 0; len = n; cap = n + spare n },
    )
