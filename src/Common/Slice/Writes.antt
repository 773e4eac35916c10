-- ===== src/Common/Slice/Writes.antt =====
-- The entries of arrays of strings, and how writing changes them.
use goqueuesim.Common.Slice.{Heap, array_at, set_array, range, write, blanks}
use goqueuesim.Common.Lists.{length}
use Prim.Native.Nat.{ℕ, zero, suc, ◌+◌, ◌≤◌, ◌<◌}
use Prim.Native.String.{String}
use mathlib.Core.Path.{◌≡◌, refl, ap, ◌∙◌}
use mathlib.Core.List.{List, [], ◌∷◌, ◌++◌}
use native.Mathlib.Omega.{arith}

pub array_at-set_array :
    (n : ℕ) (ys : List String) (h : Heap) → n < length h → array_at n (set_array n ys h) ≡ ys
unfolding array_at set_array
array_at-set_array n ys [] lt = ground arith
array_at-set_array zero ys (xs ∷ h) lt = refl
array_at-set_array (suc n) ys (xs ∷ h) lt = array_at-set_array n ys h (omega (arith, lt))

pub array_at-last : (xs : List String) (h : Heap) → array_at (length h) (h ++ xs ∷ []) ≡ xs
unfolding array_at
array_at-last xs [] = refl
array_at-last xs (ys ∷ h) = array_at-last xs h

pub array_at-append : (n : ℕ) (h g : Heap) → n < length h → array_at n (h ++ g) ≡ array_at n h
unfolding array_at
array_at-append n [] g lt = ground arith
array_at-append zero (xs ∷ h) g lt = refl
array_at-append (suc n) (xs ∷ h) g lt = array_at-append n h g (omega (arith, lt))

pub range-zero : (xs : List String) → range zero zero xs ≡ []
unfolding range
range-zero [] = refl
range-zero (x ∷ xs) = refl

pub range-write_here :
    (n k m : ℕ) (ys xs : List String)
    → k ≡ n
    → m ≡ n + length ys
    → m ≤ length xs
    → range zero m (write k ys xs) ≡ range zero n xs ++ ys
unfolding range write
range-write_here zero zero zero [] [] e f room = refl
range-write_here zero zero zero [] (x ∷ xs) e f room = refl
range-write_here zero zero zero (y ∷ ys) xs e f room = ground arith
range-write_here zero zero (suc m) [] xs e f room = ground arith
range-write_here zero zero (suc m) (y ∷ ys) [] e f room = ground arith
range-write_here zero zero (suc m) (y ∷ ys) (x ∷ xs) e f room =
    ap (λ r. y ∷ r)
      (range-write_here zero zero m ys xs refl (omega (arith, f)) (omega (arith, room))
        ∙ ap (λ r. r ++ ys) (range-zero xs))
range-write_here zero (suc k) m ys xs e f room = ground arith
range-write_here (suc n) zero m ys xs e f room = ground arith
range-write_here (suc n) (suc k) zero ys xs e f room = ground arith
range-write_here (suc n) (suc k) (suc m) ys [] e f room = ground arith
range-write_here (suc n) (suc k) (suc m) ys (x ∷ xs) e f room =
    ap (λ r. x ∷ r)
      (range-write_here n k m ys xs (omega (arith, e)) (omega (arith, f)) (omega (arith, room)))

pub range-write :
    (o n k m : ℕ) (ys xs : List String)
    → k ≡ o + n
    → m ≡ n + length ys
    → o + m ≤ length xs
    → range o m (write k ys xs) ≡ range o n xs ++ ys
unfolding range write
range-write zero n k m ys xs e f room =
    range-write_here n k m ys xs (omega (arith, e)) f (omega (arith, room))
range-write (suc o) n zero m ys xs e f room = ground arith
range-write (suc o) n (suc k) m ys [] e f room = ground arith
range-write (suc o) n (suc k) m ys (x ∷ xs) e f room =
    range-write o n k m ys xs (omega (arith, e)) f (omega (arith, room))

pub range-all : (xs ys : List String) → range zero (length xs) (xs ++ ys) ≡ xs
unfolding range
range-all [] ys = range-zero ys
range-all (x ∷ xs) ys = ap (λ r. x ∷ r) (range-all xs ys)

pub length-range : (o n : ℕ) (xs : List String) → o + n ≤ length xs → length (range o n xs) ≡ n
unfolding range
length-range o n [] room = omega (arith, room)
length-range zero zero (x ∷ xs) room = refl
length-range zero (suc n) (x ∷ xs) room = ap suc (length-range zero n xs (omega (arith, room)))
length-range (suc o) n (x ∷ xs) room = length-range o n xs (omega (arith, room))

pub length-set_array : (n : ℕ) (ys : List String) (h : Heap) → length (set_array n ys h) ≡ length h
unfolding set_array
length-set_array n ys [] = refl
length-set_array zero ys (xs ∷ h) = refl
length-set_array (suc n) ys (xs ∷ h) = ap suc (length-set_array n ys h)

pub length-write : (o : ℕ) (ys xs : List String) → length (write o ys xs) ≡ length xs
unfolding write
length-write o ys [] = refl
length-write zero [] (x ∷ xs) = refl
length-write zero (y ∷ ys) (x ∷ xs) = ap suc (length-write zero ys xs)
length-write (suc o) ys (x ∷ xs) = ap suc (length-write o ys xs)

pub length-blanks : (n : ℕ) → length (blanks n) ≡ n
unfolding blanks
length-blanks zero = refl
length-blanks (suc n) = ap suc (length-blanks n)
