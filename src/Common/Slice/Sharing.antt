-- ===== src/Common/Slice/Sharing.antt =====
-- What is read through a slice after `append`, which may write into an array that others share.
use goqueuesim.Common.Slice.{Heap, Slice, array_at, set_array, range, write, read, blanks, append}
use goqueuesim.Common.Tests.{if◌then◌else◌, leb}
use goqueuesim.Common.Lists.{length, length-append}
use Prim.Native.Nat.{ℕ, zero, ◌+◌, ◌≤◌, ◌<◌}
use Prim.Native.String.{String}
use mathlib.Core.Path.{◌≡◌, refl, sym, ap, ◌∙◌}
use mathlib.Core.Bool.{Bool, true, false}
use mathlib.Core.List.{List, [], ◌∷◌, ◌++◌}
use native.Mathlib.Omega.{arith}
use goqueuesim.Common.Slice.Writes.{
  array_at-set_array, array_at-last, range-write, range-all, length-range, length-set_array,
  length-write, length-blanks,
}

-- The slice lies in an array of the heap.
pub record IsValid (h : Heap) (s : Slice) : Type 0 where
  pub allocated : s.array < length h
  pub len_below : s.len ≤ s.cap
  pub in_array : s.offset + s.cap ≤ length (array_at s.array h)

leb_to_le : (m n : ℕ) → leb m n ≡ true → m ≤ n
leb_to_le m n e = ground arith

-- The copy that append makes, behind which `tail` is unused room.
copied :
    (o n : ℕ) (arr ys tail : List String)
    → o + n ≤ length arr
    → range zero (n + length ys) (range o n arr ++ ys ++ tail) ≡ range o n arr ++ ys
copied o n arr ys tail room =
    let old = range o n arr in
    let size : n + length ys ≡ length (old ++ ys) =
      sym (length-append old ys ∙ ap (λ k. k + length ys) (length-range o n arr room)) in
    ap (λ k. range zero k (old ++ ys ++ tail)) size ∙ range-all (old ++ ys) tail

-- What is read through the slice that append returns is what was read before, followed by the new
-- entries, whether they fitted the array or not.
pub read-append :
    (spare : ℕ → ℕ) (h : Heap) (s : Slice) (ys : List String)
    → IsValid h s
    → read (append spare s ys h).0 (append spare s ys h).1 ≡ read h s ++ ys
unfolding read append
read-append spare h s ys v = go (leb (s.len + length ys) s.cap) refl
  where
    go :
        (b : Bool)
        → leb (s.len + length ys) s.cap ≡ b
        → let n = s.len + length ys in
          let arr = array_at s.array h in
          let r : Heap × Slice =
            if b
            then (set_array s.array (write (s.offset + s.len) ys arr) h, record s { len = n })
            else (
              h ++ (range s.offset s.len arr ++ ys ++ blanks (spare n)) ∷ [],
              record { array = length h; offset = 0; len = n; cap = n + spare n },
            ) in
          range r.1.offset r.1.len (array_at r.1.array r.0) ≡ range s.offset s.len arr ++ ys
    go true fits =
        let arr = array_at s.array h in
        let k = s.offset + s.len in
        ap (range s.offset (s.len + length ys))
          (array_at-set_array s.array (write k ys arr) h v.allocated)
        ∙ range-write s.offset s.len k (s.len + length ys) ys arr refl refl
            (omega (arith, v.in_array, leb_to_le (s.len + length ys) s.cap fits))
    go false full =
        let arr = array_at s.array h in
        let n = s.len + length ys in
        ap (range zero n) (array_at-last (range s.offset s.len arr ++ ys ++ blanks (spare n)) h)
        ∙ copied s.offset s.len arr ys (blanks (spare n)) (omega (arith, v.in_array, v.len_below))

in_place-IsValid :
    (h : Heap) (s : Slice) (ys : List String)
    → IsValid h s
    → s.len + length ys ≤ s.cap
    → IsValid
        (set_array s.array (write (s.offset + s.len) ys (array_at s.array h)) h)
        (record s { len = s.len + length ys })
in_place-IsValid h s ys v fits =
    let arr = array_at s.array h in
    let k = s.offset + s.len in
    record {
      allocated = omega (arith, v.allocated, length-set_array s.array (write k ys arr) h);
      len_below = fits;
      in_array =
          rw (array_at-set_array s.array (write k ys arr) h v.allocated, length-write k ys arr)
            v.in_array;
    }

copied-IsValid :
    (h : Heap) (n m : ℕ) (old ys tail : List String)
    → n ≡ length old + length ys
    → m ≡ length tail
    → IsValid
        (h ++ (old ++ ys ++ tail) ∷ [])
        (record { array = length h; offset = 0; len = n; cap = n + m })
copied-IsValid h n m old ys tail e f = record {
  allocated = omega (arith, length-append h ((old ++ ys ++ tail) ∷ []));
  len_below = omega arith;
  in_array =
      rw (array_at-last (old ++ ys ++ tail) h)
        (omega (arith, e, f, length-append (old ++ ys) tail, length-append old ys));
}

pub append-IsValid :
    (spare : ℕ → ℕ) (h : Heap) (s : Slice) (ys : List String)
    → IsValid h s
    → IsValid (append spare s ys h).0 (append spare s ys h).1
unfolding append read
append-IsValid spare h s ys v = go (leb (s.len + length ys) s.cap) refl
  where
    go :
        (b : Bool)
        → leb (s.len + length ys) s.cap ≡ b
        → let n = s.len + length ys in
          let arr = array_at s.array h in
          let r : Heap × Slice =
            if b
            then (set_array s.array (write (s.offset + s.len) ys arr) h, record s { len = n })
            else (
              h ++ (range s.offset s.len arr ++ ys ++ blanks (spare n)) ∷ [],
              record { array = length h; offset = 0; len = n; cap = n + spare n },
            ) in
          IsValid r.0 r.1
    go true fits = in_place-IsValid h s ys v (leb_to_le (s.len + length ys) s.cap fits)
    go false full =
        let n = s.len + length ys in
        let old = range s.offset s.len (array_at s.array h) in
        let size : length old ≡ s.len =
          length-range s.offset s.len (array_at s.array h)
            (omega (arith, v.in_array, v.len_below)) in
        copied-IsValid h n (spare n) old ys (blanks (spare n)) (omega (arith, size))
          (sym (length-blanks (spare n)))
