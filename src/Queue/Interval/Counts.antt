-- ===== src/Queue/Interval/Counts.antt =====
-- The clients counted in the bins of internal/throttle/queue/impl/interval_bins_queue.go.
use goqueuesim.Common.{
  ℕ, ◌+◌, ◌≤◌, ◌<◌, ◌^◌, ◌≡◌, refl, ◌∙◌, ap, inl, inr, none, [], ◌∷◌, arith, if◌then◌else◌,
  Bool-cases, Option-cases, ℤ, pos, ◌+ℤ◌, ◌==ℤ◌, ==ℤ_iff, pos_part, neg_part, +ℤ_parts, eq_of_parts,
}
use goqueuesim.Common.Map.{Map, int_key, lookup, insert, lookup_or, lookup-insert}
use goqueuesim.Common.Word.{i64, i64_lem}
use goqueuesim.Queue.Interval.{bin_count, ensure_count}

-- The clients counted in all bins.
unfoldable pub sum_counts : Map ℤ ℤ → ℤ
sum_counts [] = pos 0
sum_counts ((i, n) ∷ m) = n +ℤ sum_counts m

cons_hit : (k n s : ℤ) → n +ℤ s +ℤ k ≡ k +ℤ s +ℤ n
cons_hit k n s = omega (arith, +ℤ_parts, eq_of_parts)

cons_miss : (k b n s t : ℤ) → s +ℤ b ≡ t +ℤ n → k +ℤ s +ℤ b ≡ k +ℤ t +ℤ n
cons_miss k b n s t h = omega (arith, +ℤ_parts, eq_of_parts, ap pos_part h, ap neg_part h)

bin_count-cons :
    (i j k : ℤ) (m : Map ℤ ℤ) → bin_count i ((j, k) ∷ m) ≡ (if j ==ℤ i then k else bin_count i m)
unfolding bin_count lookup_or lookup
bin_count-cons i j k m = ground arith

sum-cons : (i n : ℤ) (m : Map ℤ ℤ) → sum_counts ((i, n) ∷ m) ≡ n +ℤ sum_counts m
unfolding sum_counts
sum-cons i n m = refl

insert-cons :
    (i n j k : ℤ) (m : Map ℤ ℤ)
    → insert i n ((j, k) ∷ m) ≡ (if j ==ℤ i then (i, n) ∷ m else (j, k) ∷ insert i n m)
unfolding insert
insert-cons i n j k m = refl

-- Writing a bin's count changes the sum by the difference.
sum-insert :
    (i n : ℤ) (m : Map ℤ ℤ) → sum_counts (insert i n m) +ℤ bin_count i m ≡ sum_counts m +ℤ n
sum-insert i n [] =
    unfold sum_counts insert bin_count lookup_or lookup in omega (arith, +ℤ_parts, eq_of_parts)
sum-insert i n ((j, k) ∷ m) = elim (Bool-cases (j ==ℤ i)) [
  | inl hit ↦
      rw (insert-cons i n j k m, bin_count-cons i j k m, hit, sum-cons i n m, sum-cons j k m)
        (cons_hit k n (sum_counts m))
  | inr miss ↦
      rw
        (
          insert-cons i n j k m,
          bin_count-cons i j k m,
          miss,
          sum-cons j k (insert i n m),
          sum-cons j k m,
        )
        (cons_miss k (bin_count i m) n (sum_counts (insert i n m)) (sum_counts m)
          (sum-insert i n m))
]

bin_count-insert :
    (i j n : ℤ) (m : Map ℤ ℤ) → bin_count j (insert i n m) ≡ (if i ==ℤ j then n else bin_count j m)
unfolding bin_count lookup_or
bin_count-insert i j n m = ground (arith, lookup-insert i j n m)

bin_count-ensure_count : (i j : ℤ) (m : Map ℤ ℤ) → bin_count j (ensure_count i m) ≡ bin_count j m
unfolding bin_count ensure_count lookup_or
bin_count-ensure_count i j m = ground (arith, lookup-insert i j (pos 0) m, ==ℤ_iff i j)

abbrev pub Within : ℕ → ℤ → Type 0
Within k a = (pos_part a ≤ k) × (neg_part a ≤ k)

-- The counts add up to the size of the queue, and no number passes `k`.
pub record IsCounted (k : ℕ) (counts : Map ℤ ℤ) (total : ℤ) : Type 0 where
  pub sum : sum_counts counts ≡ total
  pub small : Within k total
  pub each : (i : ℤ) → Within k (bin_count i counts)

cancel_sum : (s b t n : ℤ) → s +ℤ b ≡ t +ℤ n → b ≡ n → s ≡ t
cancel_sum s b t n h e =
    omega (arith, +ℤ_parts, eq_of_parts, ap pos_part h, ap neg_part h, ap pos_part e, ap neg_part e)

missing_count : (i : ℤ) (m : Map ℤ ℤ) → lookup i m ≡ none → bin_count i m ≡ pos 0
unfolding bin_count lookup_or
missing_count i m e = ground arith

sum-ensure_count : (i : ℤ) (m : Map ℤ ℤ) → sum_counts (ensure_count i m) ≡ sum_counts m
unfolding ensure_count
sum-ensure_count i m = elim (Option-cases (lookup i m)) [
  | inl missing ↦
      rw (missing, ensure_count)
        (cancel_sum (sum_counts (insert i (pos 0) m)) (bin_count i m) (sum_counts m) (pos 0)
          (sum-insert i (pos 0) m) (missing_count i m missing))
  | inr (n, there) ↦ rw (there, ensure_count) refl
]

pub ensure-IsCounted :
    (k : ℕ) (i : ℤ) (counts : Map ℤ ℤ) (total : ℤ)
    → IsCounted k counts total
    → IsCounted k (ensure_count i counts) total
ensure-IsCounted k i counts total h = record {
  sum = sum-ensure_count i counts ∙ h.sum;
  small = h.small;
  each = λ j. rw (bin_count-ensure_count i j counts) (h.each j);
}

Within-next : (k : ℕ) (a d : ℤ) → Within k a → Within 1 d → Within (k + 1) (a +ℤ d)
Within-next k a d h g = ground (arith, +ℤ_parts a d)

move_sum : (s b t n d : ℤ) → s +ℤ b ≡ t +ℤ n → n ≡ b +ℤ d → s ≡ t +ℤ d
move_sum s b t n d h e =
    omega (arith, +ℤ_parts, eq_of_parts, ap pos_part h, ap neg_part h, ap pos_part e, ap neg_part e)

-- Changing one bin and the size by the same one keeps the counts in step.
pub bump-IsCounted :
    (k : ℕ) (i d : ℤ) (counts : Map ℤ ℤ) (total : ℤ)
    → k + 1 < 2 ^ 63
    → Within 1 d
    → IsCounted k counts total
    → IsCounted (k + 1) (insert i (i64 (bin_count i counts +ℤ d)) counts) (i64 (total +ℤ d))
bump-IsCounted k i d counts total room one h =
    let here = Within-next k (bin_count i counts) d (h.each i) one in
    let all = Within-next k total d h.small one in
    let same_here = i64_lem (bin_count i counts +ℤ d) (omega arith) in
    let same_all = i64_lem (total +ℤ d) (omega arith) in
    rw (same_here, same_all)
      (record {
        sum =
            move_sum (sum_counts (insert i (bin_count i counts +ℤ d) counts)) (bin_count i counts)
              (sum_counts counts) (bin_count i counts +ℤ d) d
              (sum-insert i (bin_count i counts +ℤ d) counts) refl
            ∙ ap (λ t. t +ℤ d) h.sum;
        small = all;
        each = λ j.
            ground (arith, bin_count-insert i j (bin_count i counts +ℤ d) counts, h.each j, here);
      })
