-- ===== src/Queue/Capped/Packing.antt =====
-- Which bin an arrival is put in: CappedBinsQueue.Add of
-- internal/throttle/queue/impl/capped_bins_queue.go, from a queue that was just cleared.
use goqueuesim.Common.{
  ℕ, suc, ◌+◌, ◌-◌, ◌*◌, ◌/◌, ◌≤◌, ◌<◌, ◌^◌, ◌≡◌, refl, sym, ◌∙◌, ap, subst, ◌≢◌, inl, inr, true,
  false, none, List, [], ◌∷◌, map, arith, Bool-cases, ℤ, pos, ◌+ℤ◌, ==ℤ_iff, length, All,
  AllDistinct,
}
use native.Mathlib.Nat.{div-eq_of_lt-le}
use goqueuesim.Common.Map.{int_key, lookup, insert, lookup_or, lookup-insert, length-insert}
use goqueuesim.Common.Word.{i64}
use goqueuesim.Common.Clock.{Time}
use goqueuesim.Client.{Client}
use goqueuesim.Queue.Capped.{CappedBinsQueue, bin, add, clear}
use goqueuesim.Queue.Capped.Order.{add_all}
use goqueuesim.Queue.Capped.Bins.{is_full, next_bin, queue_bin-add, bin-add, bin_size-add}

-- `b` bins are full and the next one, the current bin, holds the rest of the `k` clients.
record IsPacked (n b k : ℕ) (q : CappedBinsQueue) : Type 0 where
  sized : q.bin_size ≡ pos (suc n)
  current : q.queue_bin ≡ pos (b + 1)
  counted : k ≡ b * suc n + length (bin q.queue_bin q.bins)
  fits : length (bin q.queue_bin q.bins) ≤ suc n
  begun : 0 < k → 0 < length (bin q.queue_bin q.bins)

abbrev Absent : CappedBinsQueue → ℤ → Type 0
Absent q id = lookup id (bin q.queue_bin q.bins) ≡ none

next_bin_lem :
    (q : CappedBinsQueue) (b : ℕ)
    → b + 2 < 2 ^ 63
    → q.queue_bin ≡ pos (b + 1)
    → next_bin q ≡ pos (b + 2)
unfolding ◌+ℤ◌ i64
next_bin_lem q b small e = ground arith

current-add_full :
    (now : Time) (q : CappedBinsQueue) (c : Client)
    → is_full q ≡ true
    → bin (add now q c).0.queue_bin (add now q c).0.bins ≡ insert c.id true []
current-add_full now q c full =
    ground (
      arith,
      queue_bin-add now q c,
      bin-add now q c (next_bin q),
      ==ℤ_iff (next_bin q) (next_bin q),
    )

current-add_room :
    (now : Time) (q : CappedBinsQueue) (c : Client)
    → is_full q ≡ false
    → bin (add now q c).0.queue_bin (add now q c).0.bins ≡ insert c.id true (bin q.queue_bin q.bins)
current-add_room now q c room =
    ground
      (arith, queue_bin-add now q c, bin-add now q c q.queue_bin, ==ℤ_iff q.queue_bin q.queue_bin)

full-IsPacked :
    (now : Time) (q : CappedBinsQueue) (c : Client) (n b k : ℕ)
    → b + 2 < 2 ^ 63
    → is_full q ≡ true
    → IsPacked n b k q
    → IsPacked n (b + 1) (k + 1) (add now q c).0
unfolding insert
full-IsPacked now q c n b k small full h =
    let here = current-add_full now q c full in
    let one : length (bin (add now q c).0.queue_bin (add now q c).0.bins) ≡ 1 = ap length here in
    let before : length (bin q.queue_bin q.bins) ≡ suc n = ground arith in
    record {
      sized = ground (arith, bin_size-add now q c);
      current = ground (arith, queue_bin-add now q c, next_bin_lem q b small);
      counted = rw one (grind arith);
      fits = omega (arith, one);
      begun = λ _. omega (arith, one);
    }

room-IsPacked :
    (now : Time) (q : CappedBinsQueue) (c : Client) (n b k : ℕ)
    → Absent q c.id
    → is_full q ≡ false
    → IsPacked n b k q
    → IsPacked n b (k + 1) (add now q c).0
room-IsPacked now q c n b k new room h =
    let here = current-add_room now q c room in
    let more : length (bin (add now q c).0.queue_bin (add now q c).0.bins)
        ≡ suc (length (bin q.queue_bin q.bins)) =
      ground (arith, here, length-insert c.id true (bin q.queue_bin q.bins)) in
    record {
      sized = ground (arith, bin_size-add now q c);
      current = ground (arith, queue_bin-add now q c);
      counted = omega (arith, more);
      fits = ground (arith, more);
      begun = λ _. omega (arith, more);
    }

-- The later of distinct clients are still absent after an arrival.
Absent-add :
    (now : Time) (q : CappedBinsQueue) (c : Client) (id : ℤ)
    → c.id ≢ id
    → Absent q id
    → Absent (add now q c).0 id
unfolding lookup
Absent-add now q c id d a = elim (Bool-cases (is_full q)) [
  | inl full ↦
      rw (current-add_full now q c full, lookup-insert c.id id true [])
        (ground (arith, ==ℤ_iff c.id id))
  | inr room ↦
      rw (current-add_room now q c room, lookup-insert c.id id true (bin q.queue_bin q.bins))
        (ground (arith, ==ℤ_iff c.id id))
]

abbrev pub ids : List (Time × Client) → List ℤ
ids = map λ e. e.1.id

All-Absent-add :
    (now : Time) (q : CappedBinsQueue) (c : Client) (js : List ℤ)
    → All (λ j. c.id ≢ j) js
    → All (Absent q) js
    → All (Absent (add now q c).0) js
All-Absent-add now q c [] d a = tt
All-Absent-add now q c (j ∷ js) d a =
    (Absent-add now q c j d.0 a.0, All-Absent-add now q c js d.1 a.1)

add_all-IsPacked :
    (cs : List (Time × Client)) (q : CappedBinsQueue) (n b k : ℕ)
    → b + length cs + 2 < 2 ^ 63
    → AllDistinct (ids cs)
    → All (Absent q) (ids cs)
    → IsPacked n b k q
    → (b' : ℕ) × IsPacked n b' (k + length cs) (add_all cs q)
unfolding add_all
add_all-IsPacked [] q n b k small d a h = (b, subst (λ m. IsPacked n b m q) (omega arith) h)
add_all-IsPacked ((now, c) ∷ cs) q n b k small d a h =
    let q' = (add now q c).0 in
    let later = All-Absent-add now q c (ids cs) d.0 a.1 in
    let (b', packed) : (b' : ℕ) × IsPacked n b' (k + 1 + length cs) (add_all cs q') =
      elim (Bool-cases (is_full q)) [
        | inl full ↦
            add_all-IsPacked cs q' n (b + 1) (k + 1) (omega arith) d.1 later
              (full-IsPacked now q c n b k (omega arith) full h)
        | inr room ↦
            add_all-IsPacked cs q' n b (k + 1) (omega arith) d.1 later
              (room-IsPacked now q c n b k a.0 room h)
      ] in
    (b', subst (λ m. IsPacked n b' m (add_all cs q')) (omega arith) packed)

packed_bin : (n b k l : ℕ) → k ≡ b * suc n + l → 0 < l → l ≤ suc n → (k - 1) / suc n ≡ b
packed_bin n b k l e p h = div-eq_of_lt-le (suc n) (omega (arith, e)) (grind (arith, e))

IsPacked-bin :
    (n b k : ℕ) (q : CappedBinsQueue)
    → 0 < k
    → IsPacked n b k q
    → q.queue_bin ≡ pos ((k - 1) / suc n + 1)
IsPacked-bin n b k q h packed =
    packed.current
    ∙ ap (λ (m : ℕ). pos (m + 1))
        (sym (packed_bin n b k _ packed.counted (packed.begun h) packed.fits))

clear-IsPacked : (q : CappedBinsQueue) (n : ℕ) → q.bin_size ≡ pos (suc n) → IsPacked n 0 0 (clear q)
unfolding clear bin lookup_or lookup
clear-IsPacked q n e = record {
  sized = e;
  current = refl;
  counted = omega arith;
  fits = omega arith;
  begun = λ h. absurd (omega arith);
}

All-Absent-clear : (q : CappedBinsQueue) (js : List ℤ) → All (Absent (clear q)) js
unfolding clear bin lookup_or lookup
All-Absent-clear q [] = tt
All-Absent-clear q (j ∷ js) = (refl, All-Absent-clear q js)

-- Into a queue that was just cleared, with a bin size of at least 1, clients with distinct ids
-- arrive, at least one and fewer than 2 ^ 63 - 2: after `k` of them the current bin has the number
-- (k - 1) / bin size + 1.
pub queue_bin-add_all :
    (q : CappedBinsQueue) (n : ℕ) (cs : List (Time × Client))
    → q.bin_size ≡ pos (suc n)
    → AllDistinct (ids cs)
    → 0 < length cs
    → length cs + 2 < 2 ^ 63
    → (add_all cs (clear q)).queue_bin ≡ pos ((length cs - 1) / suc n + 1)
queue_bin-add_all q n cs e d some_ small =
    let (b, packed) =
      add_all-IsPacked cs (clear q) n 0 0 (omega arith) d (All-Absent-clear q (ids cs))
        (clear-IsPacked q n e) in
    IsPacked-bin n b (length cs) (add_all cs (clear q)) some_
      (subst (λ m. IsPacked n b m (add_all cs (clear q))) (omega arith) packed)
