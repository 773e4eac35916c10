-- ===== src/Queue/Capped/Bins.antt =====
-- How the bins fill: CappedBinsQueue.Add of internal/throttle/queue/impl/capped_bins_queue.go.
use goqueuesim.Common.{
  ℕ, suc, ◌≡◌, refl, Bool, true, [], arith, if◌then◌else◌, ℤ, pos, ◌+ℤ◌, leb_ℤ, ◌==ℤ◌, ==ℤ_iff,
  length,
}
use goqueuesim.Common.Map.{Map, int_key, lookup, insert, lookup_or, lookup-insert, length-insert-le}
use goqueuesim.Common.Word.{i64}
use goqueuesim.Common.Clock.{Time}
use goqueuesim.Client.{Client}
use goqueuesim.Queue.Capped.{CappedBinsQueue, Bin, bin, ensure_bin, roll_bin, add, clear}

bin-insert :
    (i j : ℤ) (b : Bin) (bins : Map ℤ Bin)
    → bin j (insert i b bins) ≡ (if i ==ℤ j then b else bin j bins)
unfolding bin lookup_or
bin-insert i j b bins = ground (arith, lookup-insert i j b bins)

bin-ensure_bin : (i j : ℤ) (bins : Map ℤ Bin) → bin j (ensure_bin i bins) ≡ bin j bins
unfolding bin ensure_bin lookup_or
bin-ensure_bin i j bins = ground (arith, lookup-insert i j [] bins, ==ℤ_iff i j)

-- The current bin has no room left.
abbrev pub is_full : CappedBinsQueue → Bool
is_full q = leb_ℤ q.bin_size (pos (length (bin q.queue_bin q.bins)))

abbrev pub next_bin : CappedBinsQueue → ℤ
next_bin q = i64 (q.queue_bin +ℤ pos 1)

pub queue_bin-add :
    (now : Time) (q : CappedBinsQueue) (c : Client)
    → (add now q c).0.queue_bin ≡ (if is_full q then next_bin q else q.queue_bin)
unfolding add roll_bin
queue_bin-add now q c = ground (arith, bin-ensure_bin q.queue_bin q.queue_bin q.bins)

-- Every bin after an arrival.
pub bin-add :
    (now : Time) (q : CappedBinsQueue) (c : Client) (j : ℤ)
    → bin j (add now q c).0.bins ≡ (
        if is_full q
        then (if next_bin q ==ℤ j then insert c.id true [] else bin j q.bins)
        else (if q.queue_bin ==ℤ j
            then insert c.id true (bin q.queue_bin q.bins)
            else bin j q.bins))
unfolding add roll_bin
bin-add now q c j =
    let made = ensure_bin q.queue_bin q.bins in
    ground (
      arith,
      bin-ensure_bin q.queue_bin q.queue_bin q.bins,
      bin-ensure_bin q.queue_bin j q.bins,
      bin-insert (next_bin q) j (insert c.id true (bin (next_bin q) (insert (next_bin q) [] made)))
          (insert (next_bin q) [] made),
      bin-insert (next_bin q) j [] made,
      bin-insert (next_bin q) (next_bin q) [] made,
      bin-insert q.queue_bin j (insert c.id true (bin q.queue_bin made)) made,
      ==ℤ_iff (next_bin q) j,
      ==ℤ_iff (next_bin q) (next_bin q),
      ==ℤ_iff q.queue_bin j,
    )

-- No bin holds more clients than the bin size.
abbrev pub IsCapped : CappedBinsQueue → Type 0
IsCapped q = (j : ℤ) → leb_ℤ (pos (length (bin j q.bins))) q.bin_size ≡ true

pub bin_size-add :
    (now : Time) (q : CappedBinsQueue) (c : Client) → (add now q c).0.bin_size ≡ q.bin_size
unfolding add
bin_size-add now q c = refl

-- An arrival keeps every bin within the bin size, which is at least 1.
pub add-IsCapped :
    (now : Time) (q : CappedBinsQueue) (c : Client) (n : ℕ)
    → q.bin_size ≡ pos (suc n)
    → IsCapped q
    → IsCapped (add now q c).0
add-IsCapped now q c n e h j = ground (
  arith,
  h j,
  bin_size-add now q c,
  bin-add now q c j,
  length-insert-le c.id true (bin j q.bins),
  length-insert-le c.id true [],
  ==ℤ_iff q.queue_bin j,
)

-- After `clear` the queue keeps every bin within the bin size too.
pub clear-IsCapped : (q : CappedBinsQueue) (n : ℕ) → q.bin_size ≡ pos (suc n) → IsCapped (clear q)
unfolding clear bin lookup_or lookup
clear-IsCapped q n e j = ground arith
