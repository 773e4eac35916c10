-- ===== src/Queue/Capped/Order.antt =====
-- Who may proceed: internal/throttle/queue/impl/capped_bins_queue.go. Bins are numbered in the
-- order of arrival, and a client's cookie carries the number of its bin.
use goqueuesim.Common.{
  ℕ, ◌+◌, ◌<◌, ◌^◌, ◌≡◌, ◌⊎◌, true, false, none, List, [], ◌∷◌, arith, pos, ◌+ℤ◌, ◌≤ℤ◌, leb_ℤ,
  length, pos_part, +ℤ_parts,
}
use goqueuesim.Common.Map.{string_key}
use text.Mathlib.TextPositions.{eq_refl}
use goqueuesim.Common.Word.{IsI64, i64-IsI64, i64_lem}
use goqueuesim.Common.Text.{format_int, parse_int}
use goqueuesim.Common.Text.Decimal.{parse_int-format_int}
use goqueuesim.Common.Clock.{Time}
use goqueuesim.Client.{Client, get_throttle_cookie_val}
use goqueuesim.Client.Cookies.{get-set_throttle_cookie_val}
use goqueuesim.Queue.Capped.{
  CappedBinsQueue, capped_user_bin_key, roll_bin, add, get_user_bin, is_candidate_to_proceed,
}

roll_bin-IsI64 : (q : CappedBinsQueue) → IsI64 q.queue_bin → IsI64 (roll_bin q).0
unfolding roll_bin
roll_bin-IsI64 q h = ground (arith, i64-IsI64 (q.queue_bin +ℤ pos 1))

-- The bin that a locked client reads from its cookie is the one that Add wrote.
pub get_user_bin-add :
    (now : Time) (q : CappedBinsQueue) (c : Client)
    → c.is_locked ≡ true
    → IsI64 q.queue_bin
    → (get_user_bin (add now q c).1).0 ≡ (add now q c).0.queue_bin
unfolding get_user_bin add
get_user_bin-add now q c locked h = ground (
  arith,
  get-set_throttle_cookie_val capped_user_bin_key capped_user_bin_key (format_int (roll_bin q).0) c
      locked,
  eq_refl capped_user_bin_key,
  parse_int-format_int (roll_bin q).0 (roll_bin-IsI64 q h),
)

-- The second result of getUserBin is false whatever the cookie holds, so the candidate test comes
-- down to the bin that was read.
pub candidate-eq-leb :
    (q : CappedBinsQueue) (c : Client)
    → is_candidate_to_proceed q c ≡ (q, c, leb_ℤ (get_user_bin c).0 q.working_bin)
unfolding is_candidate_to_proceed
candidate-eq-leb q c = ground arith

-- After Add a locked client is a candidate exactly while the working bin has reached the bin that
-- it was put in, whatever the queue has become since.
pub candidate-add :
    (now : Time) (q later : CappedBinsQueue) (c : Client)
    → c.is_locked ≡ true
    → IsI64 q.queue_bin
    → (is_candidate_to_proceed later (add now q c).1).2
      ≡ leb_ℤ (add now q c).0.queue_bin later.working_bin
candidate-add now q later c locked h =
    rw (candidate-eq-leb later (add now q c).1, get_user_bin-add now q c locked h)

-- A client with no bin in its cookie, or a value there that is no number, counts as bin 0.
candidate_of_no_bin :
    (q : CappedBinsQueue) (c : Client)
    → ((get_throttle_cookie_val capped_user_bin_key c).1 ≡ false)
      ⊎ (parse_int (get_throttle_cookie_val capped_user_bin_key c).0 ≡ none)
    → (is_candidate_to_proceed q c).2 ≡ leb_ℤ (pos 0) q.working_bin
unfolding is_candidate_to_proceed
candidate_of_no_bin q c h = ground arith

-- The queue after a list of arrivals.
unfoldable pub add_all : List (Time × Client) → CappedBinsQueue → CappedBinsQueue
add_all [] q = q
add_all ((now, c) ∷ cs) q = add_all cs (add now q c).0

-- The number of the current bin is nowhere near the end of int64, `n` arrivals included.
abbrev pub HasRoom : ℕ → CappedBinsQueue → Type 0
HasRoom n q = pos_part q.queue_bin + n < 2 ^ 63

add-le :
    (now : Time) (q : CappedBinsQueue) (c : Client) (n : ℕ)
    → IsI64 q.queue_bin
    → HasRoom (n + 1) q
    → (q.queue_bin ≤ℤ (add now q c).0.queue_bin)
      × IsI64 (add now q c).0.queue_bin
      × HasRoom n (add now q c).0
unfolding add roll_bin
add-le now q c n h r = ground (
  arith,
  +ℤ_parts q.queue_bin (pos 1),
  i64_lem (q.queue_bin +ℤ pos 1),
  i64-IsI64 (q.queue_bin +ℤ pos 1),
)

add_all-le :
    (cs : List (Time × Client)) (q : CappedBinsQueue) (n : ℕ)
    → IsI64 q.queue_bin
    → HasRoom (length cs + n) q
    → (q.queue_bin ≤ℤ (add_all cs q).queue_bin)
      × IsI64 (add_all cs q).queue_bin
      × HasRoom n (add_all cs q)
unfolding add_all
add_all-le [] q n h r = (omega arith, h, omega arith)
add_all-le ((now, c) ∷ cs) q n h r =
    let first = add-le now q c (length cs + n) h (omega arith) in
    let rest = add_all-le cs (add now q c).0 n first.1 first.2 in (omega arith, rest.1, rest.2)

-- First come, first served: of two locked clients between whose arrivals the queue saw nothing but
-- other arrivals, the earlier one is a candidate under any working bin under which the later one is,
-- as long as the bin numbers stay inside int64.
pub candidate_fifo :
    (now now' : Time) (q later : CappedBinsQueue) (c c' : Client) (between : List (Time × Client))
    → c.is_locked ≡ true
    → c'.is_locked ≡ true
    → IsI64 q.queue_bin
    → HasRoom (length between + 2) q
    → (is_candidate_to_proceed later (add now' (add_all between (add now q c).0) c').1).2 ≡ true
    → (is_candidate_to_proceed later (add now q c).1).2 ≡ true
candidate_fifo now now' q later c c' between locked locked' h r passed =
    let first = add-le now q c (length between + 1) h (omega arith) in
    let middle = add_all-le between (add now q c).0 1 first.1 (omega arith) in
    let last = add-le now' (add_all between (add now q c).0) c' 0 middle.1 (omega arith) in
    ground (
      arith,
      first,
      middle,
      last,
      candidate-add now q later c locked h,
      candidate-add now' (add_all between (add now q c).0) later c' locked' middle.1,
    )
