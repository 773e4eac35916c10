-- ===== src/Queue/SortedSet.antt =====
-- internal/throttle/queue/impl/redis_queue/sorted_set_queue.go, with MakeSortedSetQueue of
-- queue_factory.go: the clients stand in a sorted set of a Redis server, scored by their entry time.
-- The Redis client is a parameter: the commands that the queue calls, on the state of the server. A
-- call that fails ends in a panic, so this queue's operations return an outcome.
pub mod Server
pub mod Order
pub mod Arrivals
pub mod Window
use goqueuesim.Common.{
  String, ◌≡◌, Bool, true, false, Option, none, some, if◌then◌else◌, ℤ, pos, negsuc, ◌+ℤ◌, ◌-ℤ◌,
  ltb_ℤ, leb_ℤ,
}
use goqueuesim.Common.Word.{i64}
use goqueuesim.Common.Clock.{Time}
use goqueuesim.Common.Text.{format_int}
use goqueuesim.Common.Panic.{Outcome, ok, panic, ◌>>=◌, fatal}
use goqueuesim.Common.Float.{Float64}
use goqueuesim.Client.{Client}
use goqueuesim.Tracker.{Feedback}

-- What a command answers: a value or an error.
pub data Reply {ℓ} (A : Type ℓ) : Type ℓ where
  replied : A → Reply A
  failed : String → Reply A

-- `if err != nil { panic(err) }`
unfoldable pub or_panic {ℓ} : {A : Type ℓ} → Reply A → Outcome A
or_panic (replied a) = ok a
or_panic (failed err) = panic (fatal err)

-- The commands of redis.Client that the queue calls, each with the key of a sorted set. The number
-- that the changing commands answer is not read.
pub record SortedSets (fl : Float64) (R : Type 0) : Type 0 where
  -- ZADD NX with a score and a member
  pub z_add_nx : String → fl.Carrier → String → R → Reply R
  pub z_rem : String → String → R → Reply R
  pub z_rank : String → String → R → Reply ℤ
  pub z_rem_range_by_rank : String → ℤ → ℤ → R → Reply R
  pub z_card : String → R → Reply ℤ

pub record SortedSetQueue (R : Type 0) : Type 0 where
  pub redis : R
  pub min_window_size : ℤ
  pub window_size : ℤ

-- buildSortedSetKey
abbrev pub build_sorted_set_key : String
build_sorted_set_key = "sorted_set_queue:shop_id_0"

-- t.UnixNano()
unfoldable pub unix_nano : Time → ℤ
unix_nano t = i64 (t -ℤ pos 62_135_596_800_000_000_000)

-- The member that stands for a client: strconv.Itoa(c.ID())
unfoldable pub member : Client → String
member c = format_int c.id

module _ {fl : Float64} {R : Type 0} (server : SortedSets fl R) where
  open fl use {Carrier, of_int, literal, mul, sub, ceil, min, lt, to_int}

  -- float64(c.QueueEntryTime().UnixNano())
  unfoldable pub score : Client → Carrier
  unfolding unix_nano
  score c = of_int (unix_nano c.queue_entry_time)

  unfoldable pub add : SortedSetQueue R → Client → Outcome (SortedSetQueue R)
  add q c = do
    r ← or_panic (server.z_add_nx build_sorted_set_key (score c) (member c) q.redis)
    ok (record q { redis = r })

  unfoldable pub remove : SortedSetQueue R → Client → Outcome (SortedSetQueue R)
  remove q c = do
    r ← or_panic (server.z_rem build_sorted_set_key (member c) q.redis)
    ok (record q { redis = r })

  unfoldable pub is_candidate_to_proceed : SortedSetQueue R → Client → Outcome Bool
  is_candidate_to_proceed q c = do
    client_rank ← or_panic (server.z_rank build_sorted_set_key (member c) q.redis)
    ok (ltb_ℤ client_rank q.window_size)

  unfoldable pub clear : SortedSetQueue R → Outcome (SortedSetQueue R)
  clear q = do
    r ← or_panic (server.z_rem_range_by_rank build_sorted_set_key (pos 0) (negsuc 0) q.redis)
    ok (record q { redis = r })

  unfoldable pub size : SortedSetQueue R → Outcome ℤ
  size q = or_panic (server.z_card build_sorted_set_key q.redis)

  -- int64(math.Ceil((1.2 - util) * float64(ssq.WindowSize)))
  unfoldable pub growth : Carrier → ℤ → ℤ
  growth util window = to_int (ceil (mul (sub (literal 12 10) util) (of_int window)))

  -- The expansion of the window, where util < 1.0.
  unfoldable pub expand : Carrier → SortedSetQueue R → Outcome (SortedSetQueue R)
  expand util q = do
    let wider = i64 (q.window_size +ℤ growth util q.window_size)
    n ← size q
    ok (if ltb_ℤ wider n then record q { window_size = wider } else q)

  -- The shrinking of the window, where util > 1.2.
  unfoldable pub shrink : Carrier → SortedSetQueue R → SortedSetQueue R
  shrink util q =
      let window = of_int q.window_size in
      let diff = ceil (mul (sub util (literal 12 10)) window) in
      let narrower = i64 (q.window_size -ℤ to_int (min diff (mul (literal 1 2) window))) in
      record q { window_size = if leb_ℤ narrower (pos 0) then q.min_window_size else narrower }

  unfoldable pub adjust : Carrier → SortedSetQueue R → Outcome (SortedSetQueue R)
  adjust util q =
      if lt util (literal 1 1)
      then expand util q
      else if lt (literal 12 10) util
      then ok (shrink util q)
      else ok q

  -- ReceiveTrackerFeedback; the statistics at its end read the size once more.
  unfoldable pub receive_tracker_feedback :
      Feedback fl → SortedSetQueue R → Outcome (SortedSetQueue R)
  receive_tracker_feedback m q = elim m.should_ignore_poll_util [
    | some true ↦ ok q
    | some false ↦ adjust m.polling_util q >>= λ q'. size q' >>= λ n. ok q'
    | none ↦ adjust m.polling_util q >>= λ q'. size q' >>= λ n. ok q'
  ]

  -- MakeSortedSetQueue
  unfoldable pub make_sorted_set_queue : R → ℤ → Outcome (SortedSetQueue R)
  make_sorted_set_queue redis window_size =
      clear (record { redis = redis; min_window_size = window_size; window_size = window_size })
