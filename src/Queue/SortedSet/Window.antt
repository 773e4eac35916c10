-- ===== src/Queue/SortedSet/Window.antt =====
-- The window of the sorted set queue (internal/throttle/queue/impl/redis_queue/sorted_set_queue.go).
use goqueuesim.Common.{
  ◌≡◌, refl, Bool, true, false, Option, none, some, if◌then◌else◌, arith, ℤ, pos, ◌+ℤ◌, ◌-ℤ◌, ◌≤ℤ◌,
  leb_ℤ, ltb_ℤ, +ℤ_parts,
}
use goqueuesim.Common.Word.{i64, i64_lem, IsI64}
use goqueuesim.Common.Panic.{ok, ◌>>=◌, Post, Post-bind, Post-if, Post-then, Post-ok}
use goqueuesim.Common.Float.{Float64}
use goqueuesim.Tracker.{Feedback}
use goqueuesim.Queue.SortedSet.{
  SortedSets, SortedSetQueue, size, growth, expand, shrink, adjust, receive_tracker_feedback,
}

-- Both window sizes are positive.
pub record IsOpen {R : Type 0} (q : SortedSetQueue R) : Type 0 where
  pub min_positive : pos 1 ≤ℤ q.min_window_size
  pub positive : pos 1 ≤ℤ q.window_size

module _ {fl : Float64} {R : Type 0} (server : SortedSets fl R) where
  open fl use {Carrier}

  wider_positive : (w d : ℤ) → pos 1 ≤ℤ w → pos 0 ≤ℤ d → IsI64 (w +ℤ d) → pos 1 ≤ℤ i64 (w +ℤ d)
  wider_positive w d h k fits = rw (i64_lem (w +ℤ d) fits) (omega (arith, +ℤ_parts w d, h, k))

  expand-IsOpen :
      (util : Carrier) (q : SortedSetQueue R)
      → pos 0 ≤ℤ growth server util q.window_size
      → IsI64 (q.window_size +ℤ growth server util q.window_size)
      → IsOpen q
      → Post IsOpen (expand server util q)
  unfolding expand
  expand-IsOpen util q grows fits h =
      let wider = i64 (q.window_size +ℤ growth server util q.window_size) in
      Post-then IsOpen (size server q) _ (λ n. go (ltb_ℤ wider n))
    where
      go :
          (b : Bool)
          → IsOpen (
              if b
              then record q {
                window_size = i64 (q.window_size +ℤ growth server util q.window_size);
              }
              else q)
      go true = record {
        min_positive = h.min_positive;
        positive = wider_positive q.window_size _ h.positive grows fits;
      }
      go false = h

  abbrev narrower : Carrier → SortedSetQueue R → ℤ
  narrower util q =
      let window = fl.of_int q.window_size in
      let diff = fl.ceil (fl.mul (fl.sub util (fl.literal 12 10)) window) in
      i64 (q.window_size -ℤ fl.to_int (fl.min diff (fl.mul (fl.literal 1 2) window)))

  shrink-IsOpen : (util : Carrier) (q : SortedSetQueue R) → IsOpen q → IsOpen (shrink server util q)
  unfolding shrink
  shrink-IsOpen util q h = record {
    min_positive = h.min_positive;
    positive = guarded (narrower util q) q.min_window_size h.min_positive;
  }
    where
      guarded : (n least : ℤ) → pos 1 ≤ℤ least → pos 1 ≤ℤ (if leb_ℤ n (pos 0) then least else n)
      guarded n least k = ground arith

  -- A utilization below 1.0 asks for a window that is not smaller, and fits an int64.
  abbrev pub Grows : Carrier → SortedSetQueue R → Type 0
  Grows util q =
      pos 0 ≤ℤ growth server util q.window_size
      × IsI64 (q.window_size +ℤ growth server util q.window_size)

  adjust-IsOpen :
      (util : Carrier) (q : SortedSetQueue R)
      → (fl.lt util (fl.literal 1 1) ≡ true → Grows util q)
      → IsOpen q
      → Post IsOpen (adjust server util q)
  unfolding adjust
  adjust-IsOpen util q grows h = go (fl.lt util (fl.literal 1 1)) refl
    where
      go :
          (b : Bool)
          → fl.lt util (fl.literal 1 1) ≡ b
          → Post IsOpen (
              if b
              then expand server util q
              else if fl.lt (fl.literal 12 10) util
              then ok (shrink server util q)
              else ok q)
      go true e = expand-IsOpen util q (grows e).0 (grows e).1 h
      go false e =
          Post-if IsOpen (fl.lt (fl.literal 12 10) util) (ok (shrink server util q)) (ok q)
            (shrink-IsOpen util q h) h

  -- The window stays positive under feedback, as the smallest window does, if the growth that a
  -- utilization below 1.0 asks for is not negative and keeps the window within an int64.
  pub feedback-IsOpen :
      (m : Feedback fl) (q q' : SortedSetQueue R)
      → (fl.lt m.polling_util (fl.literal 1 1) ≡ true → Grows m.polling_util q)
      → IsOpen q
      → receive_tracker_feedback server m q ≡ ok q'
      → IsOpen q'
  unfolding receive_tracker_feedback
  feedback-IsOpen m q q' grows h ran = Post-ok IsOpen (go m.should_ignore_poll_util) ran
    where
      adjusted : Post IsOpen (adjust server m.polling_util q >>= λ r. size server r >>= λ n. ok r)
      adjusted =
          Post-bind IsOpen IsOpen (adjust server m.polling_util q) _
            (adjust-IsOpen m.polling_util q grows h)
            (λ r k. Post-then IsOpen (size server r) _ (λ n. k))

      go :
          (o : Option Bool)
          → Post IsOpen (elim o [
            | some true ↦ ok q
            | some false ↦ adjust server m.polling_util q >>= λ r. size server r >>= λ n. ok r
            | none ↦ adjust server m.polling_util q >>= λ r. size server r >>= λ n. ok r
          ])
      go (some true) = h
      go (some false) = adjusted
      go none = adjusted
