-- ===== src/Tests/SortedSet.antt =====
-- The sorted set queue on a server that keeps one sorted set as a list, with whole numbers as scores.
use goqueuesim.Common.{
  ℕ, ◌+◌, String, ◌≡◌, refl, sym, ap, subst, Bool, true, false, ◌&&◌, Option, none, some, [], ◌∷◌,
  All, if◌then◌else◌, arith, ℤ, pos, negsuc, ◌+ℤ◌, ◌-ℤ◌, ◌*ℤ◌, ◌==ℤ◌, leb_ℤ, ltb_ℤ, length,
}
use goqueuesim.Common.Map.{Map, string_key, lookup, delete}
use goqueuesim.Common.Clock.{div_ℤ}
use goqueuesim.Common.Word.{i64}
use goqueuesim.Common.Text.{format_int}
use goqueuesim.Common.Panic.{ok, panic, fatal}
use goqueuesim.Common.Float.{Float64}
use goqueuesim.Client.{Client, queued as in_queue}
use goqueuesim.Tracker.{Feedback}
use goqueuesim.Queue.SortedSet.{
  Reply, replied, failed, SortedSets, SortedSetQueue, is_candidate_to_proceed, clear,
  receive_tracker_feedback, growth, adjust, expand, size, member, score, or_panic,
}
use goqueuesim.Queue.SortedSet.Server.{index_of, IsSorted, Placed, RedisLaws, IsReachable}
use goqueuesim.Queue.SortedSet.Order.{adds, removes, call_all, arrivals, arrival, arrive}
use goqueuesim.Queue.SortedSet.Arrivals.{candidate-arrivals, clear-then-poll}
use goqueuesim.Queue.SortedSet.Window.{IsOpen, feedback-IsOpen}
use goqueuesim.Tests.{client_in}

-- Floats that are whole numbers: a literal is rounded down.
abbrev whole_numbers : Float64
whole_numbers = record {
  Carrier = ℤ;
  of_int = λ n. n;
  literal = λ n d. div_ℤ (pos n) d;
  add = ◌+ℤ◌;
  sub = ◌-ℤ◌;
  mul = ◌*ℤ◌;
  div = λ x y. x;
  lt = ltb_ℤ;
  le = leb_ℤ;
  eq = ◌==ℤ◌;
  ceil = λ x. x;
  floor = λ x. x;
  max = λ x y. if leb_ℤ x y then y else x;
  min = λ x y. if leb_ℤ x y then x else y;
  pow = λ x y. x;
  to_int = λ x. x;
}

place : String → ℤ → Map String ℤ → Map String ℤ
place m s [] = (m, s) ∷ []
place m s ((k, t) ∷ es) = if ltb_ℤ s t then (m, s) ∷ (k, t) ∷ es else (k, t) ∷ place m s es

rank_of : Option ℕ → Reply ℤ
rank_of none = failed "redis: nil"
rank_of (some n) = replied (pos n)

abbrev one_set : SortedSets whole_numbers (Map String ℤ)
one_set = record {
  z_add_nx = λ key s m r. replied (elim (lookup m r) [ none ↦ place m s r | some old ↦ r ]);
  z_rem = λ key m r. replied (delete m r);
  z_rank = λ key m r. rank_of (index_of m r);
  z_rem_range_by_rank =
      λ key first last r. replied (if (first ==ℤ pos 0) && (last ==ℤ negsuc 0) then [] else r);
  z_card = λ key r. replied (pos (length r));
}

replied-inj : {a b : Map String ℤ} → replied a ≡ replied b → a ≡ b
replied-inj e = cc e

still_above :
    (s t : ℤ) (es : Map String ℤ)
    → ltb_ℤ s t ≡ true
    → All (λ d. ltb_ℤ d.1 t ≡ false) es
    → All (λ e. ltb_ℤ e.1 s ≡ false) es
still_above s t [] lower h = tt
still_above s t (d ∷ es) lower h = (ground arith, still_above s t es lower h.1)

place-Placed :
    (m : String) (s : ℤ) (es : Map String ℤ)
    → IsSorted whole_numbers es
    → Placed whole_numbers m s es (place m s es)
unfolding place
place-Placed m s [] sorted = record {
  before = [];
  after = [];
  split = refl;
  placed = refl;
  below = tt;
  above = tt;
}
place-Placed m s ((k, t) ∷ es) sorted = go (place-Placed m s es sorted.1) (ltb_ℤ s t) refl
  where
    go :
        (p : Placed whole_numbers m s es (place m s es)) (b : Bool)
        → ltb_ℤ s t ≡ b
        → Placed whole_numbers m s
            ((k, t) ∷ es)
            (if b then (m, s) ∷ (k, t) ∷ es else (k, t) ∷ place m s es)
    go p true lower = record {
      before = [];
      after = (k, t) ∷ es;
      split = refl;
      placed = refl;
      below = tt;
      above = (ground arith, still_above s t es lower sorted.0);
    }
    go p false higher = record {
      before = (k, t) ∷ p.before;
      after = p.after;
      split = ap (λ x. (k, t) ∷ x) p.split;
      placed = ap (λ x. (k, t) ∷ x) p.placed;
      below = (higher, p.below);
      above = p.above;
    }

added_law :
    (s : ℤ) (m : String) (r r' : Map String ℤ)
    → IsSorted whole_numbers r
    → lookup m r ≡ none
    → replied (elim (lookup m r) [ none ↦ place m s r | some old ↦ r ]) ≡ replied r'
    → Placed whole_numbers m s r r'
added_law s m r r' sorted missing e =
    let same : place m s r ≡ r' = replied-inj (
      subst (λ o. replied (elim o [ none ↦ place m s r | some old ↦ r ]) ≡ replied r') missing e) in
    subst (Placed whole_numbers m s r) same (place-Placed m s r sorted)

present_law :
    (s old : ℤ) (m : String) (r r' : Map String ℤ)
    → lookup m r ≡ some old
    → replied (elim (lookup m r) [ none ↦ place m s r | some old ↦ r ]) ≡ replied r'
    → r' ≡ r
present_law s old m r r' there e = sym (
    replied-inj
      (subst (λ o. replied (elim o [ none ↦ place m s r | some old ↦ r ]) ≡ replied r') there e))

ranked_law :
    (n : ℕ) (rank : ℤ) (o : Option ℕ) → o ≡ some n → rank_of o ≡ replied rank → rank ≡ pos n
unfolding rank_of
ranked_law n rank none found e = cc found
ranked_law n rank (some k) found e = cc (found, e)

unranked_law : (o : Option ℕ) → o ≡ none → rank_of o ≡ failed "redis: nil"
unfolding rank_of
unranked_law none e = refl
unranked_law (some n) e = cc e

counted_law : (n : ℤ) (k : ℕ) → replied (pos k) ≡ replied n → n ≡ pos k
counted_law n k e = cc e

abbrev one_set_laws : RedisLaws whole_numbers one_set
one_set_laws = record {
  z_range = λ key r. r;
  added = λ key s m r r' sorted missing e. added_law s m r r' sorted missing e;
  present = λ key s old m r r' there e. present_law s old m r r' there e;
  removed = λ key m r r' e. sym (replied-inj e);
  ranked = λ key m r n rank found e. ranked_law n rank (index_of m r) found e;
  unranked = λ key m r missing. ("redis: nil", unranked_law (index_of m r) missing);
  emptied = λ key r r' e. sym (replied-inj e);
  counted = λ key r n e. counted_law n (length r) e;
}

abbrev arrived : ℤ → ℕ → Client
arrived id nanoseconds = record (client_in id in_queue) {
  queue_entry_time = pos (62_135_596_800_000_000_000 + nanoseconds);
}

one_set-IsReachable : IsReachable whole_numbers one_set one_set_laws
unfolding rank_of
one_set-IsReachable = record {
  adds = λ key s m r. (elim (lookup m r) [ none ↦ place m s r | some old ↦ r ], refl);
  removes = λ key m r. (delete m r, refl);
  empties = λ key r. ([], refl);
  ranks = λ key m r n found. (pos n, ap rank_of found);
}

abbrev window_of_one : SortedSetQueue (Map String ℤ)
window_of_one = record { redis = []; min_window_size = pos 1; window_size = pos 1 }

candidate-arrivals_example :
    (q : SortedSetQueue (Map String ℤ)) × (call_all one_set
        (adds (arrived (pos 1) 5) ∷ adds (arrived (pos 2) 9) ∷ removes (arrived (pos 1) 5) ∷ [])
        window_of_one
      ≡ ok q)
    × (is_candidate_to_proceed one_set q (arrived (pos 2) 9) ≡ ok true)
unfolding arrivals index_of member arrival arrive lookup score i64 ◌-ℤ◌ delete format_int
candidate-arrivals_example =
    candidate-arrivals one_set one_set_laws
      (adds (arrived (pos 1) 5) ∷ adds (arrived (pos 2) 9) ∷ removes (arrived (pos 1) 5) ∷ [])
      window_of_one (arrived (pos 2) 9) 0 one_set-IsReachable refl (tt, ((refl, tt), (tt, tt))) refl

clear-then-poll_example :
    (err : String) × (is_candidate_to_proceed one_set window_of_one (arrived (pos 2) 9)
      ≡ panic (fatal err))
unfolding clear or_panic
clear-then-poll_example =
    clear-then-poll one_set one_set_laws (record window_of_one { redis = ("2", pos 9) ∷ [] })
      window_of_one (arrived (pos 2) 9) refl

abbrev quiet_feedback : Feedback whole_numbers
quiet_feedback = record {
  polling_util = pos 0;
  checkout_util = pos 0;
  should_ignore_poll_util = none;
}

abbrev three_queued : SortedSetQueue (Map String ℤ)
three_queued = record window_of_one { redis = ("4", pos 5) ∷ ("2", pos 7) ∷ ("7", pos 9) ∷ [] }

feedback-IsOpen_example : IsOpen (record three_queued { window_size = pos 2 })
unfolding receive_tracker_feedback growth ◌*ℤ◌ ◌-ℤ◌ ◌+ℤ◌ adjust expand size or_panic i64
feedback-IsOpen_example =
    feedback-IsOpen one_set quiet_feedback three_queued
      (record three_queued { window_size = pos 2 })
      (λ e. (omega arith, record { above = omega arith; below = omega arith }))
      (record { min_positive = omega arith; positive = omega arith }) refl
