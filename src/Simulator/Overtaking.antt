-- ===== src/Simulator/Overtaking.antt =====
-- Where aggregateFairnessResults panics (internal/simulator/simulator.go).
use goqueuesim.Common.{
  ℕ, suc, ◌+◌, ◌≡◌, refl, ◌∙◌, ap, inl, inr, false, List, [], ◌∷◌, if◌then◌else◌, arith, pos,
  Bool-cases,
}
use goqueuesim.Common.Panic.{panic, nil_client}
use goqueuesim.Common.Float.{Float64}
use goqueuesim.Client.{Client}
use goqueuesim.Simulator.Fairness.{
  reached_checkout, overtakes, Tally, compare_pair, compare_with, judge, judge_all, no_events,
  aggregate_fairness_results,
}

-- The clients of a list that overtake one client, and the pairs of which one overtakes the other.
unfoldable pub overtaking : Client → List Client → ℕ
overtaking cx [] = 0
overtaking cx (cy ∷ cys) = if overtakes cy cx then suc (overtaking cx cys) else overtaking cx cys

unfoldable pub overtaken_pairs : List Client → List Client → ℕ
overtaken_pairs all [] = 0
overtaken_pairs all (cx ∷ cxs) = overtaking cx all + overtaken_pairs all cxs

module _ (fl : Float64) where
  open fl use {Carrier, of_int, lt}

  none_overtake :
      (cx : Client) (cys : List Client) (acc : Tally fl × Carrier × Client)
      → overtaking cx cys ≡ 0
      → compare_with fl cx cys acc ≡ acc
  unfolding compare_with compare_pair overtaking
  none_overtake cx [] acc h = refl
  none_overtake cx (cy ∷ cys) acc h = elim (Bool-cases (overtakes cy cx)) [
    | inl o ↦ ground arith
    | inr o ↦ ap (compare_with fl cx cys) (rw o refl) ∙ none_overtake cx cys acc (ground arith)
  ]

  judge_keeps :
      (all : List Client) (cx : Client) (t : Tally fl)
      → overtaking cx all ≡ 0
      → lt t.global_max_unfairness_secs (of_int (pos 0)) ≡ false
      → judge fl all cx t ≡ t
  unfolding judge
  judge_keeps all cx t h l = rw (none_overtake cx all (t, of_int (pos 0), cx) h, l) refl

  judge_all_keeps :
      (all cxs : List Client) (t : Tally fl)
      → overtaken_pairs all cxs ≡ 0
      → lt t.global_max_unfairness_secs (of_int (pos 0)) ≡ false
      → judge_all fl all cxs t ≡ t
  unfolding judge_all overtaken_pairs
  judge_all_keeps all [] t h l = refl
  judge_all_keeps all (cx ∷ cxs) t h l =
      ap (judge_all fl all cxs) (judge_keeps all cx t (omega (arith, h)) l)
      ∙ judge_all_keeps all cxs t (omega (arith, h)) l

  -- Where no client that reached checkout overtook another, there is no most cheated client, and the
  -- last line that is printed asks it for its label: the method panics. Of floats it takes that zero
  -- is not below itself.
  pub aggregate_panics :
      (clients : List Client)
      → lt (of_int (pos 0)) (of_int (pos 0)) ≡ false
      → overtaken_pairs (reached_checkout clients) (reached_checkout clients) ≡ 0
      → aggregate_fairness_results fl clients ≡ panic nil_client
  unfolding aggregate_fairness_results no_events
  aggregate_panics clients l h =
      rw (judge_all_keeps (reached_checkout clients) (reached_checkout clients) (no_events fl) h l)
        refl
