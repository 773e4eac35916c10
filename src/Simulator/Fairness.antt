-- ===== src/Simulator/Fairness.antt =====
-- SimulationDriver.aggregateFairnessResults of internal/simulator/simulator.go: which clients overtook
-- which. Printing and gauges are left out, save for the labels whose printing may panic.
use goqueuesim.Common.{
  String, Bool, true, false, ◌&&◌, Option, none, some, List, [], ◌∷◌, if◌then◌else◌, ℤ, pos, ◌+ℤ◌,
}
use goqueuesim.Common.Map.{Map, int_key, string_key, insert, lookup_or}
use goqueuesim.Common.Word.{i64}
use goqueuesim.Common.Clock.{before, sub_time}
use goqueuesim.Common.Panic.{Outcome, ok, panic, ◌>>=◌, nil_client}
use goqueuesim.Common.Float.{Float64, seconds}
use goqueuesim.Client.{Client}

-- The clients that reached checkout.
unfoldable pub reached_checkout : List Client → List Client
reached_checkout [] = []
reached_checkout (c ∷ cs) =
    let rest = reached_checkout cs in if c.hit_checkout_step then c ∷ rest else rest

-- `cy` entered after `cx` and left before it.
unfoldable pub overtakes : Client → Client → Bool
overtakes cy cx =
    before cx.queue_entry_time cy.queue_entry_time && before cy.queue_exit_time cx.queue_exit_time

-- `if !seen[id] { counts[label]++ }`
unfoldable pub count_label : Map ℤ Bool → Client → Map String ℤ → Map String ℤ
count_label seen c counts =
    if lookup_or false c.id seen
    then counts
    else insert c.label (i64 (lookup_or (pos 0) c.label counts +ℤ pos 1)) counts

module _ (fl : Float64) where
  open fl use {Carrier, of_int, add, lt}

  pub record Tally : Type 0 where
    pub num_unfair_events : ℤ
    pub unique_cheated_clients : Map ℤ Bool
    pub unique_unfair_clients : Map ℤ Bool
    pub num_cheated_clients_by_label : Map String ℤ
    pub num_unfair_clients_by_label : Map String ℤ
    pub summed_unfairness_secs : Carrier
    pub global_max_unfairness_secs : Carrier
    -- `none` is the nil interface.
    pub global_max_cheated_client : Option Client
    pub global_max_unfair_client : Option Client

  -- The tally, localMaxUnfairnessSecs and maxCy after the inner loop's body.
  unfoldable pub compare_pair :
      Client → Client → Tally × Carrier × Client → Tally × Carrier × Client
  unfolding overtakes count_label
  compare_pair cx cy (t, local_max, max_cy) =
      let secs = seconds fl (sub_time cy.queue_entry_time cx.queue_entry_time) in
      let t' = record t {
        num_unfair_events = i64 (t.num_unfair_events +ℤ pos 1);
        unique_cheated_clients = insert cx.id true t.unique_cheated_clients;
        unique_unfair_clients = insert cy.id true t.unique_unfair_clients;
        num_cheated_clients_by_label =
            count_label t.unique_cheated_clients cx t.num_cheated_clients_by_label;
        num_unfair_clients_by_label =
            count_label t.unique_unfair_clients cy t.num_unfair_clients_by_label;
        summed_unfairness_secs = add t.summed_unfairness_secs secs;
      } in
      if overtakes cy cx
      then (if lt local_max secs then (t', secs, cy) else (t', local_max, max_cy))
      else (t, local_max, max_cy)

  -- The inner loop.
  unfoldable pub compare_with :
      Client → List Client → Tally × Carrier × Client → Tally × Carrier × Client
  compare_with cx [] acc = acc
  compare_with cx (cy ∷ cys) acc = compare_with cx cys (compare_pair cx cy acc)

  -- The body of the outer loop.
  unfoldable pub judge : List Client → Client → Tally → Tally
  judge all cx t =
      let (t', local_max, max_cy) = compare_with cx all (t, of_int (pos 0), cx) in
      if lt t.global_max_unfairness_secs local_max
      then record t' {
        global_max_unfairness_secs = local_max;
        global_max_cheated_client = some cx;
        global_max_unfair_client = some max_cy;
      }
      else t'

  -- The outer loop.
  unfoldable pub judge_all : List Client → List Client → Tally → Tally
  judge_all all [] t = t
  judge_all all (cx ∷ cxs) t = judge_all all cxs (judge all cx t)

  unfoldable pub no_events : Tally
  no_events = record {
    num_unfair_events = pos 0;
    unique_cheated_clients = [];
    unique_unfair_clients = [];
    num_cheated_clients_by_label = [];
    num_unfair_clients_by_label = [];
    summed_unfairness_secs = of_int (pos 0);
    global_max_unfairness_secs = of_int (pos 0);
    global_max_cheated_client = none;
    global_max_unfair_client = none;
  }

  abbrev label_of : Option Client → Outcome String
  label_of none = panic nil_client
  label_of (some c) = ok c.label

  -- aggregateFairnessResults: the tally, with the labels of the last line that it prints.
  unfoldable pub aggregate_fairness_results : List Client → Outcome (Tally × String × String)
  unfolding no_events
  aggregate_fairness_results clients =
      let reached = reached_checkout clients in
      let t = judge_all reached reached no_events in
      do
        x ← label_of t.global_max_cheated_client
        y ← label_of t.global_max_unfair_client
        ok (t, x, y)
