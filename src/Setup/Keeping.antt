-- ===== src/Setup/Keeping.antt =====
-- The windows and the bins of the simulation that main starts, in every state that it reaches
-- (cmd/goqueuesim/main.go with internal/simulator/simulator.go and internal/throttle).
use goqueuesim.Common.{
  ◌<◌, ◌^◌, ◌≤ℤ◌, ◌+◌, ◌≡◌, refl, sym, subst, ℕ, suc, ◌≤◌, String, none, some, Bool, true, false,
  if◌then◌else◌, List, [], ◌∷◌, arith, ℤ, pos, length, leb_ℤ,
}
use goqueuesim.Common.Map.{Map, int_key, string_key, ◌==◌, lookup, lookup_or}
use goqueuesim.Common.Clock.{Time, Duration, milliseconds}
use goqueuesim.Common.Panic.{
  Outcome, ok, panic, Post, Post-bind, Post-if, Post-then, Post-ok, fatal,
}
use goqueuesim.Common.Float.{Float64}
use goqueuesim.Client.{Client}
use goqueuesim.Tracker.{FixedWindowTracker, make_fixed_window_tracker, window}
use goqueuesim.Tracker.Kept.{AdmitsAtMost, window-IsTracked}
use goqueuesim.Queue.{Queue, QueueLaws}
use goqueuesim.Queue.Capped.{
  CappedBinsQueue, capped_queue, capped_queue-QueueLaws, make_capped_bins_queue, bin,
}
use goqueuesim.Queue.Capped
use goqueuesim.Queue.Capped.Kept.{HoldsAtMost, TornFeedback, capped-IsKept}
use goqueuesim.Queue.Interval.{
  IntervalBinsQueue, interval_queue, interval_queue-QueueLaws, make_interval_bins_queue,
}
use goqueuesim.Queue.Interval
use goqueuesim.Queue.Interval.Runs.{IsOrdered}
use goqueuesim.Queue.Interval.Kept.{Writes, CountsUp, WritesAlike, alike-IsKept}
use goqueuesim.Simulator.{System, start_clients}
use goqueuesim.Simulator.Workers.{Call, Simulation, Reach, steps}
use goqueuesim.Simulator.Keeping.{Reach-Tracks}
use goqueuesim.Simulator.Depletion.{AreLate}
use goqueuesim.Simulator.InStock.{IsKept, Reach-Keeps}
use goqueuesim.Simulator.Interleaving.{IsSound}
use goqueuesim.Setup.Distributing.{total_of}
use goqueuesim.Setup.Running.{main-IsSound}
use goqueuesim.Setup.{
  Distribution, validate_params, set_logging, load_client_distribution_config,
  prepare_network_params, make_mock_checkout_clients,
}
use goqueuesim.Setup.Main.{
  main, make_rate_tracker, make_client_repo, make_checkout_throttle_driver, make_simulator,
  start_simulation, max_checkouts_allowed_per_window, window_duration, tracker_type,
  inventory_stock_total,
}

start_clients-driver :
    {S : Type 0} (cs : List Client) (sys : System S) → (start_clients cs sys).driver ≡ sys.driver
unfolding start_clients
start_clients-driver [] sys = refl
start_clients-driver (c ∷ cs) sys = start_clients-driver cs _

-- A new tracker has no windows.
empty_windows :
    (max : ℕ)
    → AdmitsAtMost max (record {
      max_checkouts_per_window = max;
      cur_window_index = pos 0;
      windowed_polling_util = [];
      windowed_checkout_util = [];
    })
unfolding window lookup_or lookup
empty_windows max = (refl, λ j. omega arith)

if_made :
    (P : FixedWindowTracker → Type 0) (invalid : Bool) (t : FixedWindowTracker) (why : String)
    → P t
    → Post P (elim (if invalid then none else some t) as (λ o. Outcome FixedWindowTracker) [
      | none ↦ panic (fatal why)
      | some made ↦ ok made
    ])
if_made P true t why h = tt
if_made P false t why h = h

made-AdmitsAtMost :
    (kind : String) (d : Duration) (max : ℕ)
    → Post (AdmitsAtMost max) (make_rate_tracker kind d max)
unfolding make_rate_tracker make_fixed_window_tracker
made-AdmitsAtMost kind d max =
    Post-if (AdmitsAtMost max) (kind == "fixed_window") _
      (panic (fatal "tracker type must be one of: {fixed_window}"))
      (if_made (AdmitsAtMost max) (leb_ℤ (milliseconds d) (pos 0)) _ _ (empty_windows max)) tt

abbrev J : FixedWindowTracker → Type 0
J = AdmitsAtMost max_checkouts_allowed_per_window

-- main clears the queue, starts with a tracker that has admitted nobody, with no call, and with the
-- whole stock.
main_fresh :
    {fl : Float64} {S : Type 0} (q : Queue fl S) (decoded : Outcome (Distribution fl))
    (swaps : List (ℕ × ℕ)) (s : S)
    → Post
        (λ sim.
          (sim.system.driver.throttle_queue ≡ q.clear s)
          × J sim.system.driver.rate_tracker
          × (sim.calls ≡ [])
          × (sim.system.driver.inventory.count ≡ pos inventory_stock_total))
        (main q decoded swaps s)
unfolding main make_checkout_throttle_driver make_simulator start_simulation
main_fresh {fl} {S} q decoded swaps s =
    let Good : Simulation fl S → Type 0 = λ sim.
      (sim.system.driver.throttle_queue ≡ q.clear s)
      × J sim.system.driver.rate_tracker
      × (sim.calls ≡ [])
      × (sim.system.driver.inventory.count ≡ pos inventory_stock_total) in
    Post-then Good (validate_params _) _ (λ _. Post-then Good (set_logging _) _ (λ _.
      Post-then Good (load_client_distribution_config fl decoded) _ (λ loaded.
        Post-then Good (prepare_network_params loaded.1) _ (λ net.
          Post-then Good (make_mock_checkout_clients fl loaded.0 _ swaps) _ (λ made.
            Post-then Good (make_client_repo _) _ (λ repo.
              Post-bind J Good (make_rate_tracker _ _ _) _
                (made-AdmitsAtMost tracker_type window_duration max_checkouts_allowed_per_window)
                (λ t admits.
                  subst
                    (λ d.
                      (d.throttle_queue ≡ q.clear s)
                      × J d.rate_tracker
                      × (◌≡◌ {A = Map ℤ Call} [] [])
                      × (d.inventory.count ≡ pos inventory_stock_total))
                    (sym (start_clients-driver made.clients _)) (refl, admits, refl, refl))))))))

pub main-stock :
    {fl : Float64} {S : Type 0} (q : Queue fl S) (decoded : Outcome (Distribution fl))
    (swaps : List (ℕ × ℕ)) (s : S) (start : Simulation fl S)
    → main q decoded swaps s ≡ ok start
    → start.system.driver.inventory.count ≡ pos inventory_stock_total
main-stock q decoded swaps s start ran = (Post-ok _ (main_fresh q decoded swaps s) ran).3

-- Whatever order the goroutines run in after main has started the simulation, over any queue with any
-- goroutines of its own, no window of the tracker records more than 201 clients that reached checkout.
pub main-admits :
    {fl : Float64} {S : Type 0} (q : Queue fl S) (background : S → S → Type 0)
    (decoded : Outcome (Distribution fl)) (swaps : List (ℕ × ℕ)) (s : S)
    (start later : Simulation fl S) (j : ℤ)
    → main q decoded swaps s ≡ ok start
    → Reach q background start later
    → length (window j later.system.driver.rate_tracker.windowed_checkout_util) ≤ 201
main-admits {fl} q background decoded swaps s start later j ran reached =
    let (_, admits, _, _) = Post-ok _ (main_fresh q decoded swaps s) ran in
    let (same, within) =
      Reach-Tracks q background J (window-IsTracked fl max_checkouts_allowed_per_window) reached
        admits in
    subst (λ n. length (window j later.system.driver.rate_tracker.windowed_checkout_util) ≤ n + 1)
      same (within j)

no_calls_late : {fl : Float64} {S : Type 0} (sim : Simulation fl S) → sim.calls ≡ [] → AreLate sim
unfolding lookup
no_calls_late sim e id call h = let none_there = subst (λ m. lookup id m ≡ some call) e h in cc

-- In every state that the simulation reaches the queue is as it should be, while there is stock.
main-Keeps :
    {fl : Float64} {S : Type 0} (q : Queue fl S) (background : S → S → Type 0) (laws : QueueLaws q)
    (Room : ℕ → Type 0) (I : ℕ → S → Type 0) (kept : IsKept q background Room I)
    (dist : Distribution fl) (swaps : List (ℕ × ℕ)) (s : S) (start later : Simulation fl S)
    → total_of fl dist + 1 < 2 ^ 63
    → I 0 (q.clear s)
    → main q (ok dist) swaps s ≡ ok start
    → (r : Reach q background start later) → ((j : ℕ) → j < 0 + steps q background r → Room j)
    → pos 1 ≤ℤ later.system.driver.inventory.count
    → I (0 + steps q background r) later.system.driver.throttle_queue
main-Keeps q background laws Room I kept dist swaps s start later room h ran r rooms =
    let (cleared, _, no_calls, _) = Post-ok _ (main_fresh q (ok dist) swaps s) ran in
    let sound =
      Post-ok (IsSound inventory_stock_total) (main-IsSound q background dist swaps s room) ran in
    (Reach-Keeps q background laws inventory_stock_total (omega arith) Room I kept 0 sound
      (no_calls_late start no_calls) (λ there. subst (I 0) (sym cleared) h) r rooms).2

-- A new capped bins queue, once it is cleared, has no bins.
new_bins :
    (fl : Float64) (n : ℕ)
    → (make_capped_bins_queue fl (pos max_checkouts_allowed_per_window)).bin_size ≡ pos (suc n)
    → HoldsAtMost n
        ((capped_queue fl).clear (make_capped_bins_queue fl (pos max_checkouts_allowed_per_window)))
unfolding capped_queue Capped.clear make_capped_bins_queue bin lookup_or lookup
new_bins fl n room = (room, λ j. ground (arith, room))

-- Whatever order the goroutines run in after main has started the simulation over a new capped bins
-- queue, whose bins have room for at least one client, also where ReceiveTrackerFeedback, which takes
-- no lock, writes a working bin that it computed from older values: as long as there is stock, so that
-- nobody has called Clear since the start, no bin holds more clients than it has room for, if together
-- the shares of the distribution come to fewer than 2 ^ 63 - 1 clients.
pub main-HoldsAtMost :
    (fl : Float64) (dist : Distribution fl) (swaps : List (ℕ × ℕ)) (n : ℕ)
    (start later : Simulation fl CappedBinsQueue) (j : ℤ)
    → total_of fl dist + 1 < 2 ^ 63
    → (make_capped_bins_queue fl (pos max_checkouts_allowed_per_window)).bin_size ≡ pos (suc n)
    → main
        (capped_queue fl)
        (ok dist)
        swaps
        (make_capped_bins_queue fl (pos max_checkouts_allowed_per_window))
      ≡ ok start
    → Reach (capped_queue fl) TornFeedback start later
    → pos 1 ≤ℤ later.system.driver.inventory.count
    → length (bin j later.system.driver.throttle_queue.bins) ≤ suc n
main-HoldsAtMost fl dist swaps n start later j shares room ran reached there =
    let (size, capped) =
      main-Keeps (capped_queue fl) TornFeedback (capped_queue-QueueLaws fl) (λ _. Unit)
        (λ _. HoldsAtMost n) (capped-IsKept fl n) dist swaps _ start later shares
        (new_bins fl n room) ran reached (λ i e. tt) there in
    ground (arith, size, capped j)

-- A new interval bins queue, once it is cleared, works on its only bin.
new_order :
    (now : Time) (max_unfair : Duration)
    → IsOrdered 0 (
        Interval.clear (
          make_interval_bins_queue now window_duration
            (pos max_checkouts_allowed_per_window)
            max_unfair))
unfolding Interval.clear make_interval_bins_queue
new_order now max_unfair = omega arith

-- Whatever order the goroutines run in after main has started the simulation over a new interval bins
-- queue with its two goroutines, for fewer than 2 ^ 63 steps, also where the bins grow between the
-- unlocked reads of a call, so that clients are counted in, or given, another bin (the calls write to
-- the queue what those of the interval bins queue write, and give to the clients what they like within
-- the interface's laws): as long as there is stock, so that nobody has called Clear since the start,
-- the bin that is worked on is neither negative nor past the latest one, if together the shares of the
-- distribution come to fewer than 2 ^ 63 - 1 clients.
pub main-IsOrdered :
    (fl : Float64) (q : Queue fl IntervalBinsQueue) (dist : Distribution fl) (swaps : List (ℕ × ℕ))
    (now : Time) (max_unfair : Duration) (start later : Simulation fl IntervalBinsQueue)
    → QueueLaws q
    → WritesAlike fl q
    → total_of fl dist + 1 < 2 ^ 63
    → main q (ok dist) swaps (
        make_interval_bins_queue now window_duration
          (pos max_checkouts_allowed_per_window)
          max_unfair)
      ≡ ok start
    → (r : Reach q (Writes fl) start later) → steps q (Writes fl) r < 2 ^ 63
    → pos 1 ≤ℤ later.system.driver.inventory.count
    → let queue = later.system.driver.throttle_queue in
      (queue.max_considered_bin_idx ≤ℤ queue.latest_bin_idx)
      × (pos 0 ≤ℤ queue.max_considered_bin_idx)
main-IsOrdered fl q dist swaps now max_unfair start later laws alike shares ran r room there =
    let h =
      main-Keeps q (Writes fl) laws CountsUp IsOrdered (alike-IsKept fl q alike) dist swaps _ start
        later shares (subst (IsOrdered 0) (sym (alike.same_clear _)) (new_order now max_unfair)) ran
        r (λ j e. omega (arith, e, room)) there in
    (omega (arith, h), omega (arith, h))
