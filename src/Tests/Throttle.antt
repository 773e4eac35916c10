-- ===== src/Tests/Throttle.antt =====
-- The server, the throttle driver and the tracker on concrete requests.
use goqueuesim.Common.{
  ◌≡◌, refl, ◌⊎◌, inl, true, false, some, List, [], ◌∷◌, arith, pos, negsuc, ◌+ℤ◌, leb, length,
  if◌then◌else◌,
}
use goqueuesim.Common.Map.{int_key, lookup, insert, lookup_or}
use goqueuesim.Common.Panic.{ok}
use goqueuesim.Common.Float.{fractions}
use goqueuesim.Client.{initial, queued, get_throttle_cookie_val}
use goqueuesim.Network.{MockRequest, make_checkout_request, session_data}
use goqueuesim.Tracker.{should_proceed, window}
use goqueuesim.Tracker.Capacity.{
  admitted, checkouts, pollers, admitted-eq-min, should_proceed_effect,
}
use goqueuesim.Queue.Capped.{
  CappedBinsQueue, capped_queue, capped_queue-QueueLaws, is_candidate_to_proceed, get_user_bin,
}
use goqueuesim.Driver.{Instants, Driver, Answer, try_transition}
use goqueuesim.Driver.Transition.{HasPassed, HasStayed}
use goqueuesim.Driver.Calls.{
  answer, try_transition-answer, try_transition-cases, try_transition_passes,
}
use goqueuesim.Simulator.{System, serve_all}
use goqueuesim.Simulator.Stock.{IsBalanced, checked_out, serve_all-IsBalanced}
use goqueuesim.Tests.{client_in, one_per_window, empty_bins}

abbrev at_once : Instants
at_once = record { queued_at = pos 5; added_at = pos 6; asked_at = pos 7; passed_at = pos 8 }

abbrev two_items : Driver CappedBinsQueue
two_items = record {
  throttle_queue = empty_bins;
  rate_tracker = one_per_window;
  inventory = record { is_locked = false; count = pos 2 };
  cancelled = false;
}

abbrev two_clients : System CappedBinsQueue
two_clients = record {
  driver = two_items;
  client_repo =
      (pos 1, record (client_in (pos 1) initial) { is_locked = false })
      ∷ (pos 2, record (client_in (pos 2) initial) { is_locked = false })
      ∷ [];
  response_channels = [];
}

abbrev three_requests : List (Instants × MockRequest)
three_requests =
    (at_once, make_checkout_request (session_data (client_in (pos 1) initial)))
    ∷ (at_once, make_checkout_request (session_data (client_in (pos 2) initial)))
    ∷ (at_once, make_checkout_request (session_data (client_in (pos 1) initial)))
    ∷ []

serve_all-IsBalanced_example :
    (sys' : System CappedBinsQueue) × (serve_all (capped_queue fractions) three_requests two_clients
      ≡ ok sys')
    × IsBalanced 2 sys'
unfolding lookup checked_out make_checkout_request session_data
serve_all-IsBalanced_example =
    serve_all-IsBalanced (capped_queue fractions) (capped_queue-QueueLaws fractions) 2
      three_requests two_clients (omega arith) ((_, refl), ((_, refl), ((_, refl), tt)))
      (record { balance = refl; sold = omega arith; honest = (inl refl, (inl refl, tt)) })

try_transition-answer_example :
    try_transition (capped_queue fractions) 2 at_once two_items (client_in (pos 1) initial)
    ≡ some (
        answer
          (capped_queue fractions)
          (capped_queue-QueueLaws fractions)
          at_once
          two_items
          (client_in (pos 1) initial))
try_transition-answer_example =
    try_transition-answer (capped_queue fractions) (capped_queue-QueueLaws fractions) 0 at_once
      two_items (client_in (pos 1) initial)

try_transition-cases_example :
    (r : Answer CappedBinsQueue) × (try_transition
        (capped_queue fractions)
        2
        at_once
        two_items
        (client_in (pos 1) initial)
      ≡ some r)
    × ((HasPassed two_items (client_in (pos 1) initial) r)
        ⊎ (HasStayed two_items (client_in (pos 1) initial) r))
unfolding ◌+ℤ◌
try_transition-cases_example =
    try_transition-cases (capped_queue fractions) (capped_queue-QueueLaws fractions) 0 at_once
      two_items (client_in (pos 1) initial) (omega arith)

abbrev sold_out : Driver CappedBinsQueue
sold_out = record two_items { inventory = record { is_locked = false; count = pos 0 } }

try_transition_passes_example :
    (r : Answer CappedBinsQueue) × (try_transition
        (capped_queue fractions)
        2
        at_once
        sold_out
        (client_in (pos 1) queued)
      ≡ some r)
    × (HasPassed sold_out (client_in (pos 1) queued) r)
    × (r.driver.inventory.count ≡ negsuc 0)
unfolding capped_queue is_candidate_to_proceed get_user_bin get_throttle_cookie_val should_proceed
    window lookup_or lookup insert
try_transition_passes_example =
    try_transition_passes (capped_queue fractions) (capped_queue-QueueLaws fractions) 0 at_once
      sold_out (client_in (pos 1) queued) 0 refl refl refl refl refl (omega arith)

admitted-eq-min_example : admitted (pos 1 ∷ pos 2 ∷ pos 3 ∷ []) one_per_window ≡ 2
unfolding window lookup_or lookup
admitted-eq-min_example =
    admitted-eq-min (pos 1 ∷ pos 2 ∷ pos 3 ∷ []) one_per_window (ground arith)
      (refl, (refl, (refl, tt)))

should_proceed_effect_example :
    let (t', passed) = should_proceed (pos 3) one_per_window in
    (lookup (pos 3) (pollers t') ≡ some true)
    × (passed ≡ leb (length (checkouts one_per_window)) 1)
    × (checkouts t' ≡ (
        if passed
        then insert (pos 3) true (checkouts one_per_window)
        else checkouts one_per_window))
should_proceed_effect_example = should_proceed_effect (pos 3) one_per_window
