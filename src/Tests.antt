-- ===== src/Tests.antt =====
-- Concrete clients, queues, trackers and requests, on which the theorems are run.
mod Throttle
mod Queues
mod Clients
mod Simulation
mod SortedSet
mod Setup
mod Interleaving
mod Lua
use goqueuesim.Common.{ℕ, String, Bool, true, false, Option, none, some, List, [], ◌∷◌, ℤ, pos}
use goqueuesim.Common.Map.{Map}
use goqueuesim.Common.Clock.{Time}
use goqueuesim.Common.Float.{fractions}
use goqueuesim.Client.{Client, ThrottleState, initial, routinely_polling, nil_channel, nil_pointer}
use goqueuesim.Tracker.{FixedWindowTracker, Feedback}
use goqueuesim.Queue.Capped.{CappedBinsQueue}

abbrev pub client_in : ℤ → ThrottleState → Client
client_in id s = record {
  id = id;
  label = "routine";
  kind = routinely_polling;
  default_poll_interval = pos 1_000_000_000;
  max_initial_delay_ms = pos 10;
  max_network_jitter_ms = pos 10;
  obeys_poll_after = true;
  started_polling = false;
  poll_stopper = nil_channel;
  hit_checkout_step = false;
  advised_poll_after = pos 0;
  state = s;
  queue_entry_time = pos 0;
  queue_exit_time = pos 0;
  is_locked = true;
  poll_timer = nil_pointer;
  throttle_cookie = none;
}

abbrev pub one_per_window : FixedWindowTracker
one_per_window = record {
  max_checkouts_per_window = 1;
  cur_window_index = pos 4;
  windowed_polling_util = [];
  windowed_checkout_util = [];
}

abbrev pub empty_bins : CappedBinsQueue
empty_bins = record {
  bins = [];
  cur_window_dequeues = [];
  bin_size = pos 2;
  queue_bin = pos 1;
  working_bin = pos 1;
  total_queued_clients = pos 0;
}

abbrev pub low_feedback : Feedback fractions
low_feedback = record {
  polling_util = record { top = pos 1; bottom = 2 };
  checkout_util = record { top = pos 1; bottom = 10 };
  should_ignore_poll_util = none;
}
