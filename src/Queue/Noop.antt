-- ===== src/Queue/Noop.antt =====
-- internal/throttle/queue/impl/noop_queue.go: every client is a candidate, and calls are counted.
use goqueuesim.Common.{Bool, true, ℤ, pos, ◌+ℤ◌, ◌-ℤ◌}
use goqueuesim.Common.Word.{i64}
use goqueuesim.Common.Clock.{Time}
use goqueuesim.Common.Float.{Float64}
use goqueuesim.Client.{Client}
use goqueuesim.Client.Cookies.{SameThrottle-refl}
use goqueuesim.Queue.{Queue, QueueLaws}

pub record NoopQueue : Type 0 where
  pub total_queued_clients : ℤ
  pub total_polls_count : ℤ

unfoldable pub add : Time → NoopQueue → Client → NoopQueue × Client
add now q c = (record q { total_queued_clients = i64 (q.total_queued_clients +ℤ pos 1) }, c)

unfoldable pub remove : NoopQueue → Client → NoopQueue
remove q c = record q { total_queued_clients = i64 (q.total_queued_clients -ℤ pos 1) }

unfoldable pub size : NoopQueue → ℤ
size q = q.total_queued_clients

unfoldable pub is_candidate_to_proceed : NoopQueue → Client → NoopQueue × Client × Bool
is_candidate_to_proceed q c =
    (record q { total_polls_count = i64 (q.total_polls_count +ℤ pos 1) }, c, true)

unfoldable pub clear : NoopQueue → NoopQueue
clear q = record { total_queued_clients = pos 0; total_polls_count = pos 0 }

-- MakeNoopQueue
unfoldable pub make_noop_queue : NoopQueue
make_noop_queue = record { total_queued_clients = pos 0; total_polls_count = pos 0 }

-- ReceiveTrackerFeedback only prints.
unfoldable pub noop_queue : (fl : Float64) → Queue fl NoopQueue
unfolding add remove is_candidate_to_proceed size clear
noop_queue fl = record {
  add = add;
  remove = remove;
  is_candidate_to_proceed = λ _. is_candidate_to_proceed;
  receive_tracker_feedback = λ _ q. q;
  size = size;
  clear = clear;
}

pub noop_queue-QueueLaws : (fl : Float64) → QueueLaws (noop_queue fl)
unfolding noop_queue
noop_queue-QueueLaws fl = record {
  add-SameThrottle = λ now s c. SameThrottle-refl c;
  candidate-SameThrottle = λ now s c. SameThrottle-refl c;
}
