-- ===== src/Queue.antt =====
-- internal/throttle/queue/queue.go: the interface of the queues, and what the throttle driver relies
-- on. A method that changes its queue returns the new one; one that changes the client that it is
-- given returns that too. Add and Remove hold the
-- queue's mutex for a whole call; Clear, Size, ReceiveTrackerFeedback and IsCandidateToProceed need
-- not, and where goroutines interleave it is said what that may do.
pub mod Noop
pub mod Capped
pub mod PollDriven
pub mod Interval
pub mod SortedSet
pub mod LuaDriven
use goqueuesim.Common.{Bool, ℤ}
use goqueuesim.Common.Clock.{Time}
use goqueuesim.Common.Float.{Float64}
use goqueuesim.Client.{Client}
use goqueuesim.Client.Cookies.{SameThrottle}
use goqueuesim.Tracker.{Feedback}

-- queue.Queue, over the state `S` of an implementation. Add and IsCandidateToProceed may read the
-- time, which is the same throughout a call.
pub record Queue (fl : Float64) (S : Type 0) : Type 0 where
  pub add : Time → S → Client → S × Client
  pub remove : S → Client → S
  pub is_candidate_to_proceed : Time → S → Client → S × Client × Bool
  pub receive_tracker_feedback : Feedback fl → S → S
  pub size : S → ℤ
  pub clear : S → S

-- What the driver relies on: a queue leaves the throttle state, the lock and the times of a client
-- alone.
pub record QueueLaws {fl : Float64} {S : Type 0} (q : Queue fl S) : Type 0 where
  pub add-SameThrottle : (now : Time) (s : S) (c : Client) → SameThrottle c (q.add now s c).1
  pub candidate-SameThrottle :
      (now : Time) (s : S) (c : Client) → SameThrottle c (q.is_candidate_to_proceed now s c).1
