-- ===== src/Simulator/Workers.antt =====
-- The whole simulation as steps of its goroutines: internal/simulator/simulator.go with
-- internal/client/impl, throttle_driver.go and fixed_window_tracker.go of internal/throttle. A step is
-- at most one section under a lock of the counter, the tracker or the queue; between the steps of a
-- server worker, which holds its client's lock, any other goroutine may run that needs no lock on this
-- client. The queue's own goroutines are a relation between its states.
use goqueuesim.Common.{
  Bool, true, false, if◌then◌else◌, ℕ, suc, ◌<◌, ◌+◌, ◌≡◌, ◌⊎◌, Option, none, some, List, [], ◌∷◌,
  ◌++◌, ℤ, length,
}
use goqueuesim.Common.Map.{Map, int_key, lookup, insert, lookup_or}
use goqueuesim.Common.Panic.{Outcome, ok, panic, close_of_closed_channel}
use goqueuesim.Common.Float.{Float64}
use goqueuesim.Client.{
  Client, Error, ClientKind, routinely_polling, fully_disappearing, lazy_polling,
  exponential_backoff, jit_greedy, closed_channel,
}
use goqueuesim.Client
use goqueuesim.Network.{MockRequest, MockResponse, make_server_response, session_data}
use goqueuesim.Tracker.{Feedback, emit_feedback, offer}
use goqueuesim.Queue.{Queue}
use goqueuesim.Driver.{Instants, Driver, notify_queue}
use goqueuesim.Driver.Phases.{Phase, begun, finished, proceed}
use goqueuesim.Polling.{Net, Loop, polling, returned}
use goqueuesim.Polling.Rounds.{Tick}
use goqueuesim.Polling.Stages.{Stage, waiting, halted, advance, needs_lock}
use goqueuesim.Polling.Responses.{handle_response}
use goqueuesim.Simulator.{System}

-- The call of TryThrottleStateTransition that runs for a client.
pub data Call : Type 0 where
  no_call : Call
  in_call : Phase → Call

-- MonitorAndEmitFeedback with its arguments and its count, and the message that
-- MonitorUtilAndNotifyQueue has received and not yet passed on.
pub record Monitors (fl : Float64) : Type 0 where
  pub low_util_max_threshold_pct : fl.Carrier
  pub max_skpd_low_polling_util_count : ℤ
  pub low_count : ℤ
  pub received : Option (Feedback fl)

pub record Simulation (fl : Float64) (S : Type 0) : Type 0 where
  pub system : System S
  pub net : Net
  pub monitors : Monitors fl
  -- The requests that server workers have taken, each waiting for the lock of its client.
  pub in_hand : List MockRequest
  -- The calls of the server workers that hold a client's lock, by the ids of the clients.
  pub calls : Map ℤ Call
  pub num_server_workers : ℕ
  -- The polling goroutines by the ids of their clients.
  pub loops : Map ℤ Stage
  -- SimulationCompletedListenerChannel is closed.
  pub completed : Bool

-- Closing the listener channel in monitorSimulationCompletion; each of its two goroutines does it.
unfoldable pub complete : {fl : Float64} {S : Type 0} → Simulation fl S → Outcome (Simulation fl S)
complete sim =
    if sim.completed then panic close_of_closed_channel else ok (record sim { completed = true })

-- The workers that hold a client's lock
unfoldable pub busy : Map ℤ Call → ℕ
busy [] = 0
busy ((id, no_call) ∷ calls) = busy calls
busy ((id, in_call p) ∷ calls) = suc (busy calls)

-- A goroutine of the client's side has changed the client and the net.
unfoldable pub write_back :
    {fl : Float64} {S : Type 0} → ℤ → Client → Net → Simulation fl S → Simulation fl S
write_back id c net sim = record sim {
  system = record sim.system { client_repo = insert id c sim.system.client_repo };
  net = net;
}

-- A server worker has run the next step of its call.
unfoldable pub after_step :
    {fl : Float64} {S : Type 0} → ℤ → Driver S × Client × Phase → Simulation fl S → Simulation fl S
after_step id r sim = record sim {
  system = record sim.system { driver = r.0; client_repo = insert id r.1 sim.system.client_repo };
  calls = insert id (in_call r.2) sim.calls;
}

-- `d.ResponseChannelsMap[c.ID()] <- …` and `c.Unlock()`
unfoldable pub answered :
    {fl : Float64} {S : Type 0} → ℤ → Client → Simulation fl S → Simulation fl S
answered id c sim = record sim {
  system = record sim.system {
    client_repo = insert id (Client.unlock c) sim.system.client_repo;
    response_channels =
        insert c.id
          (lookup_or [] c.id sim.system.response_channels
            ++ make_server_response (session_data c) ∷ [])
          sim.system.response_channels;
  };
  calls = insert id no_call sim.calls;
}

-- One firing of the tracker's timer, and whether the driver receives the message.
unfoldable pub after_tick : {fl : Float64} {S : Type 0} → Bool → Simulation fl S → Simulation fl S
unfolding emit_feedback offer
after_tick {fl} receiver_waits sim =
    let m = sim.monitors in
    let (tracker, count, message) =
      emit_feedback fl m.low_util_max_threshold_pct m.max_skpd_low_polling_util_count
        sim.system.driver.rate_tracker m.low_count in
    record sim {
      system = record sim.system { driver = record sim.system.driver { rate_tracker = tracker } };
      monitors = record m {
        low_count = count;
        received = elim (offer fl receiver_waits message) [
          | none ↦ m.received
          | some message ↦ some message
        ];
      };
    }

module _ {fl : Float64} {S : Type 0} (q : Queue fl S) (background : S → S → Type 0) where
  pub data Step (sim : Simulation fl S) : Simulation fl S → Type 0 where
    -- `req := <-d.RequestTargetChannel`
    takes :
        (req : MockRequest) (rest : List MockRequest)
        → sim.net.requests ≡ req ∷ rest
        → length sim.in_hand + busy sim.calls < sim.num_server_workers
        → Step sim
            (record sim { net = record sim.net { requests = rest }; in_hand = req ∷ sim.in_hand })
    -- FetchClientById and `c.Lock()`, for any of the requests that were taken
    locks :
        (req : MockRequest) (before after : List MockRequest) (c : Client)
        → sim.in_hand ≡ before ++ req ∷ after
        → lookup req.client_data.id sim.system.client_repo ≡ some c
        → c.is_locked ≡ false
        → Step sim (record sim {
          system = record sim.system {
            client_repo = insert req.client_data.id (Client.lock c) sim.system.client_repo;
          };
          in_hand = before ++ after;
          calls = insert req.client_data.id (in_call begun) sim.calls;
        })
    -- The next step of TryThrottleStateTransition for a client
    proceeds :
        (t : Instants) (id : ℤ) (c : Client) (p : Phase)
        → lookup id sim.calls ≡ some (in_call p)
        → lookup id sim.system.client_repo ≡ some c
        → Step sim (after_step id (proceed q t p sim.system.driver c) sim)
    -- The call has returned.
    responds :
        (id : ℤ) (c : Client)
        → lookup id sim.calls ≡ some (in_call finished)
        → lookup id sim.system.client_repo ≡ some c
        → Step sim (answered id c sim)
    -- A round of runClientWorker. A goroutine that is started replaces one that has returned.
    receives :
        (id : ℤ) (c c' : Client) (resp : MockResponse) (rest : List MockResponse) (net : Net)
        (loop : Loop) (failure : Option Error)
        → lookup id sim.system.client_repo ≡ some c
        → c.is_locked ≡ false
        → lookup id sim.system.response_channels ≡ some (resp ∷ rest)
        → handle_response resp (Client.lock c) sim.net ≡ ok (c', net, loop, failure)
        → Step sim
            (record (write_back id (Client.unlock c') net (record sim {
              system = record sim.system {
                response_channels = insert id rest sim.system.response_channels;
              };
            })) {
              loops = elim loop [
                | polling polls ↦ insert id (waiting polls) sim.loops
                | returned ↦ sim.loops
              ];
            })
    -- `<-bc.pollTimer.C`, and what follows it up to the next wait for the timer
    polls :
        (id : ℤ) (c c' : Client) (t : Tick) (net : Net) (stage stage' : Stage)
        → lookup id sim.system.client_repo ≡ some c
        → lookup id sim.loops ≡ some stage
        → (c.is_locked ≡ false) ⊎ (needs_lock c.kind t stage ≡ false)
        → advance fl c.kind t stage c sim.net ≡ ok (c', net, stage')
        → Step sim (record (write_back id c' net sim) { loops = insert id stage' sim.loops })
    -- `<-bc.Ctx.Done()` and `<-bc.PollStopper`
    quits :
        (id count : ℤ) (c : Client)
        → lookup id sim.system.client_repo ≡ some c
        → lookup id sim.loops ≡ some (waiting count)
        → (sim.system.driver.cancelled ≡ true) ⊎ (c.poll_stopper ≡ closed_channel)
        → Step sim (record sim { loops = insert id halted sim.loops })
    -- `<-sleepTimer.C` in MonitorAndEmitFeedback; the driver may be waiting for the message, unless
    -- it has one.
    ticks :
        (receiver_waits : Bool)
        → (receiver_waits ≡ true → sim.monitors.received ≡ none)
        → Step sim (after_tick receiver_waits sim)
    -- MonitorUtilAndNotifyQueue passes a message on to the queue.
    notifies :
        (m : Feedback fl)
        → sim.monitors.received ≡ some m
        → Step sim (record sim {
          system = record sim.system { driver = notify_queue q m sim.system.driver };
          monitors = record sim.monitors { received = none };
        })
    -- The queue's goroutines.
    works :
        (s : S)
        → background sim.system.driver.throttle_queue s
        → Step sim (record sim {
          system = record sim.system { driver = record sim.system.driver { throttle_queue = s } };
        })
    -- A terminal interrupt cancels the context.
    interrupts : Step sim (record sim {
      system = record sim.system { driver = record sim.system.driver { cancelled = true } };
    })
    -- `<-d.Ctx.Done()`, and the close that follows
    winds_down :
        (sim' : Simulation fl S)
        → sim.system.driver.cancelled ≡ true
        → complete sim ≡ ok sim'
        → Step sim sim'
    -- `d.ClientsFinishedWaitGroup.Wait()`, and the close that follows
    finishes :
        (sim' : Simulation fl S) → sim.net.waiting ≡ 0 → complete sim ≡ ok sim' → Step sim sim'

  pub data Reach (sim : Simulation fl S) : Simulation fl S → Type 0 where
    here : Reach sim sim
    next : {mid later : Simulation fl S} → Reach sim mid → Step mid later → Reach sim later

  -- How many steps led to a state.
  unfoldable pub steps : {sim sim' : Simulation fl S} → Reach sim sim' → ℕ
  steps here = 0
  steps (next r st) = suc (steps r)
