-- ===== src/Lib.antt =====
-- A model of goqueuesim, which simulates how the queues of a checkout throttle treat clients of
-- different behaviour. Clients send requests over one channel; server workers take them, and a
-- throttle driver decides with a queue, a rate tracker and the inventory counter whether a client
-- goes from its initial state to queued and from queued to checkout. The response tells the client,
-- which then polls, or leaves.
--
-- The files and the code they model (paths from the repository's root):
-- - Client, Client/Cookies: internal/client/throttle_state.go and internal/client/impl/base_client.go.
--   The record of BaseClient with its lock flag; methods that mutate return the new record.
-- - Counter: internal/common/AtomicCounter.go.
-- - Network: internal/network_mock.
-- - Tracker, Tracker/Windows, Tracker/Capacity: internal/throttle/tracker and tracker/impl.
-- - Queue: internal/throttle/queue/queue.go, the interface and the laws that the driver relies on.
--   Queue/Noop, Queue/Capped, Queue/PollDriven, Queue/Interval: the queues of queue/impl with the same
--   names and their makers in queue_factory.go; the files in their folders hold the proofs.
--   Queue/SortedSet: sorted_set_queue.go of queue/impl/redis_queue, over the commands of a Redis client
--   as a parameter; Queue/SortedSet/Server says what is relied on of Redis.
--   Queue/LuaDriven: lua_driven_queue.go, the builders of its keys and arguments and the readers of its
--   replies (Results, Shapes), over EVALSHA as a parameter.
-- - LuaConfig with Factory, Tables, Loading: internal/lua_config, where Common/Slice models the slices
--   of strings that share their arrays.
-- - Driver, Driver/Transition, Driver/Calls: internal/throttle/throttle_driver.go. Driver/Phases: the
--   same call in steps, with Buying, Selling, and Alone, which compares the two.
-- - Simulator with Stock and Start: the start of the clients, the server workers and the client
--   repository of internal/simulator. Simulator/Workers: the goroutines of the server workers, the
--   clients, their polling, the tracker, the driver and the queue as steps on one state, in any order;
--   Simulator/Repository, Serving, Interleaving, Keeping, Depletion and InStock: what the steps
--   leave and keep.
--   Simulator/Fairness, Simulator/Overtaking, Simulator/Cheating: aggregateFairnessResults of
--   internal/simulator/simulator.go.
-- - Setup with Numbering, Shuffling, Distributing, Main, Queues, Running, Keeping
--   and Starting: cmd/goqueuesim/config.go and main.go, up to the start signal, over the queue that
--   makeUserQueue (Queues) returns.
-- - ClientFactory, ClientFactory/Defaults: internal/client/client_config.go and
--   internal/client/impl/client_factory.go.
-- - Polling with Rounds, Responses, Backoff, Leaving: StartPolling, the polling goroutines and
--   HandleResponse of internal/client/impl. Polling/Stages: the same goroutines in steps, with Pace and
--   Alone, which compares the two. Polling/Sending, Acting, Turns: what they leave of a client and of
--   the request channel.
-- - Common: Go's integers with their wrap-around (Word), maps (Map), strconv (Text), time (Clock),
--   panics (Panic), and float64 as a parameter (Float) that the definitions which compute with it take.
-- - Tests: concrete inputs.
--
-- State is passed explicitly. A call of a method is one step of a component; where the code
-- reads the clock, the times are arguments; where it reads a random number, only what depends on it is
-- kept. A panic is a value of Outcome, and ends a run. TryThrottleStateTransition calls itself
-- once; its model counts calls, and two are always enough. Counters of type int and int64 wrap at 2 ^ 63.
--
-- In the interleaved simulation a step is at most one section under a lock of the counter, the tracker,
-- the queue or the request channel, together with what its goroutine does alone around it. A server
-- worker keeps its client's lock over the steps of a call, so the clients in the repository carry their
-- lock flags, and no other goroutine enters a section under that lock meanwhile. Every timer may fire at
-- any time, and a goroutine may stay where it is for ever. What the queue's own goroutines do is a
-- relation between its states, an argument of the steps. Add and Remove of the queues hold their mutex,
-- but Clear, ReceiveTrackerFeedback and the round of RoutinelyUpdateLatestBin take no lock, while they
-- are one step each here; a Clear in between the reads and writes of another call is not modelled.
-- What is said of a queue's contents in an interleaving (Simulator/InStock) is therefore said only while
-- there is stock, when nobody calls Clear, and the relation contains what the others may write at any
-- time: for the capped bins queue any working bin, for the interval bins queue the rounds of its two
-- loops and any counts of clients, where also what its calls give to the clients is left open.
--
-- Not modelled: metrics, logging and printing; the vendored rate limiter; the Lua scripts, which run
-- inside Redis; and the decoding of the distribution's file. The calls of the two queues in Redis may
-- panic, so they are no instances of the queue interface of the model.
pub mod Common
pub mod Client
pub mod Counter
pub mod Tracker
pub mod Queue
pub mod Network
pub mod Polling
pub mod Driver
pub mod Simulator
pub mod ClientFactory
pub mod Setup
pub mod LuaConfig
pub mod Tests
