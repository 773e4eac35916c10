-- ===== src/Simulator.antt =====
-- internal/simulator: the server workers of simulator.go and the client repository of
-- client_repo.go. A worker holds the client's lock for a whole request, so the server on its own runs
-- a sequence of requests; Workers interleaves its calls with the other goroutines. A response channel
-- is the list of what was sent on it; a full channel delays the worker and changes nothing else.
pub mod Stock
pub mod Fairness
pub mod Cheating
pub mod Overtaking
pub mod Start
pub mod Workers
pub mod Serving
pub mod Keeping
pub mod Depletion
pub mod InStock
pub mod Repository
pub mod Interleaving
use goqueuesim.Common.{zero, suc, ℕ, Option, none, some, List, [], ◌∷◌, ◌++◌, ℤ}
use goqueuesim.Common.Map.{Map, int_key, lookup, insert, lookup_or}
use goqueuesim.Common.Panic.{Outcome, ok, panic, ◌>>=◌, nil_client, stack_overflow}
use goqueuesim.Common.Float.{Float64}
use goqueuesim.Client.{Client}
use goqueuesim.Client
use goqueuesim.Network.{MockRequest, MockResponse, make_server_response, session_data}
use goqueuesim.Queue.{Queue}
use goqueuesim.Driver.{Instants, Driver, Answer, try_transition}

-- SimpleClientRepo.WriteClient
unfoldable pub write_client : Client → Map ℤ Client → Map ℤ Client
write_client c repo = insert c.id c repo

-- SimpleClientRepo.FetchClientById; an unknown id reads as the nil interface.
unfoldable pub fetch_client_by_id : ℤ → Map ℤ Client → Option Client
fetch_client_by_id id repo = lookup id repo

pub record System (S : Type 0) : Type 0 where
  pub driver : Driver S
  pub client_repo : Map ℤ Client
  pub response_channels : Map ℤ (List MockResponse)

-- The clients share their records with the repository, so the changed client is written back under
-- the id that it was fetched by.
unfoldable pub respond : {S : Type 0} → ℤ → Answer S → System S → System S
respond id r sys = record {
  driver = r.driver;
  client_repo = insert id (Client.unlock r.client) sys.client_repo;
  response_channels =
      insert r.client.id
        (lookup_or [] r.client.id sys.response_channels
          ++ make_server_response (session_data r.client) ∷ [])
        sys.response_channels;
}

-- SimulationDriver.startClients: the workers that it starts wait for the responses.
unfoldable pub start_clients : {S : Type 0} → List Client → System S → System S
start_clients [] sys = sys
start_clients (c ∷ cs) sys = start_clients cs (record sys {
  client_repo = write_client c sys.client_repo;
  response_channels =
      insert c.id
        (lookup_or [] c.id sys.response_channels ++ make_server_response (session_data c) ∷ [])
        sys.response_channels;
})

module _ {fl : Float64} {S : Type 0} (q : Queue fl S) where
  -- One request in the loop of SimulationDriver.runServerWorker.
  unfoldable pub serve : Instants → MockRequest → System S → Outcome (System S)
  serve t req sys = elim (fetch_client_by_id req.client_data.id sys.client_repo) [
    | none ↦ panic nil_client
    | some c ↦ elim (try_transition q 2 t sys.driver (Client.lock c)) [
      | none ↦ panic stack_overflow
      | some r ↦ ok (respond req.client_data.id r sys)
    ]
  ]

  -- The server over a sequence of requests.
  unfoldable pub serve_all : List (Instants × MockRequest) → System S → Outcome (System S)
  serve_all [] sys = ok sys
  serve_all ((t, req) ∷ reqs) sys = serve t req sys >>= serve_all reqs
