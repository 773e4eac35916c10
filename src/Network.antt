-- ===== src/Network.antt =====
-- internal/network_mock: the requests and responses that clients and server workers exchange, and
-- BaseClient.SessionData of internal/client/impl/base_client.go.
use goqueuesim.Common.{String, Option, ℤ}
use goqueuesim.Common.Map.{Map}
use goqueuesim.Common.Clock.{Time}
use goqueuesim.Client.{Client, state_string}

pub record SessionData : Type 0 where
  pub id : ℤ
  pub queue_entry_time : Time
  pub advised_poll_after : Time
  pub throttle_state : String
  pub throttle_cookie : Option (Map String String)

-- type requestEndpointEnum
pub data Endpoint : Type 0 where
  checkout_endpoint polling_endpoint : Endpoint

pub record MockRequest : Type 0 where
  pub endpoint : Endpoint
  pub client_data : SessionData

pub record MockResponse : Type 0 where
  pub client_data : SessionData

unfoldable pub make_checkout_request : SessionData → MockRequest
make_checkout_request s = record { endpoint = checkout_endpoint; client_data = s }

unfoldable pub make_poll_request : SessionData → MockRequest
make_poll_request s = record { endpoint = polling_endpoint; client_data = s }

unfoldable pub make_server_response : SessionData → MockResponse
make_server_response s = record { client_data = s }

-- BaseClient.SessionData
unfoldable pub session_data : Client → SessionData
session_data c = record {
  id = c.id;
  queue_entry_time = c.queue_entry_time;
  advised_poll_after = c.advised_poll_after;
  throttle_state = state_string c.state;
  throttle_cookie = c.throttle_cookie;
}
