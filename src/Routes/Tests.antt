-- ===== src/Routes/Tests.antt =====
-- A concrete request to the search route.
use lead_generation_api_zyla.Prelude.{none, some, [], ◌∷◌}
use lead_generation_api_zyla.Search.Tests.{demo_call, demo_db}
use lead_generation_api_zyla.Security.{AuthContext}
use lead_generation_api_zyla.Routes.{Incoming, App}

abbrev client : AuthContext
client = record {
  tenant_id = "t1";
  actor_id = none;
  role = "API_CLIENT";
  scopes = "leads:read" ∷ [];
  api_key_id = some "k1";
}

abbrev pub request : Incoming
request = record {
  request_id = "r1";
  request_fingerprint = "f1";
  payload = demo_call.payload;
  idempotency_key = some "order-1";
  ticks = 5000000;
  started = 5000000;
  finished = 6000000;
  asked_at = "";
  outcome = none;
}

abbrev pub server : App
server = record {
  limiter = record { limit = 60; window_seconds = 60; events = λ k. [] };
  process = record { store = λ k. none; db = demo_db };
}
