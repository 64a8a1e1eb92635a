-- ===== src/Lib.antt =====
-- Lead Generation API: a multi-tenant HTTP service that answers lead searches from a provider's
-- records and charges one credit for each lead. Paths below are those of the repository.
--
-- The parts. A route of app/main.py checks the rate limit of the tenant (app/rate_limit.py), looks up
-- the idempotency key (app/idempotency.py), asks the provider for records (app/providers.py) and
-- gives them to app/search_service.py, which filters suppressed subjects (app/privacy.py), scores
-- (app/services.py), stores rows (app/models.py) and charges, in one transaction. A billing webhook
-- adds credits. Jobs (app/jobs.py), taken from a queue by scripts/worker.py, clean up and reconcile.
--
-- The files:
--   Prelude      shared names and lemmas: tests, lists, signed integers, Python's text methods.
--   Errors, Exec results that may raise (app/errors.py), and calls that also change a state.
--   Json, Env    decoded JSON bodies; the clock, uuids, digests and parsers, as parameters.
--   Schemas      requests and responses of app/schemas.py.
--   Models       app/models.py: rows, tables, and the transaction with its rollback.
--   Migrations   the two revisions of alembic/versions, as the commands that they give to a database;
--                Migrations/Laws states what is relied on of it.
--   Filters, Providers   app/providers.py: the fixture provider, the HTTP adapter, the choice.
--   Services     app/services.py: score_provider_lead, quality_for, normalize_domain.
--   Privacy      app/privacy.py.
--   Search       app/search_service.py: execute_lead_search and _persist_lead_search. Search/Rows has
--                the get-or-create functions, Search/Select the filters and the order, Search/Persist
--                the loop over the chosen leads; the other children hold proofs.
--   RateLimit    app/rate_limit.py: `admit` is InMemoryRateLimiter.check on the events of one key,
--                `redis_admit` is the Redis script.
--   Idempotency, Replay  app/idempotency.py, and what search_leads and _execute_zyla_search of
--                app/main.py do with it. Idempotency/Calls has sequences of calls for both stores;
--                Replay/Schedule has many requests with one key, in any order of their steps;
--                Replay/Stores has the same code over any store, Redis among them, whose calls may raise.
--   Routes       search_leads of app/main.py after authentication, over the in-memory limiter and store;
--                Routes/Shared has it over any limiter and store.
--   Security     app/security.py: scopes, tokens, API keys and get_auth_context.
--   Accounts     register, login, me, create_key, list_keys and revoke_key of app/main.py, with
--                their requests in Schemas/Accounts. Accounts/Tokens states what is relied on of the
--                token library, and Accounts/Frames is one that meets it.
--   Settings     app/config.py: Settings.validate, and in Settings/Loading the fields as they are read
--                from the environment.
--   Ledger       what the credit ledger promises about balances.
--   Billing      billing_webhook and _apply_billing_event of app/main.py.
--   Operations   the routes of app/main.py for privacy, jobs and usage, and submit_job of app/jobs.py;
--                their requests are in Schemas/Operations.
--   Zyla         app/zyla.py: parse_zyla_query, query_to_payload and ensure_zyla_tenant.
--   Marketplace  authorize_zyla_request of app/zyla.py, and zyla_search_get, zyla_search_post and
--                _execute_zyla_search of app/main.py.
--   Http         the middleware, the exception handlers, the health routes and the metrics of
--                app/main.py, with zyla_metadata of app/zyla.py.
--   Jobs         app/jobs.py, and process_message of scripts/worker.py, with its rounds on a queue in
--                memory.
--   Queue        app/queue.py, run_worker of scripts/worker.py and submit_job of app/jobs.py on the Redis
--                queue. The commands of Redis are the parameter `Commands`, and Queue/Laws states what is
--                relied on of them, XADD trimming old entries among it; Queue/DemoStream is a stream that
--                meets these laws.
--
-- How the state is modelled. The database is one value, `Db`, with a list of rows for each table, and
-- a transaction is run alone: the row lock on the tenant makes searches of one tenant take turns. A
-- time is a natural number of microseconds. The response under an idempotency key is kept as the value
-- that it was: its dump to JSON and its validation again are taken to be inverse. Text methods treat ASCII as Python does and leave other
-- characters alone. JSON numbers are integers.
--
-- Fuel. `drain`, the worker's rounds, runs on fuel, with the theorem that one more than the allowed
-- attempts for each message is enough. `redis_reserve` retries a key that expired between two
-- commands, on fuel. The worker's loop on the Redis queue runs for the number of times that it finds
-- `stop` unset. Every other loop is structural.
--
-- Not modelled: logging, CORS, the engine and session of app/db.py, and the scripts other than the
-- worker, which print, start tools or call a running service.
pub mod Prelude
pub mod Errors
pub mod Exec
pub mod Json
pub mod Env
pub mod Schemas
pub mod Models
pub mod Migrations
pub mod Filters
pub mod Providers
pub mod Services
pub mod Settings
pub mod Ledger
pub mod Billing
pub mod Jobs
pub mod Privacy
pub mod Search
pub mod Queue
pub mod RateLimit
pub mod Idempotency
pub mod Replay
pub mod Zyla
pub mod Routes
pub mod Security
pub mod Accounts
pub mod Operations
pub mod Marketplace
pub mod Http
