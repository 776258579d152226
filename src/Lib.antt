-- ===== src/Lib.antt =====
-- The account service of AIOps_AWS: registration, login, refresh tokens, verification of addresses,
-- password resets, profiles, sessions and the administration of users; its EC2 service; its
-- collection of metrics and logs, and its detection of anomalies: a model of the Python code, and
-- theorems about it.
--
-- The parts, and the file that models each:
-- - Prelude: tests, lists, dictionaries, sorting and the text functions that the code uses;
--   Outcome: a Python call that returns or raises, on a state, with Outcome.Preserves for
--   invariants of such calls.
-- - RateLimiter: backend/services/rate_limiter.py, `assert_not_rate_limited` with its table.
-- - Models: backend/models/auth.py, a record for each table.
-- - Database: the SQLAlchemy session of backend/db/session.py, which has autoflush off. A row has
--   what the database stores and the object of the session; queries test what is stored and
--   return objects; `flush` stores the objects.
-- - Security: backend/services/security.py and backend/config/settings.py. The clock, random
--   sources, passlib, hashlib, PyJWT and uuid are the parameter `Env`; the record `Laws` says what
--   their documentation promises. The session counts how often it has asked for a time or for
--   random bits, and the n-th call gets the n-th answer.
-- - Auth: backend/services/auth_service.py; Auth.Accounts has `register_user` and
--   `authenticate_user`, Auth.Sessions has `_issue_tokens`, `login`, `refresh_tokens` and `logout`,
--   Auth.Tokens has the requests and confirmations by mail.
-- - Users: backend/services/user_service.py; Users has `_revoke_refresh_tokens`, Users.Profile,
--   Users.Sessions, Users.Admin and Users.Listing have the operations.
-- - Api: backend/api/auth.py, dependencies.py, user_profile.py and users.py. A request works on a
--   session of its own, `commit` stores it, and a request that raises leaves what was not
--   committed behind; the rate limiter's table outlives requests. Api.Endpoints joins the
--   endpoints into one server that answers a list of calls.
-- - Schemas: backend/schemas/auth.py and users.py, the bodies of requests with the bounds of their
--   fields; what pydantic makes of an address, a number or a flag is the parameter `Pydantic`.
--   Api.Requests has the requests as they arrive, from the check of who signs in to the answer.
-- - backend/services/email_service.py is Api.send_email. A mail is printed, or handed over, or its
--   delivery raises, which `Env` says by the count of steps.
-- - Accounts follows an account through the services: what holds of each one at all times, and
--   Accounts.Distinct what holds of them together; Accounts.UsedOnce follows a token
--   from a mail, and Accounts.Closed a refresh token.
-- - Ec2: backend/aws/ec2_service.py; Ec2 has the data and `_fetch_instances`, Ec2.States the filter
--   on states, Ec2.Instances the operations, Api.Instances the endpoints of
--   backend/api/instances.py. The boto3 client of a region is the parameter `Client`.
-- - CloudWatch: backend/aws/cloudwatch_collector.py. The globals are the record `Collector`;
--   CloudWatch.Caches has the caches and the discovery behind them, CloudWatch.Queries the queries
--   of a batch, CloudWatch.Results `_parse_results`, CloudWatch.Fetch the two fetches. What AWS and
--   the clock answer is the parameter `Aws`, by the number of the call.
-- - Ingestion: `summarize_logs` of backend/pipelines/ingestion_pipeline.py.
-- - Monitoring: the data of backend/schemas/, the folders of ./data and the process's state as the
--   record `World`. Monitoring.CollectorService, LogCollector, Storage and S3Storage have the
--   functions of backend/aws/collector_service.py, log_collector.py, storage.py and s3_storage.py,
--   Monitoring.Pipelines `run_ingestion_pipeline`, Monitoring.Inference
--   backend/pipelines/inference_pipeline.py, and Monitoring.Routes the endpoints of
--   backend/api/routes.py and health.py, which join them to the account service. CloudWatch Logs,
--   S3 and the texts of JSON are the parameter `Services`, the operations on floats the parameter
--   `Floats`.
-- - Migrations: alembic/versions/ and the tables that backend/models/auth.py declares. A migration is
--   the list of the operations that its functions call; Migrations.Database has what their
--   documentation says of them, and the parameter `Engine` runs them.
-- - Tests, RateLimiter.Tests: the theorems at concrete inputs.
--
-- Conventions. Times are microseconds and UUIDs the numbers they stand for. A function that the
-- code writes as one with several early returns is a chain of functions, one after each query.
-- The defaults of columns are computed where the object is made. All recursion is on lists, so no
-- fuel is needed. Requests are served one after the other.
--
-- Not modelled: ids in paths that are no UUIDs, the text that is printed and
-- logged, the lengths of columns,
-- the database's constraints, errors of the local disk, naive and aware times, and `str.lower`
-- outside ASCII; backend/ml, backend/agents and the other empty stubs, the wiring in
-- backend/main.py, and alembic/env.py.
mod Prelude
pub mod Outcome
pub mod RateLimiter
pub mod Models
pub mod Monitoring
pub mod Database
pub mod Security
pub mod Auth
pub mod Users
pub mod Api
mod Tests
pub mod Ec2
pub mod Ingestion
pub mod CloudWatch
pub mod Migrations
pub mod Schemas
pub mod Accounts
