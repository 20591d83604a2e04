-- ===== src/Lib.antt =====
-- FastAuth is an authentication library: users, accounts, sessions, refresh tokens, challenges, API
-- keys and rate limits, kept by a storage adapter and changed by the services that the HTTP routes
-- call. This development models its storage in memory and the services that guard accounts.
--
-- Domain: src/fastauth/domain/enums.py and domain/models.py, one record for each kind of row, and
--   the classes of src/fastauth/exceptions.py that the modelled code raises. A call that may raise
--   returns a `Result` with the state it leaves, so what was written before a raise stays written.
-- Dict: Python's `dict` with text keys, as its entries in insertion order.
-- Storage: src/fastauth/storage/verification.py, the decision that every backend takes on an attempt.
-- Memory: src/fastauth/storage/memory.py. `InMemoryAdapter` is the record `Memory` of its tables, and
--   each method is a function of the same name. The methods hold one lock from start to end, so each is
--   one step; `Memory.Ops` has the methods that change a table as steps that clients take in any order.
-- Security.Buckets, Security.RateLimit, Security.Lockout: src/fastauth/security/rate_limit.py and
--   security/lockout.py. The protocol `RateLimitStorage` is a record of operations with its contract
--   `IsBucketTable`; the limiter and the lockout tracker are clients of any storage that keeps it.
-- Security.RefreshTokens, Security.Sessions, Security.Policy: src/fastauth/security/refresh_tokens.py,
--   security/sessions.py and security/policy.py, over the in-memory adapter.
-- Security.Tracker, Security.Passwords, Security.Otp: the lockout tracker on the storage that the
--   options choose (Security.RateLimit.Shared), and security/passwords.py and security/otp.py.
-- Security.Jwks: the registry of signing keys of src/fastauth/security/jwt.py.
-- Runtime: src/fastauth/runtime/maintenance.py, and the world that a service runs on: the adapter, the
--   counts that a rate limit keeps in memory, the published events, and how many times the clock was
--   read and ids and secrets drawn.
-- Flows: src/fastauth/flows. `AuthContext` is the record of what runtime/context.py hands to a flow.
--   Flows.Credentials, Flows.SignIn, Flows.SignUp, Flows.Creation, Flows.ChangePassword and
--   Flows.PasswordReset are credentials.py, creation.py, change_password.py and password_reset.py;
--   Flows.Verification, Flows.ChangeEmail, Flows.EmailOtp, Flows.UserManagement, Flows.Sessions and
--   Flows.Refresh the files of those names; Flows.Mail has the challenges and callbacks that mails
--   carry, and Flows.Hooks the hooks around the writes of a user.
-- Web: the decision of the middleware of src/fastauth/web/csrf.py, and the checks of callback URLs in
--   web/callbacks.py.
-- Plugins: src/fastauth/plugins/api_key.py.
-- Tests: runs on concrete states.
--
-- A flow is a function of the context and of the world, composed of calls in the order of the source.
-- Each call reads or changes the world, and the chain stops at the first that raises; the world that
-- was reached then is kept.
--
-- The clock, the ids, the secrets, random digits, SHA-256, `str.lower`, the parsing of IP addresses
-- and of URLs, argon2, the generation and encryption of signing keys, the rendering of templates, the
-- sending of mails, the hooks of the application and its handlers are not code of this repository, and
-- are parameters. A `datetime` and a `timedelta` are numbers of microseconds, a rate-limit window of
-- milliseconds; times before the epoch do not occur. Loops are structural recursion on a list, or on
-- the configured number of rounds (`max_batches`) in the drain of the maintenance, so no fuel is
-- chosen.
--
-- Not modelled: `get_user` of flows/server_users.py, the signing and reading of JWT sessions, the plugins besides
-- the API keys and the flows of the email OTP, the MongoDB and PostgreSQL backends (queries to engines
-- that are not in this repository), routes, cookies and the headers of proxies, the options and their
-- validation by pydantic, the delivery of events to handlers, the events for observability, template
-- files and the command line. Races between two calls of the adapter are orders of steps; the services
-- and flows are modelled as running alone.
pub mod Prelude
pub mod Dict
pub mod Domain
pub mod Storage
pub mod Memory
pub mod Security
pub mod Web
pub mod Runtime
pub mod Flows
pub mod Plugins
pub mod Tests
