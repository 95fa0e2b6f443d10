-- ===== src/Lib.antt =====
-- The authorisation, access, connection and SQL scanning parts of pgEdge's Postgres MCP server,
-- with the properties that make them correct.
--
-- The server answers MCP requests that bear a credential. internal/auth decides whose it is: an API
-- token (auth.go), the session token of a user (users.go) or an OAuth access token, tried in this
-- order by validator.go, which middleware.go asks for every request that is not exempt;
-- client_ip.go says which address a request comes from, access.go says which databases the caller
-- may use, and rate_limiter.go holds off an address after failed attempts. internal/oauth is the
-- OAuth 2.0 server: store.go keeps clients, codes, device codes and tokens, token.go and device.go
-- trade codes and refresh tokens for tokens, revoke.go and server.go revoke and validate them;
-- authorize.go, register.go and device.go answer the browser and the clients that ask for codes,
-- with authenticator.go between them and the user store. A user that is disabled, deleted or locked
-- out is reported by users.go to a hook, which main sets to the OAuth server's RevokeSubject; a
-- token that is revoked is reported by store.go to another, which main sets to RemoveClients of the
-- client manager, in client_manager.go of internal/database, which holds the connections of each
-- token. internal/sqltext strips comments and literals from a statement, and readonly_guard.go of
-- internal/tools refuses what is left if it would leave a read-only connection; query_classify.go
-- of internal/chat tells by it whether the client asks before it runs a statement. format.go of
-- internal/tsv writes results.
--
-- Files:
--   Prelude          Boolean tests, list functions, shared names
--   GoMap            Go's maps: m[k], delete, len and the loops that delete, with their laws
--   Auth/RateLimiter internal/auth/rate_limiter.go (IsAllowed is is_allowed, and so on)
--   Auth/Users       internal/auth/users.go, with AuthenticateUser in Authenticate and Reload in
--                    Reload; Oauth/Server/Accounts has main's hook on it
--   Auth/Tokens      internal/auth/auth.go
--   Auth/Access      internal/auth/access.go
--   Auth/Validator   internal/auth/validator.go
--   Auth/Middleware  internal/auth/middleware.go, and ParseBearer of validator.go
--   Auth/ClientIp    internal/auth/client_ip.go
--   Database         internal/database/client_manager.go, with UpdateDatabaseConfigs in
--                    ClientManager/Reload, and the settings of a database of
--                    internal/config/config.go in Settings
--   Oauth/Types      the records of internal/oauth/store.go
--   Oauth/Store      internal/oauth/store.go: Clients, Codes, Devices, Tokens and Sweep hold the methods,
--                    Ops the steps that goroutines interleave, the other modules the proofs
--   Oauth/Pkce       internal/oauth/pkce.go
--   Oauth/Server     internal/oauth/token.go, device.go (handleDeviceCodeGrant), revoke.go, server.go:
--                    Issue is issueTokens, CodeGrant, RefreshGrant and DeviceGrant the three grants,
--                    Endpoint handleToken and handleRevoke; Redirect, Csrf and SignIn are
--                    redirect.go, csrf.go and authenticator.go, Authorize, Register and Device
--                    the handlers of authorize.go, register.go and device.go, with handleDeviceVerify
--                    in Device/Verify and the user codes in UserCode
--   Sqltext          internal/sqltext/sqltext.go
--   Tools            internal/tools/readonly_guard.go (validateReadOnlyQuery)
--   Chat             internal/chat/query_classify.go
--   Tsv              internal/tsv/format.go, with formatNumeric in Numbers and formatInterval in
--                    Intervals
--   Tests            concrete states and requests
--
-- State. A Go map is the association list of its entries in the order in which a `range` loop
-- visits them; a statement about every list is one about every order. A method under a mutex is one
-- step from a state to the next, so several goroutines are a sequence of steps. A call of the
-- client manager that opens a connection takes two locks: what it does under the second one is a
-- step of its own as well, so that other steps may come between. A method that returns several
-- values returns a tuple, the new state first. An error is a value of a data type or `none`, and a
-- panic is `none` where the source can panic.
--
-- Numbers. A time is the number of nanoseconds since Go's zero time, and a duration is a number of
-- nanoseconds; a comparison with a difference of times is written with a sum. The configured maxima
-- are not negative. A byte is its code. The exponent of a numeric is above the least 32-bit
-- integer.
--
-- Outside. SHA-256, HMAC, base64, bcrypt, the parsing of URLs and addresses, the tables of Unicode,
-- the printing of numbers and times and the matching of regular expressions are functions that the
-- definitions take; readings of the clock, random draws,
-- the contents of the user file and the result of hashing a password are arguments of the call that
-- asks for them. Logging is left out.
--
-- Loops. Every loop is structural recursion on its list, but for the one of Strip, which takes a
-- number of turns; each turn passes over a byte at least, so the length of the statement is enough;
-- and for the padding of a numeric, which takes one turn more than the places.
--
-- Not modelled: the HTML of the pages, files and their watchers, the pools of connections, the tools
-- that send SQL to PostgreSQL, the configuration and the commands, the transport of MCP, the terminal
-- of the chat client, the conversation compactor, the search and the web client: input and output,
-- wiring, or text processing on floating-point scores.
pub mod Prelude
pub mod GoMap
pub mod Database
pub mod Auth
pub mod Oauth
pub mod Sqltext
pub mod Tools
pub mod Chat
pub mod Tsv
pub mod Tests
