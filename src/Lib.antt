-- ===== src/Lib.antt =====
-- TokHub: the rules that guard its gateway, its probes and its account connections.
--
-- TokHub is a Go server that lists channels of language models, probes them, and offers a gateway
-- to them, to which users may connect accounts of their own. Seven of its parts are modelled here.
--
-- * The risk control of official-client connections. Every request that the gateway sends through a
--   user's client is first reserved against a row of the database (ReserveAIClientRequest), and its
--   result recorded there (RecordAIClientResult); the owner pauses and resumes, and a check of the
--   identity confirms it. Risk.antt has the row and the reservation, Risk/Outcome.antt the results,
--   Risk/Table.antt and Risk/Pause.antt the transactions of internal/store/client_connectors.go that
--   read and write it, Risk/Rejection.antt the answers of internal/api/gateway_handlers.go.
--   A transaction is a function from the two tables to the new ones, `none` where it fails for want
--   of the row; a failure of the database itself is not modelled. Risk/Trace.antt has the
--   sequences of operations on one row.
-- * The probes. Probe/Steps.antt and Probe/Status.antt have the summary of a probe's steps and the
--   status of a channel (internal/prober/executor.go, runner.go and status.go), Probe/Schedule.antt
--   the scheduler that picks the next task (internal/events/probe_runtime.go). Requests over the
--   network, the queue and the SQL are left out.
-- * The provider policy, internal/connections/policy.go, in Policy.antt, with the question that the
--   server asks it (providerPolicyAllowsWithLab, internal/api/connection_handlers.go). Clock/Date.antt
--   reads the dates of the reviews.
-- * The gateway. Its failover, handleRealGatewayGeneration of internal/api/gateway_handlers.go, is in
--   Gateway.antt: the candidates of a request are tried in order until one answers. The calls of the
--   upstreams and their credentials are the operations of a record, each of which may answer anew at
--   every call. Gateway/Circuit.antt has the circuit breaker that leaves out a failed channel, and
--   Gateway/Admission.antt the admission of a request before (authenticateGatewayRequest), with the
--   update of gateway_keys in internal/store/gateway.go. Gateway/Route.antt orders the upstreams
--   by the gateway's policy (PlanGatewayRoute), and Gateway/Candidates.antt picks the candidates from
--   that plan (availableGatewayCandidates); it asks the provider policy and the circuit breaker.
-- * The client connectors. A user pairs a program on a machine of their own, which polls for tasks,
--   claims them under a lease and completes them. Client.antt has the tables of connectors, tasks and
--   sessions (db/migrations/0052_official_client_connector.sql), Client/Connectors.antt,
--   Client/Tasks.antt and Client/Sessions.antt the statements and transactions of
--   internal/store/client_connectors.go on them, and Client/Steps.antt their histories, a step relation
--   on the tables. Client/Signing.antt has the signatures of requests
--   (internal/clientconnector/signing.go), and Client/Requests.antt their authentication
--   (signedAIClientConnector of internal/api/client_connector_handlers.go), with the nonces that Redis
--   keeps against replays (internal/gateway/cache.go). The hash of tokens is an argument; the operations
--   of base64, SHA-256 and Ed25519, and those of Redis, are records of operations.
-- * The keyring of the credentials of account connections, internal/crypto/keyring.go, in Crypto.antt:
--   a credential is sealed with the active key for its owner and provider, and opened with the key
--   that its envelope names. The ciphers are a record of operations.
-- * The refresh of OAuth credentials, internal/events/credential_refresh_runtime.go, in Refresh.antt: the
--   transactions of internal/store/connection_auth.go that store a refreshed secret or count a failure
--   against the version that was read, and the rate of each provider. Refresh/Versions.antt has the
--   histories of these transactions.
--
-- Instants and durations are natural numbers of nanoseconds from Go's zero time (Clock.antt). Counters
-- are natural numbers without a bound: each is at most a limit of the code or counts single events.
-- Texts are sequences of code points, with the functions of Go's strings package in
-- Prelude/Text.antt. Every loop is a recursion on a list or on the number of its rounds, and needs no
-- fuel, but for the digits of an int64, of which 19 are enough. Tests/ has runs on concrete inputs.
--
-- Not modelled: the translation of provider protocols, the exchanges with OAuth providers, mail, the
-- administration and the pages, which are mostly I/O and SQL; the slots and payloads that Redis
-- keeps; the browser connector; the drivers of the official clients.
pub mod Prelude
pub mod Clock
pub mod Risk
pub mod Probe
pub mod Policy
pub mod Gateway
pub mod Client
pub mod Crypto
pub mod Refresh
mod Tests
