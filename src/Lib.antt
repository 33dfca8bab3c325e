-- ===== src/Lib.antt =====
-- env-forge: provisioning of cloud environments by a saga of eight steps.
--
-- A client posts to forge-api (internal/apiserver/server.go), which stores an Environment
-- (internal/environment) and starts a goroutine. The goroutine asks saga-conductor, through
-- internal/conductor/client.go, to create and to start a saga (cmd/forge-api/main.go). saga-conductor
-- then sends the saga's steps to forge-worker (internal/server/server.go), forward, and backward when
-- one fails. For each request the worker reads the environment from forge-api over HTTP
-- (remoteStateClient of cmd/forge-worker/main.go), runs the step (internal/steps), and the step saves
-- the environment over HTTP again.
--
-- The files:
--   Prelude          shared names, Boolean tests, and strings as sequences of bytes
--   Go               errors with wrapping, panics, `%q`, `%d`, strings.Join, filepath.Join
--   Environment      internal/environment/types.go: Environment and its statuses
--   Environment/Json its `json:"..."` tags, json.Marshal and json.Unmarshal on JSON values
--   Environment/Store  internal/environment/store.go: Put, Get, Delete, List over a bbolt bucket, and
--                    the errors of Open and OpenReadOnly
--   Cloud            the calls to AWS, svid-exchange, the file system and the database
--   Action           StateWriter and StateClient, and code that changes *Environment, the store and the
--                    services and may fail: Rules, Post and Follows hold the rules to reason about it
--   Steps            internal/steps: one file per step, All for buildSteps of cmd/forge-worker/main.go
--   Admin            internal/adminclient/client.go, over svid-exchange's PolicyAdmin
--   Worker           internal/server/server.go: New's step routes, handle
--   Worker/Proxy     its admin routes: handleListPolicies, handleReloadPolicies, handleRevokeToken,
--                    handleListRevokedTokens
--   Remote           remoteStateClient of cmd/forge-worker/main.go: Get, Put, addAuth
--   Conductor        internal/conductor/client.go: CreateEnvSaga, StartEnvSaga, GetSaga, ListSagas,
--                    AbortSaga, buildStepDefs, and the error of New
--   Api              internal/apiserver/server.go: handleReady, handleCreateEnv, handleListEnvs,
--                    handleGetEnv, findByPrefix
--   Api/Internal     authMiddleware, handleInternalGetEnv, handleInternalPutEnv
--   Api/Provision    the goroutine of handleCreateEnv, conductorProvisioner.Provision
--   Api/Sagas        handleAbortEnv, handleGetEnvSaga, handleListSagas
--   Api/Routes       New, the table of its routes
--   Api/Lifecycle    ListenAndServe, with the requests and goroutines that it waits for or not
--   System           forge-api as a whole, while it serves: a step relation on its store, its provision
--                    goroutines and the requests to workers. Moves and Reached are on every order of
--                    steps, Ready and RolledBack follow one creation from its request to its end, Requests,
--                    Served and Handled are on the requests to workers
--   Cli              cmd/forge/main.go: doGet, doPost, and what a command is. Table for table, Cells for
--                    shortenSPIFFE and the errors of steps, Envs, Sagas and Admin for the commands, Main
--                    for their dispatch
--   Metrics          internal/metrics/metrics.go: statusRecorder, InstrumentHandler
--   Start            run of cmd/forge-api/main.go and of cmd/forge-worker/main.go, buildStateClient,
--                    LoadClients of internal/aws/session.go
--   Tests            a bucket in memory, and the theorems at concrete inputs
--
-- State and effects. An action takes a Run, that is the environment behind the pointer, the state of
-- the store and the list of calls made, and gives a Result and a Run: what was done before a failure
-- stays done. A Result is a value, an error, a panic, or `hung`. A StateClient is a record of functions
-- on a state of its own; IsStateClient is what steps and handlers rely on, for the store itself and for
-- the HTTP client alike. IsBucket is what bbolt documents of a bucket.
--
-- Concurrency. A handler is a function of the store. Where it reads and then writes, as a provision
-- goroutine and a request to a worker do, System splits it at each transaction of the store, and lets
-- every other step come in between. A request to a worker is there a put of any environment with the
-- origin of one that was read before: its id, owner, time of creation and flags. System/Handled runs
-- the worker's own code against forge-api's internal routes, with any course of other steps before each
-- transaction and a network that may lose a request or its reply; Worker/Recorded looks at its puts.
--
-- What stands for code that is not in the repository is a parameter. An Oracle answers each call to a
-- service, from the calls made before: it is any behaviour of AWS, svid-exchange, os, crypto/rand and
-- database/sql. A Bucket is bbolt, TimeText the text of time.Time, a Verifier svid-exchange's
-- middleware, a Stub saga-conductor's client, a Transport the network. For the command line client a Net
-- is net/http, a Reader encoding/json on the bodies of replies, and a Printer package time and
-- text/tabwriter. A request's body stands for what decoding it gives. The text of encoding/json's errors is left out.
--
-- Bounds. Strings, lists and times have no limit. MaxTtl, the expiry of a token and the numbers that the
-- command line client prints are signed integers without a width; the code compares and prints them and
-- never computes with them. Two loops need not end. That of deleteAllVersions, over the pages of S3's
-- paginator: the model follows `fuel` pages, any number, and is `hung` if there are more; where S3 lists
-- finitely many pages, more fuel than there are pages is enough. That of forge create, over its polls:
-- as soon as some poll would end it, every greater bound on the rounds is enough. None of the theorems
-- takes a run that is hung for one that succeeded.
--
-- Not modelled: the registering of metrics and the page that serves them, the parsing of command lines,
-- ListenAndServe of forge-worker, the handlers for liveness and metrics, sleeps, log lines, the closing of
-- bodies, files and connections, the refreshing of keys, and contexts with their cancellation but for
-- the two places where a loop waits and for ListenAndServe of forge-api.
pub mod Prelude
pub mod Go
pub mod Environment
pub mod Cloud
pub mod Action
pub mod Steps
pub mod Admin
pub mod Worker
pub mod Remote
pub mod Conductor
pub mod Cli
pub mod Api
pub mod Metrics
pub mod Start
pub mod System
pub mod Tests
