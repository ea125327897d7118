-- ===== src/Lib.antt =====
-- Orion Belt: the decisions of the access gateway.
--
-- Orion Belt is a gateway for SSH, tunnels and Kubernetes. Users hold grants on machines, ask for
-- temporary ones, and every access is checked against them. This library models the parts that
-- decide: who may do what, for how long, and what is done when a component is stopped.
--
-- World.antt is the state behind a gateway: the tables of pkg/database/postgres.go and an
-- environment. Each read of the clock, each fresh id and each SQL statement is one numbered step,
-- and the environment answers it by its number: the time, the id, or a failure. A call is a function
-- from a world to a result and a world, so that a theorem for every environment is one for every
-- schedule of failures and every behaviour of the clock. A call runs from its start to its end with
-- no other call of the gateway between its statements.
--
-- The parts, and the code each is about:
--   Apperr      pkg/apperr/apperr.go: the kinds of error, their HTTP status and message
--   Access      pkg/common/access.go: the access types and the tunnel ports
--   Types       pkg/common/types.go: users, grants, requests, history; Types/Roles the roles
--   World       the state and the monad that the calls of the other parts are written in
--   Store       pkg/database/postgres.go: the statements on users, grants and requests, Listing the
--               lists of rows, Tokens API keys and HTTP sessions
--   Auth        pkg/auth/auth.go: Check the permission checks, Grant the grants, Request the access
--               requests; each calls the operations of Store as the code does. Explain is
--               pkg/auth/explain.go, Effective pkg/auth/effective.go, Mfa the backup codes of
--               pkg/auth/mfa.go, Jwt pkg/auth/jwt.go, GatewayUser pkg/common/sshuser.go
--   Risk        pkg/common/risk.go and risk_policy.go: signals, validation, evaluation
--   Notify      pkg/common/notification_policy.go and notification_prefs.go
--   Challenge   pkg/api/challenge.go: login challenges
--   Kube        pkg/kube/scope.go and binding.go; Reconcile a round of pkg/server/kube.go, Client
--               pkg/kube/client.go, Agent pkg/agent/kube.go
--   Plugin      pkg/plugin/plugin.go: Config the masking of secrets and their return, Manager the
--               plugin manager; Settings pkg/api/plugins.go and the start in pkg/server/server.go
--   Api         pkg/api/api.go, risk.go, kube.go: Review the approval and rejection of an access
--               request, Submit its submission and its routing by the risk policy, Middleware
--               the callers of pkg/api/middelware.go, Bulk the bulk revocation of
--               pkg/api/permissions_bulk.go, Grants the direct and the bulk grants, Explain the
--               questions of pkg/api/explain.go
--   Live        internal/livesessions/livesessions.go, and the work that an agent drains in
--               pkg/agent/manage.go; Conn the slots and cached grants of a connection in
--               pkg/server/resilience.go, Relay the kubectl relay of pkg/server/kube.go, Hub the
--               watchers of pkg/recording/hub.go
--   Anomaly     pkg/anomaly/anomaly.go: flags for unusual sessions
--   Prelude     shared helpers: lists, Boolean tests, integers, decimal numbers, texts
--   Tests       runs at concrete inputs
--
-- Functions keep their names in snake case: CheckPermissionWithRemoteUser is
-- check_permission_with_remote_user. A time is a number of nanoseconds, a pointer an Option, an int
-- whose sign matters an integer, a map a list of entries in the order in which an iteration meets
-- them. Where the code holds a lock, the call is one step. Loops are structural, except the one that
-- writes hours as ranges, which runs on as much fuel as there are hours. A goroutine that a handler
-- does not wait for is listed in the world, and run_background is what it does later.
--
-- Code outside the repository is a parameter: the address parsing and quoting of Go's libraries
-- (Net), the case mapping (CaseMap), base64 and HMAC (Codec), SHA-256 in the names of bindings, the
-- SSH key parser, the hashes and codes of logins (Codes), the encodings of tokens (JwtCodec), and the
-- external authorizer, which may answer anything or fail at each call. The database that the detector
-- of unusual sessions calls is a record of its operations (AnomalyStore).
-- The answers of GetRiskPolicy are a parameter of the handlers (Host), and what a handler tells to
-- notifiers, plugins and the Kubernetes reconciler is a list of notices. What the code of a plugin
-- answers is a parameter (PluginCode); a hook call ends by an answer, a panic, the timeout or the end
-- of its context. A configuration is decoded JSON, its texts lists of bytes. A round with a cluster
-- takes an agent that answers anything (KubeAgent), and IsWorking says what one does that carries out
-- what it is asked; Kube/Client/Works is about the agent's own client over a Kubernetes API server
-- with the documented behaviour (IsKubernetes). What kubectl traffic does to a cluster is a parameter
-- of the agent (relay). carried_out in Kube/Converge is how a cluster looks
-- after a plan in which no call fails. Times in objects are texts of RFC 3339 (TimeText).
--
-- Not modelled: SSH and HTTP transport, the files of recordings, certificates, passwords, the
-- code of the bundled plugins, notifiers, metrics, command line tools, the web console and the
-- migrations, which are input and output or calls of cryptographic libraries; and, so far, the other
-- API handlers and the bytes of the kubectl proxy. A query that fails while its rows are read is
-- modelled as one that fails as a whole.
-- Names of Kubernetes objects and permission ids are ASCII, so that a byte is a character.
mod Prelude
pub mod Apperr
pub mod Access
pub mod Types
pub mod World
pub mod Store
pub mod Auth
pub mod Risk
pub mod Notify
pub mod Challenge
pub mod Kube
pub mod Live
pub mod Plugin
pub mod Anomaly
pub mod Api
pub mod Tests
