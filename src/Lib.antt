-- ===== src/Lib.antt =====
-- The buildkit operator: one BuildKit daemon per repository, found by key, scaled to zero when idle
-- and drained before it is rolled.
--
-- Parts
-- - Base: machine numbers, bytes and texts, lists, the clock. A text is a list of bytes, as in Go; an
--   `int32` or `int64` of the API is an integer, and a duration wraps at 64 bits where the code
--   multiplies or adds. An instant is a number of nanoseconds, and `time_sub` saturates as
--   `time.Time.Sub` does. The API keeps a time to the second: Provisioner.Kube.Grants and the roll's hold
--   say so where an interval is measured from one; Provisioner.Contract.Cluster keeps what was written.
-- - Api (api/v1alpha1): the records of a BuildProject; Api.Inflight is inflight.go, Api.Adaptive is
--   adaptive.go, Api.Defaults is defaults.go and Api.Derive is derive.go.
-- - Router (internal/router/router.go): the normal form of a repository, the project key and the
--   names built on it. Router.Urls treats the spellings of a repository, Router.Keys the keys.
-- - Controller (internal/controller/buildproject_controller.go): Controller.Reconcile is `Reconcile`,
--   which calls the rest: Controller.Elasticity has `desiredReplicas`, `effectiveIdle` and
--   `idleRecheckInterval`, Controller.Health `daemonFailure`, Controller.Guards `ensureService`,
--   `ensurePDB` and `reapFork`, Controller.Roll `holdRoll` and `ensureStatefulSet`,
--   Controller.Snapshots `maybeSnapshot` and `pruneSnapshots`, Controller.Fanout `reconcileFanout`,
--   Controller.Status what is written into the status, Controller.Requeue when the project is looked
--   at again. Controller.Autogrow and Controller.Inflight are autogrow.go.
-- - Companion (cmd/companion): the sample of the file system, whose differences and products of `uint64`
--   wrap, the readiness and the drain of the sidecar.
-- - Sweeper (internal/controller/pvc_sweeper.go): one sweep over orphaned cache volumes.
-- - Gateway (cmd/gateway/sni.go): the ClientHello parser and the bytes that it replays; Gateway.Backend
--   has `backendFor` and `handle` of cmd/gateway/main.go, which send a connection to its daemon.
-- - Identity (internal/identity/identity.go and jwt.go): `NewVerifier`, and in Identity.Tokens `Verify`, which keeps
--   what it has discovered from one token to the next.
-- - Policy: the repository allowlist of internal/identity/identity.go and the rules of
--   internal/projectdefaults/projectdefaults.go.
-- - Buildd (cmd/buildd/server.go and route.go): `identify`, `decodeReq`, `handleRoute`,
--   `handlePrewarm` (Buildd.Route) and `handleComplete`, which guard what the provisioner
--   does to the inflight set of Api.Inflight.
-- - Builder (internal/builder/statefulset.go): the StatefulSet, the Service and the budget of a daemon,
--   by its parts (Settings, Container, Render) over the objects of Builder.Objects.
-- - Provisioner.Kube (internal/provisioner/k8s/k8s.go): the changes of a project's status under
--   `retry.OnError`, whose attempts are a list of answers (Provisioner.Retry); Kube.Projects has
--   `Ensure`, `Ready`, `WaitReady`, `Endpoint` and `ProjectRepo`.
-- - Provisioner.Local (internal/provisioner/local/local.go): the projects in memory as a dictionary, what is
--   asked of the host as a log of calls; Local.Instances has `Ensure` and `Fanout`, Local.Lifecycle
--   `Reconcile`, Local.Waiting `WaitReady`. What other requests do between the snapshots of a pass is an
--   argument.
-- - Provisioner.Contract (internal/provisioner/provisioner.go): the record `Backend` of the operations that
--   concern builds, with their laws; Contract.Host and Contract.Cluster fill it for the single host and for
--   Kubernetes over an API that accepts each write at once, and Contract.Routed runs `handleRoute` on
--   any of them; Contract.Cluster.Forks has `Ensure` over the objects of Contract.Cluster.
-- - Controller.Effects has the API calls: each answer is an argument, so that a theorem holds for
--   every order in which others write, each write is an entry of a log, and an error ends the run. An
--   error is passed on without the text that the code wraps around it.
-- - Tests: inputs at which the theorems are applied.
--
-- Fuel: the loop that collapses slashes shortens the text on each turn, so it runs on as much fuel as
-- the text has bytes; the loops of the ClientHello parser move on by at least three bytes each turn,
-- so they run on one more than the bytes that they walk, and a loop that ran dry would show as an
-- error of its own. `WaitReady` runs on the rounds that its budget has and two more, for rounds that
-- are two seconds apart (one second on the single host), and so does `drain`, whose last sleep is shorter. All else is structural recursion.
--
-- Parameters: SHA-256 is an arbitrary function on bytes, floating-point numbers are a type with the
-- operations that the code uses, `path.Match` is a function, as are the decoding of base64 and JSON,
-- the host of a URL and the checks of go-oidc, and the attempts of `retry.RetryOnConflict` are a list
-- of answers. Texts are lowered and trimmed by ASCII, so a repository with other letters is outside
-- the normal-form theorems. What `builder.StatefulSet` renders is an argument of
-- `ensure_stateful_set`. `sort.Slice` leaves the order of equal creations open; here it is the order
-- of the list.
--
-- Not modelled: metrics, logging, HTTP and Kubernetes plumbing, generated code, the build client, the
-- commands that the host's operations run (incus, zfs, docker), the copying of bytes
-- between connections, and the reading of configuration from files and the environment.
pub mod Api
pub mod Base
pub mod Buildd
pub mod Builder
pub mod Companion
pub mod Controller
pub mod Gateway
pub mod Identity
pub mod Policy
pub mod Provisioner
pub mod Router
pub mod Sweeper
pub mod Tests
