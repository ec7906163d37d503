-- ===== src/Lib.antt =====
-- GuildNet host application: a model of its core and the theorems about it.
--
-- The program serves an HTTP API in front of Kubernetes clusters and a RethinkDB database. These
-- parts are modelled here.
--
-- * The database API. `Rbac` is internal/httpx/rbac.go: `Grant`, `Revoke`, `RoleFor`, `Allow` and
--   `MaskRow` are `grant`, `revoke`, `role_for`, `allow` and `mask_row`. `DbApi` and its children
--   are internal/httpx/db_handlers.go: `handleRows` is `handle_rows` (DbApi/Rows), the import and
--   export branches of `handleTables` are DbApi/Import and DbApi/Export, the rest of it is
--   DbApi/Tables, and `handleDatabases`, `handleDatabaseSubroutes` and `Register` are
--   DbApi/Routes. DbApi/Cluster is the delegation of internal/api/router.go, which builds an API
--   for each request. `DbManager` is the interface of internal/httpx/db_iface.go, a parameter of
--   every handler; `Wire` holds the decoders of encoding/json and encoding/csv, as parameters with
--   no laws. `Http` has requests, responses and bodies; `Model` is internal/model/db.go.
-- * The job runner. `Jobs` is internal/jobs/runner.go: `Submit`, `worker`, `runOne`, `Get`, `List`,
--   `SubscribeLogs`, `publish`, `WithStep`, `Fail`, `Cancel` and `IsCanceled` are `submit`, `work`,
--   `run_one`, `get`, `list`, `subscribe_logs`, `publish`, `with_step`, `fail_job`, `cancel` and
--   `is_canceled`. A handler is the list of its steps; what other goroutines do between them is a
--   step with any function on the runner. The store behind it is the interface `Persist`, which
--   Jobs/LocalPersist fills with internal/jobs/persist_localdb.go over the local database.
-- * The local database. `LocalDb` is internal/localdb/db.go: `Put`, `Get`, `Delete`, `List`,
--   `AppendLog` and `ReadLog` are `put_value`, `get_value`, `delete_value`, `list_values`,
--   `append_log` and `read_log`. The statements of SQL are the operations of `Sql`, with the laws of
--   `SqlLaws`. LocalDb/Open is its `Open` and `OpenManager` of internal/localdb/manager.go.
--   `Settings` and Settings/Values are internal/settings/settings.go, whose getters
--   and setters keep their names; `Codec` is encoding/json on maps.
-- * The database manager. `RethinkDb` is internal/db/db.go: `dbName`, `isTransientErr`,
--   `ClassifyError`, `retryTransient`, `ensureMetaTables`, `EnsureDatabase` and `QueryRows` have the
--   same names in this spelling. The terms of the driver are the operations of `Driver`, and what
--   unicode.ToLower does beyond ASCII is a parameter. The pages are followed on fuel; one query more
--   than there are rows is enough. RethinkDb/Data has the other methods, over the terms of
--   `DataDriver`, and RethinkDb/Manager puts them together as a `DbManager`.
-- * The cluster registry. `ClusterRegistry` is internal/cluster/registry.go: `NormalID`, `Get`,
--   `RDBPresent`, `Close` and `List` are `normal_id`, `get_instance`, `rdb_present`, `close` and
--   `list_statuses`. What an instance is built from is the interface `Builder`. `EnsureRDB` is
--   `ensure_rdb` of ClusterRegistry/Connect, over the interface `Dialler`.
-- * The orchestration. `Orchestration` is internal/orch/handlers.go, whose `HandlerFor` is
--   `handler_for`: the steps of a handler of `Jobs`, over the local database behind the runner.
--   `Headscale` is internal/headscale/manager.go and internal/audit/audit.go: `Create`, `Start`,
--   `Stop`, `Destroy` and `Append` are `create`, `start`, `stop`, `destroy` and `append_audit`.
-- * `Store` is internal/store/store.go, whose methods have the same names in this spelling, over the
--   structs of internal/model/types.go in Model/Servers.
-- * The proxy. `Proxy` is internal/proxy/allowlist.go: `NewAllowlist`, `Allowed` and `AllowedAddr`
--   are `new_allowlist`, `allowed` and `allowed_addr`. Of internal/proxy/reverse_proxy.go,
--   Proxy/Target is `ServeHTTP` up to the target, `serve_target`, and Proxy/Headers has
--   `rewriteLocation`, `relaxFrameAncestors` and `rewriteSetCookieForIframe`.
-- * The operator. `Operator` is the pod template of internal/operator/workspace_controller.go, over
--   the types of api/v1alpha1/types.go; Operator/Verify is the verification loop of `Reconcile`,
--   `verify_loop`, and Operator/Exposure its service type and the poll of `SetupWithManager`.
-- * The routes. `Deploy` is the part of internal/api/router.go that submits the jobs: `authOK` is
--   `auth_ok`, and the handlers of /api/jobs, /api/deploy/headscale and /api/deploy/clusters
--   (Deploy/Headscales) are `handle_jobs`, `handle_job`, `handle_headscales`,
--   `handle_headscale` and `handle_clusters`; the settings are `handle_settings` of
--   Deploy/SettingsRoutes.
-- * `Permission` is internal/permission/permission.go, with `sync` and `Allow` as `sync` and `allow`.
-- * `Changefeed` is `SubscribeTable` of internal/db/db.go and `handleChangefeed` of
--   internal/httpx/db_handlers.go, with a list of signals for what the handler's select receives.
-- * `Connector` is internal/ts/connector/connector.go: `New`, `Start`, `Stop`, `CloseServer` and
--   `Health` are `new`, `start`, `stop`, `close_server` and `health`.
-- * `Secrets` is internal/secrets/manager.go. `Clusters` is what internal/api/router.go does with the
--   kubeconfig of a cluster: `readClusterKubeconfig` is `read_kubeconfig`, the handler of
--   /api/deploy/clusters/{id} is `handle_cluster` of Clusters/Routes, and Clusters/ApiProxy has
--   `applyClusterAPIProxy` and `ensureProxyFallbackOnTimeout`.
-- * `Bootstrap` is /bootstrap and /api/settings/cluster/ of internal/api/router.go:
--   `handle_bootstrap`, and `handle_cluster_settings` of Bootstrap/ClusterSettings, over the host's
--   database and the registry.
-- * `RethinkDb` has in Discover `AutoDiscoverAddr` and in Connect the ways to connect to the database.
-- * `Published` is internal/localdb/published.go and the published services of
--   internal/api/router.go: `handle_published`, `publish`, the end of an accept loop as
--   `accept_step` with `unpublish` and then `forget_row`, and `restore_published_mappings` of
--   Published/Mappings.
-- * `Metrics` is internal/metrics/metrics.go, with `inc_op`, `inc_op_cluster` and `export` for its
--   functions; Metrics/Sums is about its counters.
--
-- Text is a list of code points (`Prelude/Strings`), a Go map an association list
-- (`Prelude/Maps`), a float64 its bit pattern, and a mutex makes a method one step. A handler
-- returns the new state and the response; a nil dereference is the body `aborted`. The export loop
-- runs on fuel, and one round more than the limit of rows is enough for it; so does the wait of
-- `start`, for which 151 polls are enough.
--
-- Not modelled: the other routes of the router, the order of the operator's calls of Kubernetes,
-- and the glue around Kubernetes, tsnet and HTTP; and the interleavings within one method, such as
-- two calls of `IncOp` at the same time.
pub mod Prelude
pub mod Json
pub mod Model
pub mod Rbac
pub mod Http
pub mod DbManager
pub mod Wire
pub mod Metrics
pub mod DbApi
pub mod Jobs
pub mod LocalDb
pub mod Settings
pub mod RethinkDb
pub mod Bootstrap
pub mod Published
pub mod Changefeed
pub mod ClusterRegistry
pub mod Clusters
pub mod Connector
pub mod Secrets
pub mod Headscale
pub mod Orchestration
pub mod Store
pub mod Proxy
pub mod Operator
pub mod Deploy
pub mod Permission
mod Tests
