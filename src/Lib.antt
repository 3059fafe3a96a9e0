-- ===== src/Lib.antt =====
-- Kubby is a web console for Kubernetes clusters: people sign in, are given a role, and read and
-- change objects of registered clusters over an API. These files model the parts of its server
-- that decide who may do what, and prove what those decisions guarantee.
--
-- How the parts interact. The repositories (server/internal/store) run statements against
-- PostgreSQL. The service (server/internal/auth/service.go) signs people in, keeps sessions and
-- second factors, and uses the repositories, the password policy, the recovery codes and the
-- envelope encryption. The guards of the API (server/internal/httpapi/auth_middleware.go) ask the
-- service for the session behind a cookie and the roles (server/internal/rbac) for permissions. The
-- terminal (server/internal/kubectlsh) splits a typed line and passes each command through a gate
-- before it starts a process. Clusters are registered by pasting a kubeconfig, which
-- server/internal/cluster vets and the handlers (server/internal/httpapi/cluster_handlers.go) store
-- sealed; grants say who may reach which cluster, and a write to one passes the gates of
-- server/internal/cluster/write_guard.go. What is recorded of all this is offered to the audit shipper
-- (server/internal/audit/shipper.go), which copies it to another system. The settings
-- (server/internal/settings) say which one; saving them swaps the shipper that runs
-- (server/internal/audit/manager.go).
--
-- Which file models what. A child module beside a file holds proofs about it.
--   Prelude, Prelude/*    names and lemmas that all files share
--   Rbac                  server/internal/rbac/role.go
--   Store/Models          server/internal/store/models.go (User, Session and their predicates)
--   Store/Db              statements, transactions and tables, under the repositories
--   Store/Flow            calls that may stop early, under the service and handlers of clusters
--   Store/Registry        server/internal/store/clusters.go, its rows
--   Store/Clusters        server/internal/store/clusters.go, ClusterRepo: registering, grants
--   Store/Clusters/Settings  the same: what changes a cluster and its secrets
--   Store/Audit           server/internal/store/audit.go, AuditRepo
--   Store/Settings        server/internal/store/settings.go, SettingsRepo
--   Store/Users           server/internal/store/users.go, UserRepo
--   Store/Sessions        server/internal/store/sessions.go, SessionRepo
--   Store/Codes           server/internal/store/recovery_codes.go, RecoveryCodeRepo
--   Crypto                server/internal/crypto/envelope.go
--   Auth/Policy           server/internal/auth/policy.go
--   Auth/Totp             server/internal/auth/totp.go
--   Auth/Service/*        server/internal/auth/service.go
--   HttpApi/UserAdmin     server/internal/httpapi/user_handlers.go
--   HttpApi/Guards        server/internal/httpapi/auth_middleware.go, and their order in router.go
--   HttpApi/RealIp        server/internal/httpapi/realip.go
--   HttpApi/SignIn        server/internal/httpapi/auth_handlers.go
--   HttpApi/RateLimit     server/internal/httpapi/ratelimit.go
--   HttpApi/Clusters      server/internal/httpapi/cluster_handlers.go: resolve, lists, grants
--   HttpApi/Clusters/Changes  the same: what registers and changes a cluster
--   HttpApi/Resources     server/internal/httpapi/resource_handlers.go: the cluster behind a request
--   HttpApi/Writes        server/internal/httpapi/write_handlers.go: the gate before every write
--   HttpApi/Writes/Manifests  the same: applying and deleting objects
--   HttpApi/Writes/Operations  server/internal/httpapi/operation_handlers.go
--   HttpApi/Writes/Requests  server/internal/httpapi/router.go, the routes that write to a cluster
--   HttpApi/Forwards      server/internal/httpapi/forward_handlers.go, the tunnels and their owners
--   HttpApi/Options       server/internal/httpapi/settings_handlers.go
--   Config, Config/Load   server/internal/config/config.go
--   Settings/Types        server/internal/settings/settings.go, the groups and their defaults
--   Settings/Service      server/internal/settings/settings.go, and the methods of logs.go
--   Settings/Logs         server/internal/settings/logs.go, the rules as they are edited
--   Logsearch/Rules       server/internal/logsearch/rules.go and fields.go
--   Audit/Sinks           server/internal/audit/sink_http.go and sink_kinds.go
--   Audit/Manager         server/internal/audit/manager.go
--   Audit/Shipper         server/internal/audit/shipper.go
--   Cluster/Types         server/internal/cluster/registry.go, the kinds that are built in
--   Cluster/WriteGuard    server/internal/cluster/write_guard.go
--   Cluster/Ssrf          server/internal/cluster/ssrf.go
--   Cluster/Kubeconfig    server/internal/cluster/kubeconfig.go
--   Cluster/Service       server/internal/cluster/service.go, and the secrets of metrics_source.go
--                         and logs_source.go
--   Cluster/Diff          server/internal/cluster/diff.go, the diff of two texts
--   Cluster/Drain         server/internal/cluster/drain.go
--   Cluster/Forward       server/internal/cluster/forward_listen.go, ranges and the search for a port
--   K8s/Containers        server/internal/k8s/containers.go
--   K8s/Restarts          server/internal/k8s/restarts.go
--   K8s/Trouble           server/internal/k8s/trouble.go, pods
--   K8s/Trouble/Workloads  the same, workloads
--   Terminal/Split        server/internal/kubectlsh/split.go
--   Terminal/Gate         server/internal/kubectlsh/session.go, allow and its tables
--   Terminal/Session      server/internal/kubectlsh/session.go, the line editor and the dispatch
--   Tests/*               the theorems at concrete inputs
--
-- How the state and the operations correspond. A Go method keeps its name in snake case. The
-- database is a record of tables, each a list of rows, with a list of faults: each statement
-- meets the next fault and fails with a driver error where that is set, so every error path of a
-- caller can be reached. A repository method is a function from the database to a result and a
-- database; a service method and a handler are chains of these which stop at the first error.
-- Loading the configuration alone goes on at an error, and collects them. The tables of a failed
-- transaction are those from before it. A handler that writes to a cluster runs over the database
-- together with the reviews that it asked clusters for, the calls that it sent to change
-- something, each with the objects that it asks to change, and the audit entries that it made, so
-- that a theorem can say which calls were sent and what was recorded. The terminal is a state that
-- each key changes. Time is a number of nanoseconds, and each call is given what it draws from
-- clocks and random sources.
--
-- Bounds and fuel. Every loop is structural recursion on the list that it walks, or, for the
-- delivery of a batch, on the attempts that are left; the search for a free port alone runs on
-- fuel, as many steps as the range has ports. Bytes wrap where the code computes with bytes, the
-- counters of the shipper wrap at 2^64 and the counts of restarts at 2^32, the connections of the
-- database are cut to 32 bits, and the key version is cut to sixteen bits where the code cuts it;
-- other counters and times are natural numbers without a bound.
--
-- What is not modelled. AES-GCM, argon2, SHA-256, the TOTP check, PostgreSQL's lower(), the
-- tables of package unicode, the parsing of addresses, URLs, kubeconfigs, manifests and regular
-- expressions, encoding/json, the resolving of names, the token bucket of a rate limiter and the
-- answers of the Kubernetes API are parameters; the theorems name the laws that they use.
-- Concurrent requests are left out: each operation runs alone on the database, a statement or a
-- transaction at a time; the audit shipper alone is modelled with its callers and its worker side
-- by side, and the buckets of the rate limiter in the order in which requests take their lock.
-- Left out as well are the requests that the sinks of the audit trail send, the Kubernetes
-- clients, metrics, the queries of the log search, backup and the web frontend, which mostly call
-- libraries.
pub mod Prelude
pub mod Rbac
pub mod Store
pub mod Logsearch
pub mod Settings
pub mod Config
pub mod Crypto
pub mod Auth
pub mod Audit
pub mod Cluster
pub mod K8s
pub mod HttpApi
pub mod Terminal
pub mod Tests
