-- ===== src/Lib.antt =====
-- argo-watcher: a deployment is submitted to the server, which stores it as a task, writes its image
-- tag back to git where the application is managed, polls ArgoCD until the rollout has ended, and
-- records and announces the outcome. Replicas share a database: each task has a lease, an unattended
-- task is taken over by another replica, and a newer deployment of the same image supersedes the task.
-- A deployment lock, manual or scheduled, freezes deployments. The client submits a deployment from a
-- pipeline, polls it and exits with its outcome.
--
-- Parts, each in the folder named after it, with the files they are about:
--   Common    lists, texts, sorting, and Go's 64-bit integers.
--   Helpers   internal/helpers: Images (ImageName, ImagesContains, NormalizeImages), Duration.
--   Models    internal/models: Status (constants.go), Task (task.go), Application, Rollout and Report
--             (argo.go: the records, GetRolloutStatus, the failure reports), Gitops (gitops.go),
--             Managed (managed_resources.go).
--   State     internal/state: Supersede (state.go), Memory (in_memory_state.go), Postgres
--             (postgres_state.go and state_models/task_model.go), Repository (the interface
--             TaskRepository with the laws its clients rely on), Lease (the SQL of lease.go).
--   Argocd    internal/argocd: Argo (argo.go), Errors, Window, World and Poll (deployment_monitor.go,
--             resume.go), Updater (argo_status_updater.go), Guard (lease_guard.go), Batcher
--             (batcher.go), Overrides (the override file of git_writeback.go), BatchWrite
--             (git_writeback_batch.go), WriteBack (the rest of git_writeback.go, and git_updater.go).
--   Updater   internal/updater/updater.go: Merge (the parameters of an override file), Paths (where it
--             is), Commit (its write, commit and push), Cache (Clone and InvalidateCache).
--   Server    internal/lock and internal/server: Store (deploy_lock.go, deploy_lock_postgres.go),
--             Lockdown (lockdown.go, with the text of the schedules in Schedules), Handlers (addTask
--             and getState of handlers.go), Access (the guards and the other handlers of handlers.go,
--             handlers_lock.go and handlers_argocd.go), Reaper (task_reaper.go).
--   Auth      internal/auth: Auth (auth.go), Tokens (deployToken.go, jwt.go), Oidc (oidc.go) and Cache
--             (oidc_cache.go).
--   Client    internal/client: Credential (the task and the credential it is submitted with), Redirect
--             (guardRedirect), Requests (utility.go), Watch (waitForDeployment and Run).
--   Tests     examples at concrete inputs.
--
-- A definition has the name of its Go function in snake case. A method that mutates its receiver takes
-- the state and returns it. An error is `none`, `false` or a constructor; early returns are the
-- branches of one `if`. Argocd.Argo and Argocd.Updater work over any Repository; what a store has to
-- satisfy stands in RepositoryLaws, for the in-memory state and the table of Postgres alike. Which
-- statements on the table fail is given by Faults, a parameter.
-- Server.Lockdown works over any DeployLockStore, and both stores fulfil DeployLockLaws. A query is a
-- function on the rows of the table, atomic as in the database; where a function makes two, the second
-- finds the rows that are then there.
--
-- Outside the program: `retry.Do` of avast/retry-go is the parameter Retry, with RetryLaws for what the
-- package documents. `strconv.Quote` and the SHA-256 digest are fields of Config or parameters, as are
-- uuid.Parse and the input of a uuid by Postgres (Agree: what both read is one identifier), url.Parse,
-- the JSON decoder, the JWT library and the YAML library; of the last one only RoundTrip is assumed,
-- that it reads what it wrote, and of go-git UpToDate, that a fetch without news finds the tracking
-- reference at the branch's head. The clock, fresh ids, the answers of ArgoCD, of
-- git, of the OIDC provider and of other replicas are arguments: Env and Poll hold them in the order in
-- which the code asks. Calls of metrics and notifiers are the events of World; log lines are left out.
-- A text is compared as a list of its characters; a path is kept cleaned, as path/filepath does on Unix.
--
-- Integers and bounds: a duration is a 64-bit count of nanoseconds that wraps (Common.Int.int64); the
-- times of a task are whole seconds, other instants are natural numbers. `sort.Slice`, which does not
-- promise an order of equal elements, is a stable insertion sort; of `ORDER BY`, which does not either,
-- the order of equal rows is a parameter. The sum of an offset and a limit wraps; the panic of a slice
-- at a negative end is an empty slice, and the theorems on pages say which bounds keep clear of it. Loops are structural, and the poll
-- loop is bounded by the attempts that it is configured with, but for two: the retention deletes in
-- batches with a round for each row and one more as fuel, which is enough; and the client, whose loop
-- in waitForDeployment has no end of its own, polls on fuel, which is enough as soon as the server
-- settles. A lease's statements are atomic; the steps of Argocd.Guard interleave them with the sweeps
-- of every replica, and an instant is the same for all. The steps of Argocd.Batcher are the critical
-- sections of its mutex, in any order of the goroutines. The calls of Auth.Oidc are one after another;
-- an entry that the full cache drops is any one.
--
-- Not modelled: configuration and migrations, which libraries read; the router, the web sockets and
-- static files; the ArgoCD API's client, notifications and metrics, whose answers and calls are inputs
-- and events; the advisory lockers; the validation of the SSH key; and the wiring of the process.
pub mod Common
pub mod Helpers
pub mod Models
pub mod State
pub mod Argocd
pub mod Server
pub mod Auth
pub mod Client
pub mod Updater
pub mod Tests
