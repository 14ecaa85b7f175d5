-- ===== src/Server/Access.antt =====
-- internal/server/handlers.go, handlers_lock.go and handlers_argocd.go: who may read, who may lock, and
-- what the probes and the status of a task answer. A header that a request lacks is the empty text.
pub mod Guarded
use argo_watcher.Common.{
  ℕ, String, Bool, true, false, not, ◌&&◌, ◌||◌, List, Option, none, some, str_eq, any,
  if◌then◌else◌,
}
use argo_watcher.Models.Task.{Task, unknown_app}
use argo_watcher.State.Postgres.{Lookup, found, task_not_found, retrieval_error}
use argo_watcher.Argocd.Argo.{reason_none}
use argo_watcher.Auth.{
  AuthError, Answer, AuthStrategy, Strategies, validate, validate_strategy, authenticate_request,
}
use argo_watcher.Server.Store.{DeployLockStore}
use argo_watcher.Server.Lockdown.{Lockdown, Calendar, is_locked, set_lock, release_lock}

abbrev pub oidc_header : String
oidc_header = "Oidc-Authorization"

abbrev pub legacy_keycloak_header : String
legacy_keycloak_header = "Keycloak-Authorization"

-- What a guard decides: it lets the request through, or answers 503, or 401 with the strategy's reason,
-- or 401 with the request for a credential.
pub data Access : Type 0 where
  granted : Access
  unavailable rejected : String → Access
  missing : Access

abbrev pub after_answer : Answer → Access → Access
after_answer (true, e) more = granted
after_answer (false, none) more = more
after_answer (false, some e) more =
    if e.provider_unavailable then unavailable e.message else rejected e.message

-- `validateToken`.
unfoldable pub validate_token : Strategies → (String → String) → String → Answer
validate_token strategies request allowed =
    if str_eq allowed ""
    then validate strategies request
    else validate_strategy strategies request allowed

-- `requireOIDCAuth`.
unfoldable pub require_oidc_auth : Bool → Strategies → (String → String) → Access
require_oidc_auth enabled strategies request =
    if not enabled
    then granted
    else after_answer (validate_token strategies request oidc_header)
        (after_answer (validate_token strategies request legacy_keycloak_header) missing)

-- `requireAuthenticatedRead`.
unfoldable pub require_authenticated_read : Bool → Strategies → (String → String) → Access
require_authenticated_read enabled strategies request =
    if not enabled then granted else after_answer (authenticate_request strategies request) missing

-- `hasCredential`.
unfoldable pub has_credential : Strategies → (String → String) → Bool
has_credential strategies request = any (λ p. not (str_eq (request p.0) "")) strategies

-- `countUnauthenticatedRead`: the application that a read is counted for, if it is; `app` is what the
-- handler named.
unfoldable pub count_unauthenticated_read :
    Bool → Strategies → (String → String) → String → Option String
count_unauthenticated_read enabled strategies request app =
    if not enabled || has_credential strategies request
    then none
    else some (if str_eq app "" then unknown_app else app)

-- The answers of the handlers of the lock.
pub data LockResponse : Type 0 where
  denied : Access → LockResponse
  write_failed applied : LockResponse

module _ (calendar : ℕ → Calendar) (d : DeployLockStore) where
  abbrev pub answer_of : d.Store × Bool → d.Store × LockResponse
  answer_of (s, written) = (s, if written then applied else write_failed)

  abbrev pub guarded : Access → d.Store → d.Store × Bool → d.Store × LockResponse
  guarded granted s result = answer_of result
  guarded a s result = (s, denied a)

  -- `SetDeployLock`.
  unfoldable pub set_deploy_lock :
      Bool → Strategies → (String → String) → Lockdown → Bool → d.Store → d.Store × LockResponse
  set_deploy_lock enabled strategies request l up s =
      guarded (require_oidc_auth enabled strategies request) s (set_lock calendar d l up s)

  -- `ReleaseDeployLock`.
  unfoldable pub release_deploy_lock :
      Bool → Strategies → (String → String) → Lockdown → Bool → ℕ → d.Store → d.Store × LockResponse
  release_deploy_lock enabled strategies request l up now s =
      guarded (require_oidc_auth enabled strategies request) s (release_lock calendar d l up now s)

  -- `isDeployLockSet`.
  unfoldable pub is_deploy_lock_set : Lockdown → Bool → ℕ → d.Store → Bool
  is_deploy_lock_set l up now s = is_locked calendar d l up now s

-- The health that `readyz` reports; `down` has its reason.
pub data Health : Type 0 where
  up : Health
  down : String → Health

-- `readyz`.
unfoldable pub readyz : Bool → Bool → Health
readyz draining state_reachable =
    if draining
    then down "shutting down"
    else if not state_reachable
    then down "state backend unreachable"
    else up

-- `reachability`.
unfoldable pub reachability : String → Bool × String
reachability reason = (str_eq reason reason_none, reason)

-- The answers of `getTaskStatus`: 404, 500, or the task without what `TaskStatus` has no field for.
pub data StatusResponse : Type 0 where
  not_found internal_error : String → StatusResponse
  served : Task → StatusResponse

-- `getTaskStatus`, at what the store says of the identifier.
unfoldable pub get_task_status : String → Lookup → StatusResponse
get_task_status id (found task) = served task
get_task_status id task_not_found = not_found id
get_task_status id retrieval_error = internal_error id
