-- ===== src/Argocd/Argo/Checks.antt =====
-- The health check and the guards of `AddTask`.
use argo_watcher.Common.{ℕ, String, Bool, true, false, none, some, ◌≡◌, ◌≢◌, ◌↔◌, eq_iff, arith}
use argo_watcher.Models.Task.{Task}
use argo_watcher.State.Repository.{Repository}
use argo_watcher.Argocd.Argo.{
  UserInfo, login_error, answered, check, is_available, Argo, add_task, accept, AddError, refused,
  store_failed,
}

-- Logged in, as ArgoCD answered.
abbrev pub IsLoggedIn : UserInfo → Type 0
IsLoggedIn user = user ≡ answered (some true)

-- The check reports "up", caches that all is reachable and returns no error exactly when the store is
-- up and ArgoCD says that the watcher is logged in; each of the two gauges shows its own subsystem.
pub check_exact :
    (database_up : Bool) (user : UserInfo)
    → let (availability, status, err) = check database_up user in
      ((is_available availability ≡ true) ↔ ((database_up ≡ true) × IsLoggedIn user))
      × ((status ≡ "up") ↔ (is_available availability ≡ true))
      × ((err ≡ none) ↔ (is_available availability ≡ true))
      × ((availability.argo_unavailable ≡ false) ↔ IsLoggedIn user)
      × ((availability.state_unavailable ≡ false) ↔ (database_up ≡ true))
unfolding check is_available
check_exact true login_error = ground (arith, eq_iff "down" "up")
check_exact true (answered none) = ground (arith, eq_iff "down" "up")
check_exact true (answered (some false)) = ground (arith, eq_iff "down" "up")
check_exact true (answered (some true)) = ground arith
check_exact false login_error = ground (arith, eq_iff "down" "up")
check_exact false (answered none) = ground (arith, eq_iff "down" "up")
check_exact false (answered (some false)) = ground (arith, eq_iff "down" "up")
check_exact false (answered (some true)) = ground (arith, eq_iff "down" "up")

module _ (r : Repository) where
  refusal_of_accept :
      (new_id : String) (now : ℕ) (argo argo' : Argo r) (task : Task) (e : AddError)
      → accept r new_id now argo task ≡ (argo', refused e)
      → e ≡ store_failed
  unfolding accept
  refusal_of_accept new_id now argo argo' task e h = ground arith

  -- A deployment that a guard turns away changes neither the store nor the count of accepted ones.
  pub add_task-refused :
      (new_id : String) (now : ℕ) (argo argo' : Argo r) (task : Task) (e : AddError)
      → e ≢ store_failed
      → add_task r new_id now argo task ≡ (argo', refused e)
      → argo' ≡ argo
  unfolding add_task
  add_task-refused new_id now argo argo' task e ne h =
      ground (arith, refusal_of_accept new_id now argo argo' task e)
