-- ===== src/Client/Watch.antt =====
-- internal/client/client.go: waiting for a deployment's outcome, and the exit code of the process. The
-- replies to the poll `k` are `feed k`; the pauses between polls and the log lines are left out.
pub mod Settled
pub mod Exits
use argo_watcher.Common.{
  ℕ, zero, suc, String, Bool, true, false, not, Option, none, some, str_eq, ◌==◌, ◌⧺◌,
  if◌then◌else◌,
}
use argo_watcher.Models.Status.{
  status_failed, status_cancelled, status_in_progress, status_app_not_found,
  status_argocd_unavailable, status_aborted, status_deployed,
}
use argo_watcher.Models.Task.{contains_text}
use argo_watcher.Client.Credential.{Config, create_task}
use argo_watcher.Client.Requests.{
  Reply, redirect_refused, network_error, response, TaskStatus, RequestError, transport, malformed,
  Decoded, value, bad, Result, ok, err, request_error_text, server_error_from_response, get_json,
}

-- The errors of `waitForDeployment`.
pub data WaitError : Type 0 where
  status_unknown : RequestError → WaitError
  failed cancelled argocd_unavailable aborted : String → WaitError
  app_not_found unexpected_status : String → String → WaitError

-- Their texts; `quote` is the verb `%q`.
abbrev pub wait_error_text : (String → String) → WaitError → String
wait_error_text quote (status_unknown e) = request_error_text e
wait_error_text quote (failed reason) =
    "The deployment has failed. See the reason below.\n" ⧺ reason
wait_error_text quote (cancelled reason) =
    "The deployment was cancelled because a newer deployment superseded it.\n" ⧺ reason
wait_error_text quote (app_not_found app reason) =
    "Application " ⧺ app ⧺ " does not exist.\n" ⧺ reason
wait_error_text quote (argocd_unavailable reason) =
    "ArgoCD is unavailable. Please investigate.\n" ⧺ reason
wait_error_text quote (aborted reason) =
    "The deployment was aborted before its outcome could be confirmed. See the reason below.\n"
    ⧺ reason
wait_error_text quote (unexpected_status status reason) =
    "Received unexpected deployment status "
    ⧺ quote status
    ⧺ " from the server; the client may be out of date.\n"
    ⧺ reason

-- What the switch on the status makes of a poll.
pub data Verdict : Type 0 where
  poll_again done : Verdict
  ended : WaitError → Verdict

unfoldable pub verdict_of : String → TaskStatus → Verdict
verdict_of app info =
    if str_eq info.status status_failed
    then ended (failed info.status_reason)
    else if str_eq info.status status_cancelled
    then ended (cancelled info.status_reason)
    else if str_eq info.status status_in_progress
    then poll_again
    else if str_eq info.status status_app_not_found
    then ended (app_not_found app info.status_reason)
    else if str_eq info.status status_argocd_unavailable
    then ended (argocd_unavailable info.status_reason)
    else if str_eq info.status status_aborted
    then ended (aborted info.status_reason)
    else if str_eq info.status status_deployed
    then done
    else ended (unexpected_status info.status info.status_reason)

abbrev pub verdict_at : String → Result TaskStatus → Verdict
verdict_at app (ok info) = verdict_of app info
verdict_at app (err e) = ended (status_unknown e)

-- The exit codes of the process.
pub data Exit : Type 0 where
  success failure : Exit

module _ (decode_status : String → Option TaskStatus) (decode : String → Decoded TaskStatus) where
  -- `getTaskStatus`.
  abbrev pub get_task_status : (ℕ → Reply) → Result TaskStatus
  get_task_status replies = (get_json decode_status decode replies).0

  abbrev pub after_poll : Verdict → Option (Option WaitError) → Option (Option WaitError)
  after_poll done more = some none
  after_poll (ended e) more = some (some e)
  after_poll poll_again more = more

  -- The loop of `waitForDeployment`, with fuel, from the poll `k`; `none` means that the fuel ran out.
  unfoldable pub wait_from : ℕ → String → (ℕ → ℕ → Reply) → ℕ → Option (Option WaitError)
  wait_from zero app feed k = none
  wait_from (suc fuel) app feed k =
      let more = wait_from fuel app feed (suc k) in
      after_poll (verdict_at app (get_task_status (feed k))) more

  -- `waitForDeployment`.
  unfoldable pub wait_for_deployment : ℕ → String → (ℕ → ℕ → Reply) → Option (Option WaitError)
  wait_for_deployment fuel app feed = wait_from fuel app feed 0

  abbrev pub id_of : Decoded TaskStatus → Result String
  id_of (value accepted) = ok accepted.id
  id_of (bad m) = err (malformed m)

  -- `addTask`, at the reply to its one request.
  unfoldable pub add_task : Reply → Result String
  add_task (redirect_refused m) = err (transport m)
  add_task (network_error m) = err (transport m)
  add_task (response code body) =
      if not (code == 202)
      then err (server_error_from_response decode_status code body)
      else id_of (decode body)

  abbrev pub exit_of : Option WaitError → Exit
  exit_of none = success
  exit_of (some e) = failure

  abbrev pub exit_at : Option (Option WaitError) → Option Exit
  exit_at none = none
  exit_at (some o) = some (exit_of o)

  abbrev pub after_submission : ℕ → Config → (String → ℕ → ℕ → Reply) → Result String → Option Exit
  after_submission fuel config feed (err e) = some failure
  after_submission fuel config feed (ok id) =
      exit_at (wait_for_deployment fuel (create_task config).app (feed id))

  -- `Run`, past the reading of its configuration: every error ends the process with the code 1.
  unfoldable pub run : ℕ → Config → Reply → (String → ℕ → ℕ → Reply) → Option Exit
  run fuel config submission feed = after_submission fuel config feed (add_task submission)
