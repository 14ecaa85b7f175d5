-- ===== src/Tests/Clients.antt =====
-- Examples for the client of internal/client.
use argo_watcher.Common.{
  ℕ, zero, suc, ◌<◌, String, true, false, [], ◌∷◌, Option, none, some, str_eq, ◌≡◌, ◌≢◌, refl,
  arith, eq_iff, length, if◌then◌else◌,
}
use argo_watcher.Common.Int.{pos}
use argo_watcher.Models.Status.{status_in_progress, status_deployed}
use argo_watcher.Client.Credential.{Config, Credential, Headers, is_set, deploy_token_header}
use argo_watcher.Client.Redirect.{Request, followed, guard_redirect, max_redirects}
use argo_watcher.Client.Redirect.Chain.{start, redirected, AllSafe, Sent-AllSafe}
use argo_watcher.Client.Requests.{
  Reply, response, TaskStatus, Decoded, value, ok, get_json, server_error_from_response,
  get_json_once, server_reason, get_json_from,
}
use argo_watcher.Client.Requests.Retries.{DecidedFrom, get_json-DecidedFrom}
use argo_watcher.Client.Watch.{success, failure, add_task, get_task_status, run}
use argo_watcher.Client.Watch.Settled.{Said}
use argo_watcher.Client.Watch.Exits.{Deployed, run-Deployed, run_settles}

abbrev config : Config
config = record {
  url = "https://watcher.example";
  images = "reg/api" ∷ [];
  tag = "v2";
  app = "api";
  author = "ci";
  project = "shop";
  token = "secret";
  json_web_token = "";
  task_timeout = pos 0;
  refresh = none;
  retry_interval = 15;
  expected_deployment_time = 900;
}

-- The body is the status.
abbrev status_in : String → TaskStatus
status_in body = record { id = "7"; status = body; status_reason = ""; error = "" }

abbrev decode_status : String → Option TaskStatus
decode_status body = none

abbrev decode : String → Decoded TaskStatus
decode body = value (status_in body)

abbrev submission : Reply
submission = response 202 "accepted"

-- In progress at the first poll, then deployed; the first request of a poll fails.
abbrev feed : String → ℕ → ℕ → Reply
feed id zero zero = response 503 ""
feed id zero (suc i) = response 200 "in progress"
feed id (suc k) zero = response 502 ""
feed id (suc k) (suc i) = response 200 "deployed"

retries_example :
    DecidedFrom decode_status decode (feed "7" 0) 3 0 (get_json decode_status decode (feed "7" 0))
retries_example = get_json-DecidedFrom decode_status decode (feed "7" 0)

accepted : add_task decode_status decode submission ≡ ok "7"
unfolding add_task
accepted = refl

polled_first : get_task_status decode_status decode (feed "7" 0) ≡ ok (status_in "in progress")
unfolding get_json get_json_from get_json_once server_error_from_response server_reason
polled_first = refl

polled_second : get_task_status decode_status decode (feed "7" 1) ≡ ok (status_in "deployed")
unfolding get_json get_json_from get_json_once server_error_from_response server_reason
polled_second = refl

before_second :
    (j : ℕ) → j < 1 → Said decode_status decode config.app (feed "7") j status_in_progress
before_second zero l = (status_in "in progress", polled_first, refl)
before_second (suc j) l = absurd (omega (arith, l))

deployed_is_final : (status_in "deployed").status ≢ status_in_progress
deployed_is_final h = let q : false ≡ true = (eq_iff "deployed" status_in_progress).1 h in cc q

settles_example :
    run decode_status decode 5 config submission feed
    ≡ some (if str_eq (status_in "deployed").status status_deployed then success else failure)
settles_example =
    run_settles decode_status decode config submission feed 5 "7" 1 (status_in "deployed") accepted
      before_second polled_second deployed_is_final (omega arith)

deployed_example : Deployed decode_status decode config submission feed
deployed_example = run-Deployed decode_status decode config submission feed 5 settles_example

-- A redirect from the server to another host, on https, which still carries the deploy token.
abbrev carried : Headers
carried name = if str_eq name deploy_token_header then "secret" else ""

abbrev first : Request
first = record { scheme = "https"; host = "watcher.example"; headers = carried }

abbrev elsewhere : Request
elsewhere = record { scheme = "https"; host = "cdn.example"; headers = carried }

abbrev stripped : Request
stripped = record elsewhere {
  headers = λ name. if str_eq deploy_token_header name then "" else carried name;
}

abbrev auth : Credential
auth = record { header = deploy_token_header; value = "secret" }

redirect : guard_redirect auth first [] elsewhere ≡ followed stripped true
unfolding guard_redirect is_set
redirect = refl

chain_example : AllSafe first (stripped ∷ []) × (length (stripped ∷ []) < max_redirects)
chain_example =
    Sent-AllSafe auth first (stripped ∷ [])
      (redirected [] elsewhere stripped true (stripped ∷ []) start redirect refl)
