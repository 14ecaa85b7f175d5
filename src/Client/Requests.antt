-- ===== src/Client/Requests.antt =====
-- internal/client/utility.go and client.go: a request to the server, its retries, and what its failure is
-- reported as. What comes back, and how a body decodes, is an argument.
pub mod Retries
use argo_watcher.Common.{
  ℕ, zero, suc, String, Bool, true, false, not, ◌||◌, Option, none, some, str_eq, leb, ◌==◌, ◌⧺◌,
  if◌then◌else◌,
}
use argo_watcher.Common.Split.{trim_space}
use argo_watcher.Models.Report.Failure.{decimal}

-- What `watcher.client.Do` brings: the refusal of a redirect away from https, another error, or a
-- response.
pub data Reply : Type 0 where
  redirect_refused network_error : String → Reply
  response : ℕ → String → Reply

-- The fields of `models.TaskStatus` that the client reads.
pub record TaskStatus : Type 0 where
  pub id : String
  pub status : String
  pub status_reason : String
  pub error : String

-- The errors of a request; that of a response has its code, its reason and whether the hint at the
-- tokens is appended.
pub data RequestError : Type 0 where
  transport malformed : String → RequestError
  server : ℕ → String → Bool → RequestError

abbrev pub hint_of : Bool → String
hint_of true = " (check ARGO_WATCHER_DEPLOY_TOKEN or BEARER_TOKEN)"
hint_of false = ""

-- The texts of `serverErrorFromResponse`.
abbrev pub request_error_text : RequestError → String
request_error_text (transport m) = m
request_error_text (malformed m) = m
request_error_text (server code reason hint) =
    "argo-watcher returned status "
    ⧺ decimal code
    ⧺ (if str_eq reason "" then "" else ": " ⧺ reason ⧺ hint_of hint)

pub data Got (A : Type 0) : Type 0 where
  got : A → Got A
  transient terminal : RequestError → Got A

pub data Decoded (A : Type 0) : Type 0 where
  value : A → Decoded A
  bad : String → Decoded A

pub data Result (A : Type 0) : Type 0 where
  ok : A → Result A
  err : RequestError → Result A

-- The JSON decoder, at a body that is a task's status.
module _ (decode_status : String → Option TaskStatus) where
  abbrev pub reason_of : String → Option TaskStatus → String
  reason_of text none = text
  reason_of text (some ts) =
      if not (str_eq ts.error "")
      then ts.error
      else if not (str_eq ts.status "")
      then ts.status
      else text

  -- `serverReason`.
  unfoldable pub server_reason : String → String
  server_reason body =
      let text = trim_space body in
      if str_eq text "" then "" else reason_of text (decode_status text)

  -- `serverErrorFromResponse`.
  unfoldable pub server_error_from_response : ℕ → String → RequestError
  server_error_from_response code body =
      let reason = server_reason body in
      if str_eq reason ""
      then server code "" false
      else if code == 401 || code == 403
      then server code reason true
      else server code reason false

  module _ {A : Type 0} (decode : String → Decoded A) where
    abbrev pub decoded : Decoded A → Got A
    decoded (value a) = got a
    decoded (bad m) = terminal (malformed m)

    -- `getJSONOnce`.
    unfoldable pub get_json_once : Reply → Got A
    get_json_once (redirect_refused m) = terminal (transport m)
    get_json_once (network_error m) = transient (transport m)
    get_json_once (response code body) =
        let error = server_error_from_response code body in
        if not (code == 200)
        then (if leb 500 code then transient error else terminal error)
        else decoded (decode body)

    -- What the loop of `getJSON` does after a try, with so many retries left: the result, and the
    -- number of requests sent.
    abbrev pub after_try : ℕ → Got A → Result A × ℕ → Result A × ℕ
    after_try left (got a) more = (ok a, 1)
    after_try left (terminal e) more = (err e, 1)
    after_try zero (transient e) more = (err e, 1)
    after_try (suc left) (transient e) more = (more.0, suc more.1)

    unfoldable pub get_json_from : ℕ → (ℕ → Reply) → ℕ → Result A × ℕ
    get_json_from zero feed i = after_try zero (get_json_once (feed i)) (err (malformed ""), 0)
    get_json_from (suc left) feed i =
        let more = get_json_from left feed (suc i) in
        after_try (suc left) (get_json_once (feed i)) more

    abbrev pub max_transient_retries : ℕ
    max_transient_retries = 3

    -- `getJSON`, on the replies in the order in which they come.
    unfoldable pub get_json : (ℕ → Reply) → Result A × ℕ
    get_json feed = get_json_from max_transient_retries feed 0
