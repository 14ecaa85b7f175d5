-- ===== src/Client/Redirect.antt =====
-- internal/client/client.go: which redirects the client follows, and what it then presents.
pub mod Chain
use argo_watcher.Common.{
  ℕ, zero, suc, String, Bool, true, false, not, ◌&&◌, List, [], ◌∷◌, Option, none, some, str_eq,
  length, leb, if◌then◌else◌,
}
use argo_watcher.Client.Credential.{Credential, Headers, is_set, del_header, deploy_token_header}

-- A request as far as the hook looks at it.
pub record Request : Type 0 where
  pub scheme : String
  pub host : String
  pub headers : Headers

abbrev pub max_redirects : ℕ
max_redirects = 10

pub data RedirectError : Type 0 where
  stopped : RedirectError
  insecure_redirect : String → String → String → RedirectError

-- `via[len(via)-1]` of the requests made so far, the first one apart.
abbrev pub last_of : Request → List Request → Request
last_of first [] = first
last_of first (r ∷ rest) = last_of r rest

-- What the hook decides: an error, or the request as it may be sent, with whether the warning is due.
pub data Decision : Type 0 where
  refused : RedirectError → Decision
  followed : Request → Bool → Decision

-- `guardRedirect`. The requests made so far are the first one and the others; the warning is logged once.
unfoldable pub guard_redirect : Credential → Request → List Request → Request → Decision
guard_redirect auth first others request =
    let previous = last_of first others in
    let stripped = record request { headers = del_header deploy_token_header request.headers } in
    if leb max_redirects (suc (length others))
    then refused stopped
    else if str_eq previous.scheme "https" && not (str_eq request.scheme "https")
    then refused (insecure_redirect previous.host request.scheme request.host)
    else if str_eq request.host first.host
    then followed request false
    else followed stripped (is_set auth && str_eq (stripped.headers auth.header) "")
