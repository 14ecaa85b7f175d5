-- ===== src/Tests/Credentials.antt =====
-- An example for the authentication of internal/auth.
use argo_watcher.Common.{String, true, false, [], ◌∷◌, some, none, ◌≡◌, any, str_eq, if◌then◌else◌}
use argo_watcher.Auth.{Answer, AuthStrategy, walk}
use argo_watcher.Auth.Order.{verdict, judged, accepts, is_down, rejects, says, walk-Perm}
use mathlib.Core.List.Perm

-- The deploy token, and a provider that is down.
abbrev deploy_token : String × AuthStrategy
deploy_token = (
  "ARGO_WATCHER_DEPLOY_TOKEN",
  record {
    validate = λ token. if str_eq token "secret" then (true, none) else (
      false,
      some (record { message = "deploy token is invalid"; provider_unavailable = false }),
    );
    authenticate_only = none;
  },
)

abbrev provider : String × AuthStrategy
provider = (
  "Authorization",
  record {
    validate = λ token. (false, some (record { message = "down"; provider_unavailable = true }));
    authenticate_only = none;
  },
)

abbrev checked : AuthStrategy → String → Answer
checked strategy token = strategy.validate token

abbrev headers : String → String
headers header = "Bearer wrong"

walk_example :
    (verdict (walk checked headers (deploy_token ∷ provider ∷ []))
      ≡ judged
          (any (says checked headers accepts) (deploy_token ∷ provider ∷ []))
          (any (says checked headers is_down) (deploy_token ∷ provider ∷ []))
          (any (says checked headers rejects) (deploy_token ∷ provider ∷ [])))
    × (verdict (walk checked headers (deploy_token ∷ provider ∷ []))
        ≡ verdict (walk checked headers (provider ∷ deploy_token ∷ [])))
walk_example =
    walk-Perm checked headers (deploy_token ∷ provider ∷ []) (provider ∷ deploy_token ∷ [])
      (Perm.swap provider deploy_token [])
