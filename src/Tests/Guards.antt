-- ===== src/Tests/Guards.antt =====
-- Examples for the guards of internal/server.
use argo_watcher.Common.{String, true, false, [], ◌∷◌, some, none, str_eq, if◌then◌else◌, ℕ}
use argo_watcher.Auth.{AuthStrategy, Strategies}
use argo_watcher.Server.Store.{postgres_deploy_lock_store, postgres_laws}
use argo_watcher.Server.Lockdown.{Calendar, Lockdown}
use argo_watcher.Server.Access.{oidc_header, set_deploy_lock}
use argo_watcher.Server.Access.Guarded.{Meant, set_deploy_lock-Meant}

-- A provider that knows one session.
abbrev session : AuthStrategy
session = record {
  validate = λ token.
      if str_eq token "session"
      then (true, none)
      else (false, some (record { message = "unknown session"; provider_unavailable = false }));
  authenticate_only = none;
}

abbrev strategies : Strategies
strategies = (oidc_header, session) ∷ []

abbrev headers : String → String
headers name = if str_eq name oidc_header then "Bearer session" else ""

abbrev lockdown : Lockdown
lockdown = record { schedules = []; override_duration = 900 }

abbrev calendar : ℕ → Calendar
calendar now = record { weekday = 3; hour = 12; minute = 0 }

lock_example :
    let (s', response) =
      set_deploy_lock calendar postgres_deploy_lock_store true strategies headers lockdown true
        none in
    Meant calendar postgres_deploy_lock_store strategies headers lockdown none s' response
lock_example =
    set_deploy_lock-Meant calendar postgres_deploy_lock_store postgres_laws strategies headers
      lockdown none
