-- ===== src/Tests/Providers.antt =====
-- Examples for the OIDC strategy of internal/auth/oidc.go.
use argo_watcher.Common.{
  ℕ, ◌≤◌, String, true, List, [], ◌∷◌, Option, none, some, ◌≡◌, refl, length, Has, contains,
}
use argo_watcher.Auth.Cache.{
  UserInfo, max_cache_entries, find_entry, get, put, entry_ttl, cache_ttl, token_expiry,
}
use argo_watcher.Common.Split.{split}
use argo_watcher.Auth.Cache.Backed.{Seen}
use argo_watcher.Auth.Oidc.{
  Url, OidcState, OidcConfig, Moment, replied, unreachable, authenticate, validate,
  resolve_identity, fetch_user_info, resolve_userinfo_url, allowed_to_rollback,
}
use argo_watcher.Auth.Oidc.Fresh.{
  Reaches, start, called, Grounded, AcceptedNow, Reaches-bounded, authenticate-Grounded,
  validate-AcceptedNow,
}

abbrev hash : String → String
hash token = token

abbrev decode_exp : String → Option ℕ
decode_exp payload = none

abbrev parse_url : String → Option Url
parse_url raw = none

abbrev config : OidcConfig
config = record { privileged_groups = "ops" ∷ []; ttl = 60 }

abbrev alice : UserInfo
alice = record { username = "alice"; groups = "ops" ∷ [] }

-- The endpoint is known, and the provider accepts.
abbrev asked : Moment
asked = record {
  now = 100;
  answered = 101;
  victim = 0;
  discovery = unreachable;
  userinfo = λ endpoint token. replied 200 "200 OK" (some alice);
}

-- The provider is gone.
abbrev later : Moment
later = record asked { now = 120; answered = 121; userinfo = λ endpoint token. unreachable }

abbrev initial : OidcState
initial = record { userinfo_url = "https://idp/userinfo"; entries = [] }

abbrev after_call : OidcState
after_call = (resolve_identity hash decode_exp parse_url config true asked "t" initial).0

abbrev log : List Seen
log = record { token = "t"; info = alice; at = 101 } ∷ []

reached : Reaches hash decode_exp parse_url config after_call log
unfolding resolve_identity fetch_user_info resolve_userinfo_url get find_entry put
reached = called true asked "t" initial after_call [] log (start "https://idp/userinfo") refl refl

bounded_example : length after_call.entries ≤ max_cache_entries
bounded_example = Reaches-bounded hash decode_exp parse_url config after_call log reached

remembered : (authenticate hash decode_exp parse_url config later "t" after_call).1 ≡ none
unfolding authenticate resolve_identity get find_entry put fetch_user_info resolve_userinfo_url
    entry_ttl cache_ttl token_expiry split
remembered = refl

acceptance_example :
    (info : UserInfo) × Grounded hash decode_exp parse_url config log later "t" after_call info
acceptance_example =
    authenticate-Grounded hash decode_exp parse_url config after_call log later "t" reached
      remembered

privileged : (validate hash decode_exp parse_url config asked "t" initial).1.0 ≡ true
unfolding validate resolve_identity get find_entry put fetch_user_info resolve_userinfo_url
    allowed_to_rollback contains
privileged = refl

validated_example :
    (info : UserInfo) × AcceptedNow hash decode_exp parse_url config asked "t" initial info
    × ((group : String) × Has group info.groups × Has group config.privileged_groups)
validated_example =
    validate-AcceptedNow hash decode_exp parse_url config initial asked "t" privileged
