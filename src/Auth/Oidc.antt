-- ===== src/Auth/Oidc.antt =====
-- internal/auth/oidc.go: the strategy that asks an OIDC provider. What the provider answers and how a URL
-- is taken apart is an argument; a decision is made at `now`, and remembered from `answered` on.
pub mod Fresh
use argo_watcher.Common.{
  ℕ, String, Bool, true, false, not, ◌&&◌, ◌||◌, List, Option, none, some, str_eq, any, contains,
  ◌==◌, ◌⧺◌, is_some, if◌then◌else◌,
}
use argo_watcher.Auth.{AuthError, Answer}
use argo_watcher.Auth.Cache.{UserInfo, Decision, accepted, rejected, Entries, get, put}

pub record Url : Type 0 where
  pub scheme : String
  pub host : String
  pub raw_query : String
  pub force_query : Bool
  pub fragment : String

abbrev pub is_http : String → Bool
is_http scheme = str_eq scheme "http" || str_eq scheme "https"

-- `validateIssuerURL`, at what `url.Parse` makes of it; `true` is no error.
unfoldable pub validate_issuer_url : Option Url → Bool
validate_issuer_url none = false
validate_issuer_url (some u) =
    if not (str_eq u.scheme "http") && not (str_eq u.scheme "https")
    then false
    else if str_eq u.host ""
    then false
    else not (not (str_eq u.raw_query "") || u.force_query || not (str_eq u.fragment ""))

abbrev pub is_usable : Option Url → Bool
is_usable none = false
is_usable (some u) = is_http u.scheme && not (str_eq u.host "")

-- `validateUserinfoURL`.
unfoldable pub validate_userinfo_url : (String → Option Url) → String → Bool
validate_userinfo_url parse_url raw = if str_eq raw "" then false else is_usable (parse_url raw)

-- What a request to the provider brings: nothing that can be read, or a status with its body decoded,
-- if it can be.
pub data ProviderReply (A : Type 0) : Type 0 where
  unreachable : ProviderReply A
  replied : ℕ → String → Option A → ProviderReply A

-- The state of `OIDCAuthService`: the discovered endpoint, empty at first, and the cache.
pub record OidcState : Type 0 where
  pub userinfo_url : String
  pub entries : Entries

-- Its configuration.
pub record OidcConfig : Type 0 where
  pub privileged_groups : List String
  pub ttl : ℕ

-- What happens during one call.
pub record Moment : Type 0 where
  pub now : ℕ
  pub answered : ℕ
  pub victim : ℕ
  pub discovery : ProviderReply String
  pub userinfo : String → String → ProviderReply UserInfo

abbrev pub err_provider_unavailable : AuthError
err_provider_unavailable = record {
  message = "token validation failed";
  provider_unavailable = true;
}

abbrev pub endpoint_of : (String → Option Url) → ProviderReply String → Option String
endpoint_of parse_url unreachable = none
endpoint_of parse_url (replied status text none) = none
endpoint_of parse_url (replied status text (some endpoint)) =
    if not (status == 200)
    then none
    else if validate_userinfo_url parse_url endpoint
    then some endpoint
    else none

-- `resolveUserinfoURL`: the endpoint that is known afterwards; `none` is `ErrProviderUnavailable`.
unfoldable pub resolve_userinfo_url :
    (String → Option Url) → String → ProviderReply String → Option String
resolve_userinfo_url parse_url known discovery =
    if not (str_eq known "") then some known else endpoint_of parse_url discovery

-- The provider's judgement of a token; `none` is `ErrProviderUnavailable`.
abbrev pub judgement : ProviderReply UserInfo → Option Decision
judgement unreachable = none
judgement (replied status text info) =
    if status == 401 || status == 403
    then some (
        rejected (record {
          message = "token validation failed with status: " ⧺ text;
          provider_unavailable = false;
        }))
    else if not (status == 200)
    then none
    else elim info [ none ↦ none | some i ↦ some (accepted i) ]

abbrev pub ask : Moment → String → String → Option String → String × Option Decision
ask m known token none = (known, none)
ask m known token (some endpoint) = (endpoint, judgement (m.userinfo endpoint token))

-- `fetchUserInfo`: the endpoint that is known afterwards, and the judgement.
unfoldable pub fetch_user_info :
    (String → Option Url) → Moment → String → String → String × Option Decision
fetch_user_info parse_url m known token =
    ask m known token (resolve_userinfo_url parse_url known m.discovery)

-- `allowedToRollback`.
unfoldable pub allowed_to_rollback : List String → List String → Bool
allowed_to_rollback privileged_groups groups =
    any (λ group. contains privileged_groups group) groups

-- Whether a remembered decision may be used.
abbrev pub may_reuse : Bool → Decision → Bool
may_reuse allow_cached (accepted info) = allow_cached
may_reuse allow_cached (rejected e) = true

module _ (hash : String → String) (decode_exp : String → Option ℕ) (parse_url : String → Option Url)
    (config : OidcConfig) where
  abbrev pub remembered :
      Moment → String → OidcState → String × Option Decision → OidcState × Option Decision
  remembered m token s (known, none) = (record s { userinfo_url = known }, none)
  remembered m token s (known, some d) = (
    record {
      userinfo_url = known;
      entries = put hash decode_exp config.ttl token d m.answered m.victim s.entries;
    },
    some d,
  )

  abbrev pub resolve_fresh : Moment → String → OidcState → OidcState × Option Decision
  resolve_fresh m token s = remembered m token s (fetch_user_info parse_url m s.userinfo_url token)

  abbrev pub resolve_with :
      Bool → Moment → String → OidcState → Option Decision → OidcState × Option Decision
  resolve_with allow_cached m token s none = resolve_fresh m token s
  resolve_with allow_cached m token s (some d) =
      if may_reuse allow_cached d then (s, some d) else resolve_fresh m token s

  -- `resolveIdentity`; `none` is `ErrProviderUnavailable`.
  unfoldable pub resolve_identity : Bool → Moment → String → OidcState → OidcState × Option Decision
  resolve_identity allow_cached m token s =
      let (entries, cached) = get hash decode_exp config.ttl token m.now s.entries in
      resolve_with allow_cached m token (record s { entries = entries }) cached

  abbrev pub error_of : Option Decision → Option AuthError
  error_of none = some err_provider_unavailable
  error_of (some (accepted info)) = none
  error_of (some (rejected e)) = some e

  -- `Authenticate`.
  unfoldable pub authenticate : Moment → String → OidcState → OidcState × Option AuthError
  authenticate m token s = let (s', d) = resolve_identity true m token s in (s', error_of d)

  abbrev pub privileged_of : Option Decision → Answer
  privileged_of none = (false, some err_provider_unavailable)
  privileged_of (some (rejected e)) = (false, some e)
  privileged_of (some (accepted info)) =
      if not (allowed_to_rollback config.privileged_groups info.groups)
      then (
        false,
        some (record {
          message = info.username ⧺ " is not a member of any of the privileged groups";
          provider_unavailable = false;
        }),
      )
      else (true, none)

  -- `Validate`.
  unfoldable pub validate : Moment → String → OidcState → OidcState × Answer
  validate m token s = let (s', d) = resolve_identity false m token s in (s', privileged_of d)
