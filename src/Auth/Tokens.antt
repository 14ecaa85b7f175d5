-- ===== src/Auth/Tokens.antt =====
-- internal/auth/deployToken.go and jwt.go: the strategies without a provider. What the JWT library makes
-- of a token is an argument.
use argo_watcher.Common.{
  ℕ, String, Bool, true, false, not, Option, none, some, str_eq, ltb, if◌then◌else◌,
}
use argo_watcher.Auth.{Answer}

abbrev pub refusal : String → Answer
refusal message = (false, some (record { message = message; provider_unavailable = false }))

-- `DeployTokenAuthService.Validate`.
unfoldable pub validate_deploy_token : String → String → Answer
validate_deploy_token stored token =
    if not (str_eq stored token) then refusal "deploy token is invalid" else (true, none)

-- What `jwt.Parse` brings: an error, or whether the token is valid with its claims, if they are a map:
-- whether there is an `exp`, and an `iat` that is a number.
pub record Claims : Type 0 where
  pub has_exp : Bool
  pub iat : Option ℕ

pub data Parsed : Type 0 where
  parse_error : String → Parsed
  parsed : Bool → Option Claims → Parsed

abbrev pub check_iat : ℕ → Option ℕ → Answer
check_iat now none = (true, none)
check_iat now (some iat) = if ltb now iat then refusal "token used before issued" else (true, none)

abbrev pub check_claims : ℕ → Option Claims → Answer
check_claims now none = refusal "invalid claims type"
check_claims now (some claims) =
    if not claims.has_exp then refusal "missing exp claim" else check_iat now claims.iat

abbrev pub check_parsed : ℕ → Parsed → Answer
check_parsed now (parse_error m) = refusal m
check_parsed now (parsed valid claims) =
    if not valid then refusal "invalid token" else check_claims now claims

-- `JWTAuthService.Validate`, `now` in seconds; `parse` checks the signature with the service's secret, and
-- refuses any method that is not HMAC.
unfoldable pub validate_jwt : (String → Parsed) → ℕ → String → Answer
validate_jwt parse now token =
    if str_eq token "" then refusal "empty token" else check_parsed now (parse token)
