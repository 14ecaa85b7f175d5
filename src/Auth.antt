-- ===== src/Auth.antt =====
-- internal/auth/auth.go: the walk over the authentication strategies. What a strategy says of a token
-- is a function of it; the registered strategies are listed in the order in which Go happens to walk
-- their map.
pub mod Order
pub mod Tokens
pub mod Cache
pub mod Oidc
use argo_watcher.Common.{
  ℕ, String, Bool, true, false, List, [], ◌∷◌, Option, none, some, str_eq, if◌then◌else◌,
}
use argo_watcher.Helpers.Images.{take_text}

-- An error, and whether it is `ErrProviderUnavailable`.
pub record AuthError : Type 0 where
  pub message : String
  pub provider_unavailable : Bool

abbrev pub Answer : Type 0
Answer = Bool × Option AuthError

-- `AuthStrategy`, with the `Authenticate` of one that has it.
pub record AuthStrategy : Type 0 where
  pub validate : String → Answer
  pub authenticate_only : Option (String → Option AuthError)

-- `strings.CutPrefix(token, "Bearer ")`, as the text after the prefix if it is there.
unfoldable pub cut_prefix : String → String → Option String
cut_prefix String.[] s = some s
cut_prefix (String.◌∷◌ p ps) String.[] = none
cut_prefix (String.◌∷◌ p ps) (String.◌∷◌ c s) =
    let rest = cut_prefix ps s in
    if str_eq (String.◌∷◌ p String.[]) (String.◌∷◌ c String.[]) then rest else none

abbrev pub without_bearer : String → String
without_bearer token = elim (cut_prefix "Bearer " token) [ none ↦ token | some after ↦ after ]

-- `parseAuthToken` on a request's headers, of which a missing one is empty.
unfoldable pub parse_auth_token : (String → String) → String → String
parse_auth_token request header =
    if str_eq (request header) "" then "" else without_bearer (request header)

abbrev pub of_error : Option AuthError → Answer
of_error none = (true, none)
of_error (some e) = (false, some e)

-- `authenticate`.
unfoldable pub authenticate : AuthStrategy → String → Answer
authenticate strategy token = elim strategy.authenticate_only [
  | none ↦ strategy.validate token
  | some check ↦ of_error (check token)
]

-- What the loop of `walk` does with an answer: the rest is walked with the errors so far.
abbrev pub after_answer :
    Answer
    → Option AuthError
    → Option AuthError
    → (Option AuthError → Option AuthError → Answer)
    → Answer
after_answer (true, e) rejected unavailable rest = (true, none)
after_answer (false, none) rejected unavailable rest = rest rejected unavailable
after_answer (false, some e) rejected unavailable rest =
    if e.provider_unavailable then rest rejected (some e) else rest (some e) unavailable

abbrev pub at_end : Option AuthError → Option AuthError → Answer
at_end rejected none = (false, rejected)
at_end rejected (some e) = (false, some e)

abbrev pub Strategies : Type 0
Strategies = List (String × AuthStrategy)

module _ (check : AuthStrategy → String → Answer) (request : String → String) where
  unfoldable pub walk_from : Strategies → Option AuthError → Option AuthError → Answer
  walk_from [] rejected unavailable = at_end rejected unavailable
  walk_from ((header, strategy) ∷ rest) rejected unavailable =
      let token = parse_auth_token request header in
      let skipped = walk_from rest rejected unavailable in
      let asked =
        after_answer (check strategy token) rejected unavailable (λ r u. walk_from rest r u) in
      if str_eq token "" then skipped else asked

  -- `walk`.
  unfoldable pub walk : Strategies → Answer
  walk strategies = walk_from strategies none none

-- `Validate`.
unfoldable pub validate : Strategies → (String → String) → Answer
validate strategies request = walk (λ strategy token. strategy.validate token) request strategies

-- `AuthenticateRequest`.
unfoldable pub authenticate_request : Strategies → (String → String) → Answer
authenticate_request strategies request = walk authenticate request strategies

unfoldable pub find_strategy : String → Strategies → Option AuthStrategy
find_strategy header [] = none
find_strategy header ((h, strategy) ∷ rest) =
    if str_eq h header then some strategy else find_strategy header rest

-- `ValidateStrategy`.
unfoldable pub validate_strategy : Strategies → (String → String) → String → Answer
validate_strategy strategies request allowed = elim (find_strategy allowed strategies) [
  | none ↦ (false, none)
  | some strategy ↦
      let token = parse_auth_token request allowed in
      if str_eq token "" then (false, none) else strategy.validate token
]

-- `AuthenticateToken`.
unfoldable pub authenticate_token : Strategies → String → String → Answer
authenticate_token strategies header token =
    if str_eq token "" then (false, none) else elim (find_strategy header strategies) [
      | none ↦ (false, none)
      | some strategy ↦ authenticate strategy (without_bearer token)
    ]
