-- ===== src/Server/Access/Guarded.antt =====
-- internal/server/handlers.go and handlers_lock.go: the guards, together with the strategies behind them
-- and the lock that they protect.
use argo_watcher.Common.{
  ℕ, String, Bool, true, false, none, some, any, if◌then◌else◌, ◌≡◌, refl, ◌∙◌, ◌⊎◌, inl, inr,
  arith, Bool-cases,
}
use argo_watcher.Auth.{Answer, Strategies, authenticate, authenticate_request, validate_strategy}
use argo_watcher.Auth.Order.{
  Verdict, authenticated, provider_down, refused, not_provided, verdict, judged, accepts, is_down,
  rejects, says, walk-Perm,
}
use argo_watcher.Server.Store.{DeployLockStore, DeployLockLaws}
use argo_watcher.Server.Lockdown.{Lockdown, Calendar, is_locked, set_lock}
use argo_watcher.Server.Lockdown.Release.{set_and_release_lock_lem}
use argo_watcher.Server.Access.{
  Access, granted, unavailable, rejected, missing, after_answer, validate_token, require_oidc_auth,
  require_authenticated_read, oidc_header, legacy_keycloak_header, LockResponse, denied,
  write_failed, applied, guarded, set_deploy_lock,
}
use mathlib.Core.List.Perm

-- The answer's status code and reason, as the verdict on the credentials.
abbrev pub access_verdict : Access → Verdict
access_verdict granted = authenticated
access_verdict (unavailable m) = provider_down
access_verdict (rejected m) = refused
access_verdict missing = not_provided

after_answer-verdict : (x : Answer) → access_verdict (after_answer x missing) ≡ verdict x
after_answer-verdict (true, e) = refl
after_answer-verdict (false, none) = refl
after_answer-verdict (false, some e) = ground arith

-- With OIDC on, a read is let through if one of its credentials is accepted, be it without any
-- privilege; else it is answered 503 if a provider could not be asked about one, so that no session is
-- discarded over an outage; else 401. The order in which the strategies are asked does not matter.
pub require_authenticated_read_lem :
    (strategies : Strategies) (request : String → String)
    → access_verdict (require_authenticated_read true strategies request)
      ≡ judged
          (any (says authenticate request accepts) strategies)
          (any (says authenticate request is_down) strategies)
          (any (says authenticate request rejects) strategies)
unfolding require_authenticated_read authenticate_request
require_authenticated_read_lem strategies request =
    after_answer-verdict (authenticate_request strategies request)
    ∙ (walk-Perm authenticate request strategies strategies (Perm.refl strategies)).0

granted_by :
    (x : Answer) (more : Access)
    → after_answer x more ≡ granted
    → (accepts x ≡ true) ⊎ (more ≡ granted)
granted_by (true, e) more h = inl refl
granted_by (false, none) more h = inr h
granted_by (false, some e) more h = elim (Bool-cases e.provider_unavailable) [
  | inl b ↦ absurd (let q : unavailable e.message ≡ granted = rw b at h in cc q)
  | inr b ↦ absurd (let q : rejected e.message ≡ granted = rw b at h in cc q)
]

-- The strategy behind one of the two headers accepts the request's token.
abbrev pub Privileged : Strategies → (String → String) → Type 0
Privileged strategies request =
    (accepts (validate_strategy strategies request oidc_header) ≡ true)
    ⊎ (accepts (validate_strategy strategies request legacy_keycloak_header) ≡ true)

require_oidc_auth-Privileged :
    (strategies : Strategies) (request : String → String)
    → require_oidc_auth true strategies request ≡ granted
    → Privileged strategies request
unfolding require_oidc_auth validate_token
require_oidc_auth-Privileged strategies request h =
    elim (granted_by (validate_strategy strategies request oidc_header) _ h) [
      | inl a ↦ inl a
      | inr m ↦
          elim (granted_by (validate_strategy strategies request legacy_keycloak_header) missing
            m) [ inl a ↦ inr a | inr q ↦ absurd (cc q) ]
    ]

module _ (calendar : ℕ → Calendar) (d : DeployLockStore) (strategies : Strategies)
    (request : String → String) where
  -- What an answer of the lock's handler says, from the store `s` to the store `s'`.
  abbrev pub Meant : Lockdown → d.Store → d.Store → LockResponse → Type 0
  Meant l s s' (denied a) = s' ≡ s
  Meant l s s' write_failed = Privileged strategies request
  Meant l s s' applied =
      Privileged strategies request × ((later : ℕ) → is_locked calendar d l true later s' ≡ true)

  answer_of-Meant :
      (laws : DeployLockLaws d) (l : Lockdown) (s : d.Store) (written : Bool)
      → Privileged strategies request
      → (set_lock calendar d l true s).1 ≡ written
      → Meant l s (set_lock calendar d l true s).0 (if written then applied else write_failed)
  answer_of-Meant laws l s true p e =
      (p, λ later. (set_and_release_lock_lem calendar d laws l 0 later s).0 e)
  answer_of-Meant laws l s false p e = p

  guarded-Meant :
      (laws : DeployLockLaws d) (l : Lockdown) (s : d.Store) (a : Access)
      → require_oidc_auth true strategies request ≡ a
      → let (s', response) = guarded calendar d a s (set_lock calendar d l true s) in
        Meant l s s' response
  guarded-Meant laws l s granted e =
      answer_of-Meant laws l s (set_lock calendar d l true s).1
        (require_oidc_auth-Privileged strategies request e) refl
  guarded-Meant laws l s (unavailable m) e = refl
  guarded-Meant laws l s (rejected m) e = refl
  guarded-Meant laws l s missing e = refl

-- With OIDC on and the database answering: a request to set the lock that is denied leaves the lock as
-- it is. Otherwise the strategy behind one of the two headers accepted its token; and if the answer is
-- that the lock is set, deployments are locked at every later reading.
pub set_deploy_lock-Meant :
    (calendar : ℕ → Calendar) (d : DeployLockStore) (laws : DeployLockLaws d)
    (strategies : Strategies) (request : String → String) (l : Lockdown) (s : d.Store)
    → let (s', response) = set_deploy_lock calendar d true strategies request l true s in
      Meant calendar d strategies request l s s' response
unfolding set_deploy_lock
set_deploy_lock-Meant calendar d laws strategies request l s =
    guarded-Meant calendar d strategies request laws l s (require_oidc_auth true strategies request)
      refl
