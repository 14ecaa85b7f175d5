-- ===== src/Auth/Oidc/Fresh.antt =====
-- internal/auth/oidc.go: what an acceptance goes back to, over all the calls of a process.
use argo_watcher.Common.{
  ℕ, ◌≤◌, String, Bool, true, false, not, List, [], ◌∷◌, ◌++◌, Option, none, some, length, contains,
  contains-Has, if◌then◌else◌, ◌≡◌, refl, sym, ◌∙◌, subst, ◌⊎◌, inl, inr, arith, Bool-cases, Has,
}
use argo_watcher.Auth.Cache.{
  UserInfo, Decision, accepted, rejected, Entries, max_cache_entries, get,
}
use argo_watcher.Auth.Cache.Bounded.{put-bounded, get-bounded}
use argo_watcher.Auth.Oidc.{
  Url, OidcState, OidcConfig, Moment, fetch_user_info, may_reuse, remembered, resolve_with,
  resolve_identity, authenticate, validate, error_of, privileged_of, allowed_to_rollback,
}
use argo_watcher.Auth.Cache.Backed.{
  Seen, InTime, AllBacked, heard, put-AllBacked, get-AllBacked, get-Backed,
}

module _ (hash : String → String) (decode_exp : String → Option ℕ) (parse_url : String → Option Url)
    (config : OidcConfig) where
  -- Whether a call asks the provider.
  abbrev asks_after : Bool → Option Decision → Bool
  asks_after allow_cached none = true
  asks_after allow_cached (some d) = not (may_reuse allow_cached d)

  abbrev pub asks : Bool → Moment → String → OidcState → Bool
  asks allow_cached m token s =
      asks_after allow_cached (get hash decode_exp config.ttl token m.now s.entries).1

  abbrev pub answer : Moment → String → OidcState → Option Decision
  answer m token s = (fetch_user_info parse_url m s.userinfo_url token).1

  abbrev pub news : Moment → String → Option Decision → List Seen
  news m token none = []
  news m token (some d) = heard hash decode_exp config.ttl token m.answered d

  -- The calls made so far, with the acceptances that the provider gave to them.
  pub data Reaches : OidcState → List Seen → Type 0 where
    start : (known : String) → Reaches (record { userinfo_url = known; entries = [] }) []
    called :
        (allow_cached : Bool) (m : Moment) (token : String) (s s' : OidcState)
        (log log' : List Seen)
        → Reaches s log
        → s' ≡ (resolve_identity hash decode_exp parse_url config allow_cached m token s).0
        → log'
          ≡ (if asks allow_cached m token s then news m token (answer m token s) ++ log else log)
        → Reaches s' log'

  -- The cache within its bound, each acceptance in it going back to one by the provider.
  abbrev pub IsSound : OidcState → List Seen → Type 0
  IsSound s log =
      (length s.entries ≤ max_cache_entries) × AllBacked hash decode_exp config.ttl log s.entries

  remembered-IsSound :
      (m : Moment) (token : String) (s : OidcState) (log : List Seen) (x : String × Option Decision)
      → IsSound s log
      → IsSound
          (remembered hash decode_exp parse_url config m token s x).0
          (news m token x.1 ++ log)
  remembered-IsSound m token s log (known, none) h = h
  remembered-IsSound m token s log (known, some d) (b, h) = (
    put-bounded hash decode_exp config.ttl token d m.answered m.victim s.entries b,
    put-AllBacked hash decode_exp config.ttl token d m.answered m.victim log s.entries h,
  )

  resolve_with-IsSound :
      (allow_cached : Bool) (m : Moment) (token : String) (s : OidcState) (log : List Seen)
      (cached : Option Decision)
      → IsSound s log
      → IsSound
          (resolve_with hash decode_exp parse_url config allow_cached m token s cached).0
          (if asks_after allow_cached cached then news m token (answer m token s) ++ log else log)
  resolve_with-IsSound allow_cached m token s log none h =
      remembered-IsSound m token s log (fetch_user_info parse_url m s.userinfo_url token) h
  resolve_with-IsSound allow_cached m token s log (some d) h =
      elim (Bool-cases (may_reuse allow_cached d)) [
        | inl b ↦ rw b h
        | inr b ↦
            rw b (
              remembered-IsSound m token s log (fetch_user_info parse_url m s.userinfo_url token) h)
      ]

  get-IsSound :
      (m : Moment) (token : String) (s : OidcState) (log : List Seen)
      → IsSound s log
      → IsSound
          (record s { entries = (get hash decode_exp config.ttl token m.now s.entries).0 })
          log
  get-IsSound m token s log (b, h) = (
    omega (arith, get-bounded hash decode_exp config.ttl token m.now s.entries, b),
    get-AllBacked hash decode_exp config.ttl token m.now log s.entries h,
  )

  Reaches-IsSound : (s : OidcState) (log : List Seen) → Reaches s log → IsSound s log
  unfolding resolve_identity
  Reaches-IsSound _ _ (start known) = (omega arith, λ e h. absurd h)
  Reaches-IsSound _ _ (called allow_cached m token s s' log log' r e f) =
      let (entries, cached) = get hash decode_exp config.ttl token m.now s.entries in
      let kept = get-IsSound m token s log (Reaches-IsSound s log r) in
      let now =
        resolve_with-IsSound allow_cached m token (record s { entries = entries }) log cached
          kept in
      subst (λ t. IsSound t log') (sym e)
        (subst
          (λ l.
            IsSound (resolve_identity hash decode_exp parse_url config allow_cached m token s).0 l)
          (sym f) now)

  -- The provider accepts the token during the call.
  abbrev pub AcceptedNow : Moment → String → OidcState → UserInfo → Type 0
  AcceptedNow m token s info = answer m token s ≡ some (accepted info)

  fresh_acceptance :
      (m : Moment) (token : String) (s : OidcState) (x : String × Option Decision) (info : UserInfo)
      → (remembered hash decode_exp parse_url config m token s x).1 ≡ some (accepted info)
      → x.1 ≡ some (accepted info)
  fresh_acceptance m token s (known, none) info h = absurd (cc h)
  fresh_acceptance m token s (known, some d) info h = h

  -- An acceptance that a call brings, from the log of the calls before it.
  abbrev pub Grounded : List Seen → Moment → String → OidcState → UserInfo → Type 0
  Grounded log m token s info =
      AcceptedNow m token s info
      ⊎ ((seen : Seen) × Has seen log
          × (hash seen.token ≡ hash token)
          × (seen.info ≡ info)
          × InTime hash decode_exp config.ttl seen m.now)

  resolved_acceptance :
      (m : Moment) (token : String) (s : OidcState) (log : List Seen) (cached : Option Decision)
      (entries : Entries) (info : UserInfo)
      → AllBacked hash decode_exp config.ttl log s.entries
      → (get hash decode_exp config.ttl token m.now s.entries).1 ≡ cached
      → (resolve_with hash decode_exp parse_url config true m token
          (record s { entries = entries })
          cached).1
        ≡ some (accepted info)
      → Grounded log m token s info
  resolved_acceptance m token s log none entries info h g r =
      inl (fresh_acceptance m token (record s { entries = entries }) _ info r)
  resolved_acceptance m token s log (some (rejected e)) entries info h g r = absurd (cc r)
  resolved_acceptance m token s log (some (accepted i)) entries info h g r =
      inr (get-Backed hash decode_exp config.ttl token m.now log s.entries info h (g ∙ r))

  authentic :
      (d : Option Decision)
      → error_of hash decode_exp parse_url config d ≡ none
      → (info : UserInfo) × (d ≡ some (accepted info))
  authentic none h = absurd (cc h)
  authentic (some (accepted info)) h = (info, refl)
  authentic (some (rejected e)) h = absurd (cc h)

  -- Without the use of remembered acceptances, an acceptance is the provider's.
  resolved_fresh :
      (m : Moment) (token : String) (s : OidcState) (cached : Option Decision) (info : UserInfo)
      → (resolve_with hash decode_exp parse_url config false m token s cached).1
        ≡ some (accepted info)
      → AcceptedNow m token s info
  resolved_fresh m token s none info r = fresh_acceptance m token s _ info r
  resolved_fresh m token s (some (rejected e)) info r = absurd (cc r)
  resolved_fresh m token s (some (accepted i)) info r = fresh_acceptance m token s _ info r

  privileged_by :
      (d : Option Decision)
      → (privileged_of hash decode_exp parse_url config d).0 ≡ true
      → (info : UserInfo) × (d ≡ some (accepted info))
        × (allowed_to_rollback config.privileged_groups info.groups ≡ true)
  privileged_by none h = absurd (cc h)
  privileged_by (some (rejected e)) h = absurd (cc h)
  privileged_by (some (accepted info)) h =
      elim (Bool-cases (allowed_to_rollback config.privileged_groups info.groups)) [
        | inl b ↦ (info, refl, b)
        | inr b ↦ absurd (let q : false ≡ true = rw b at h in cc q)
      ]

  member_of :
      (groups : List String)
      → allowed_to_rollback config.privileged_groups groups ≡ true
      → (group : String) × Has group groups × Has group config.privileged_groups
  unfolding allowed_to_rollback
  member_of [] h = absurd (cc h)
  member_of (g ∷ rest) h = elim (Bool-cases (contains config.privileged_groups g)) [
    | inl b ↦ (g, inl refl, contains-Has config.privileged_groups g b)
    | inr b ↦ let (group, k, p) = member_of rest (rw b at h) in (group, inr k, p)
  ]

-- After any calls, in any order, the cache holds no more than its bound of entries.
pub Reaches-bounded :
    (hash : String → String) (decode_exp : String → Option ℕ) (parse_url : String → Option Url)
    (config : OidcConfig) (s : OidcState) (log : List Seen)
    → Reaches hash decode_exp parse_url config s log
    → length s.entries ≤ max_cache_entries
Reaches-bounded hash decode_exp parse_url config s log r =
    (Reaches-IsSound hash decode_exp parse_url config s log r).0

-- After any calls, in any order: a token that authenticates is one that the provider accepts during the
-- call, or one whose digest is that of a token that the provider accepted earlier, with the same user,
-- no longer ago than the interval and before that token's own expiry.
pub authenticate-Grounded :
    (hash : String → String) (decode_exp : String → Option ℕ) (parse_url : String → Option Url)
    (config : OidcConfig) (s : OidcState) (log : List Seen) (m : Moment) (token : String)
    → Reaches hash decode_exp parse_url config s log
    → (authenticate hash decode_exp parse_url config m token s).1 ≡ none
    → (info : UserInfo) × Grounded hash decode_exp parse_url config log m token s info
unfolding authenticate resolve_identity
authenticate-Grounded hash decode_exp parse_url config s log m token r h =
    let (bound, backed) = Reaches-IsSound hash decode_exp parse_url config s log r in
    let (info, d) = authentic hash decode_exp parse_url config _ h in
    (
      info,
      resolved_acceptance hash decode_exp parse_url config m token s log _ _ info backed refl d,
    )

-- A privileged action is authorized only if the provider accepts the token during the call, and names a
-- group of the user that is privileged: a remembered acceptance is never enough.
pub validate-AcceptedNow :
    (hash : String → String) (decode_exp : String → Option ℕ) (parse_url : String → Option Url)
    (config : OidcConfig) (s : OidcState) (m : Moment) (token : String)
    → (validate hash decode_exp parse_url config m token s).1.0 ≡ true
    → (info : UserInfo) × AcceptedNow hash decode_exp parse_url config m token s info
      × ((group : String) × Has group info.groups × Has group config.privileged_groups)
unfolding validate resolve_identity
validate-AcceptedNow hash decode_exp parse_url config s m token h =
    let (info, d, allowed) = privileged_by hash decode_exp parse_url config _ h in
    (
      info,
      resolved_fresh hash decode_exp parse_url config m token _ _ info d,
      member_of hash decode_exp parse_url config info.groups allowed,
    )
