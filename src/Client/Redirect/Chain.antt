-- ===== src/Client/Redirect/Chain.antt =====
-- internal/client/client.go: what holds of every request that a chain of redirects leads to.
use argo_watcher.Common.{
  ℕ, suc, ◌<◌, Bool, true, false, not, ◌&&◌, List, [], ◌∷◌, ◌++◌, str_eq, eq_iff, length,
  length-append, leb, if◌then◌else◌, ◌≡◌, ◌⊎◌, inl, inr, refl, sym, subst, arith, Bool-cases,
}
use argo_watcher.Client.Credential.{Credential, deploy_token_header, del_header}
use argo_watcher.Client.Redirect.{
  Request, RedirectError, refused, followed, guard_redirect, last_of, max_redirects,
}

-- The requests after the first one that the client has sent. What the server's answer and the
-- transport make of the next one, its headers included, is free.
pub data Sent (auth : Credential) (first : Request) : List Request → Type 0 where
  start : Sent auth first []
  redirected :
      (others : List Request) (request request' : Request) (warned : Bool) (all : List Request)
      → Sent auth first others
      → guard_redirect auth first others request ≡ followed request' warned
      → all ≡ others ++ request' ∷ []
      → Sent auth first all

-- A request is safe after the first one: still on https, and with the deploy token only on its host.
abbrev pub Safe : Request → Request → Type 0
Safe first r =
    (first.scheme ≡ "https" → r.scheme ≡ "https")
    × ((r.host ≡ first.host) ⊎ (r.headers deploy_token_header ≡ ""))

abbrev pub AllSafe : Request → List Request → Type 0
AllSafe first [] = Unit {0}
AllSafe first (r ∷ rest) = Safe first r × AllSafe first rest

AllSafe-append :
    (first r : Request) (others : List Request)
    → AllSafe first others
    → Safe first r
    → AllSafe first (others ++ r ∷ [])
AllSafe-append first r [] h s = (s, tt)
AllSafe-append first r (o ∷ rest) (p, h) s = (p, AllSafe-append first r rest h s)

last_https :
    (first previous : Request) (others : List Request)
    → first.scheme ≡ "https"
    → previous.scheme ≡ "https"
    → AllSafe first others
    → (last_of previous others).scheme ≡ "https"
last_https first previous [] f h a = h
last_https first previous (o ∷ rest) f h (s, a) = last_https first o rest f (s.0 f) a

-- One decision of the hook.
abbrev Guarded : Request → Request → ℕ → Request → Type 0
Guarded first previous made r =
    (previous.scheme ≡ "https" → r.scheme ≡ "https")
    × ((r.host ≡ first.host) ⊎ (r.headers deploy_token_header ≡ ""))
    × (suc made < max_redirects)

still_https :
    (previous request : Request)
    → (str_eq previous.scheme "https" && not (str_eq request.scheme "https")) ≡ false
    → previous.scheme ≡ "https"
    → request.scheme ≡ "https"
still_https previous request h p =
    ground (arith, eq_iff previous.scheme "https", eq_iff request.scheme "https")

sent_as :
    (first previous request request' : Request) (made : ℕ) (warns warned : Bool) (host : Bool)
    → str_eq request.host first.host ≡ host
    → (if host
        then followed request false
        else followed
            (record request { headers = del_header deploy_token_header request.headers })
            warns)
      ≡ followed request' warned
    → suc made < max_redirects
    → (previous.scheme ≡ "https" → request.scheme ≡ "https")
    → Guarded first previous made request'
sent_as first previous request request' made warns warned true e h few secure =
    let same : request ≡ request' = cc h in
    subst (Guarded first previous made) same
      (secure, inl ((eq_iff request.host first.host).0 e), few)
sent_as first previous request request' made warns warned false e h few secure =
    let same : record request { headers = del_header deploy_token_header request.headers }
        ≡ request' =
      cc h in
    subst (Guarded first previous made) same (secure, inr refl, few)

refused-followed : (x : RedirectError) (r : Request) (w : Bool) → ¬ (refused x ≡ followed r w)
refused-followed x r w h = cc h

guarded :
    (auth : Credential) (first : Request) (others : List Request) (request request' : Request)
    (warned : Bool)
    → guard_redirect auth first others request ≡ followed request' warned
    → Guarded first (last_of first others) (length others) request'
unfolding guard_redirect
guarded auth first others request request' warned h =
    elim (Bool-cases (leb max_redirects (suc (length others)))) [
      | inl m ↦ absurd (refused-followed _ request' warned (rw m at h))
      | inr m ↦
          elim (Bool-cases
            (str_eq (last_of first others).scheme "https" && not (str_eq request.scheme "https"))) [
              | inl i ↦ absurd (refused-followed _ request' warned (rw (m, i) at h))
              | inr i ↦
                  sent_as first (last_of first others) request request' (length others) _ warned _
                    refl (rw (m, i) at h) (ground (arith, m))
                    (still_https (last_of first others) request i)
            ]
    ]

-- Whatever the servers answer and the transport carries over: of the requests that the client sends
-- after its first one, none leaves https if the first was on it, none presents the deploy token to
-- another host than the first one's, and there are fewer than ten.
pub Sent-AllSafe :
    (auth : Credential) (first : Request) (all : List Request)
    → Sent auth first all
    → AllSafe first all × (length all < max_redirects)
Sent-AllSafe auth first all start = (tt, omega arith)
Sent-AllSafe auth first all (redirected others request request' warned _ sent d e) =
    let (safe, few) = Sent-AllSafe auth first others sent in
    let (secure, bound, count) = guarded auth first others request request' warned d in
    subst (λ l. AllSafe first l × (length l < max_redirects)) (sym e)
      (
        AllSafe-append first request' others safe
            (λ f. secure (last_https first first others f f safe), bound),
        omega (arith, count, length-append {0} others (request' ∷ [])),
      )
