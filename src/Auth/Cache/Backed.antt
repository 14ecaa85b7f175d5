-- ===== src/Auth/Cache/Backed.antt =====
-- internal/auth/oidc_cache.go: a remembered acceptance goes back to one by the provider.
use argo_watcher.Common.{
  ℕ, zero, suc, ◌+◌, ◌≤◌, String, Bool, true, false, not, ◌||◌, List, [], ◌∷◌, ◌++◌, Option, none,
  some, str_eq, eq_iff, length, select, ltb, leb, ◌==◌, if◌then◌else◌, ◌≡◌, ◌≢◌, refl, ◌∙◌, subst,
  inl, inr, arith, Bool-cases, Has, Has-of_select, Has-append_right,
}
use argo_watcher.Auth.Cache.{
  UserInfo, Decision, accepted, rejected, CachedValidation, Entries, max_cache_entries, set_entry,
  remove_at, evict_one, reclaim_expired, is_alive, find_entry, get, get_at, put, entry_ttl,
  cache_ttl, capped, token_expiry,
}

-- A token that the provider accepted, and when.
pub record Seen : Type 0 where
  pub token : String
  pub info : UserInfo
  pub at : ℕ

module _ (hash : String → String) (decode_exp : String → Option ℕ) (ttl : ℕ) where
  -- How long an acceptance may be reused: for the interval, and not beyond the token's own expiry.
  abbrev pub InTime : Seen → ℕ → Type 0
  InTime seen now =
      (now ≤ seen.at + ttl)
      × ((expiry : ℕ) → token_expiry decode_exp seen.token ≡ some expiry → now ≤ expiry)

  -- A remembered acceptance goes back to one by the provider.
  abbrev pub Backed : List Seen → CachedValidation → Type 0
  Backed log e =
      (info : UserInfo)
      → e.decision ≡ accepted info
      → (seen : Seen) × Has seen log
        × (hash seen.token ≡ e.key)
        × (seen.info ≡ info)
        × InTime seen e.expires_at

  abbrev pub AllBacked : List Seen → Entries → Type 0
  AllBacked log entries = (e : CachedValidation) → Has e entries → Backed log e

  Has-find_entry :
      (key : String) (entries : Entries) (e : CachedValidation)
      → find_entry key entries ≡ some e
      → Has e entries × (e.key ≡ key)
  unfolding find_entry
  Has-find_entry key [] e h = absurd (cc h)
  Has-find_entry key (d ∷ rest) e h = elim (Bool-cases (str_eq d.key key)) [
    | inl b ↦
        let same : some d ≡ some e = rw b at h in
        let is_e : d ≡ e = cc same in
        (inl is_e, subst (λ x. x.key ≡ key) is_e ((eq_iff d.key key).0 b))
    | inr b ↦ let (there, k) = Has-find_entry key rest e (rw b at h) in (inr there, k)
  ]

  Has-remove_at :
      (victim : ℕ) (entries : Entries) (e : CachedValidation)
      → Has e (remove_at victim entries)
      → Has e entries
  unfolding remove_at
  Has-remove_at victim [] e h = h
  Has-remove_at zero (d ∷ rest) e h = inr h
  Has-remove_at (suc victim) (d ∷ []) e h = absurd h
  Has-remove_at (suc victim) (d ∷ c ∷ rest) e (inl h) = inl h
  Has-remove_at (suc victim) (d ∷ c ∷ rest) e (inr h) = inr (Has-remove_at victim (c ∷ rest) e h)

  Has-room :
      (now victim : ℕ) (entries : Entries) (e : CachedValidation)
      → Has e (
          if leb max_cache_entries (length entries)
          then evict_one victim (reclaim_expired now entries)
          else entries)
      → Has e entries
  unfolding evict_one reclaim_expired
  Has-room now victim entries e h = elim (Bool-cases (leb max_cache_entries (length entries))) [
    | inr full ↦ rw full at h
    | inl full ↦
        elim (Bool-cases (ltb (length (select (is_alive now) entries)) max_cache_entries)) [
          | inl few ↦ (Has-of_select (is_alive now) e entries (rw (full, few) at h)).0
          | inr many ↦
              (Has-of_select (is_alive now) e entries
                (Has-remove_at victim (select (is_alive now) entries) e (rw (full, many) at h))).0
        ]
  ]

  lifetime-le :
      (now : ℕ) (expiry : Option ℕ) → (if ttl == 0 then 0 else capped ttl now expiry) ≤ ttl
  lifetime-le now none = ground arith
  lifetime-le now (some x) = ground arith

  lifetime_ends :
      (now : ℕ) (expiry : Option ℕ) (x : ℕ)
      → (if ttl == 0 then 0 else capped ttl now expiry) ≢ 0
      → expiry ≡ some x
      → now + (if ttl == 0 then 0 else capped ttl now expiry) ≤ x
  lifetime_ends now none x alive e = absurd (cc e)
  lifetime_ends now (some y) x alive e = ground arith

  lifetime_InTime :
      (token : String) (info : UserInfo) (now : ℕ)
      → cache_ttl decode_exp ttl token now ≢ 0
      → InTime
          (record { token = token; info = info; at = now })
          (now + cache_ttl decode_exp ttl token now)
  unfolding cache_ttl
  lifetime_InTime token info now alive = (
    omega (arith, lifetime-le now (token_expiry decode_exp token)),
    λ x e. lifetime_ends now (token_expiry decode_exp token) x alive e,
  )

  AllBacked-more :
      (seen : List Seen) (log : List Seen) (entries : Entries)
      → AllBacked log entries
      → AllBacked (seen ++ log) entries
  AllBacked-more seen log entries h e there info d =
      let (s, k, a, b, c) = h e there info d in (s, Has-append_right s seen log k, a, b, c)

  -- What a decision adds to the acceptances that were seen.
  abbrev pub heard : String → ℕ → Decision → List Seen
  heard token now (accepted info) = record { token = token; info = info; at = now } ∷ []
  heard token now (rejected e) = []

  new_entry-Backed :
      (token : String) (decision : Decision) (now : ℕ) (log : List Seen)
      → entry_ttl decode_exp ttl token decision now ≢ 0
      → Backed (heard token now decision ++ log) (record {
        key = hash token;
        decision = decision;
        expires_at = now + entry_ttl decode_exp ttl token decision now;
      })
  unfolding entry_ttl
  new_entry-Backed token (accepted info) now log alive i d = (
    record { token = token; info = info; at = now },
    inl refl,
    refl,
    cc d,
    lifetime_InTime token info now alive,
  )
  new_entry-Backed token (rejected e) now log alive i d = absurd (cc d)

  pub put-AllBacked :
      (token : String) (decision : Decision) (now victim : ℕ) (log : List Seen) (entries : Entries)
      → AllBacked log entries
      → AllBacked
          (heard token now decision ++ log)
          (put hash decode_exp ttl token decision now victim entries)
  unfolding put
  put-AllBacked token decision now victim log entries h = stored _ refl
    where
      new : Entries
      new =
          set_entry
            (record {
              key = hash token;
              decision = decision;
              expires_at = now + entry_ttl decode_exp ttl token decision now;
            })
            (if leb max_cache_entries (length entries)
              then evict_one victim (reclaim_expired now entries)
              else entries)

      in_new :
          entry_ttl decode_exp ttl token decision now ≢ 0
          → AllBacked (heard token now decision ++ log) new
      in_new alive e (inl same) =
          subst (Backed (heard token now decision ++ log)) same
            (new_entry-Backed token decision now log alive)
      in_new alive e (inr there) = AllBacked-more (heard token now decision) log entries h e (
          Has-room now victim entries e
            (Has-of_select (λ (d : CachedValidation). not (str_eq d.key (hash token))) e _ there).0)

      stored :
          (skip : Bool)
          → (ttl == 0 || entry_ttl decode_exp ttl token decision now == 0) ≡ skip
          → AllBacked (heard token now decision ++ log) (if skip then entries else new)
      stored true q = AllBacked-more (heard token now decision) log entries h
      stored false q = in_new (λ z. ground (arith, q))

  pub get_at-AllBacked :
      (key : String) (now : ℕ) (log : List Seen) (entries : Entries) (o : Option CachedValidation)
      → AllBacked log entries
      → AllBacked log (get_at key now entries o).0
  get_at-AllBacked key now log entries none h = h
  get_at-AllBacked key now log entries (some e) h = elim (Bool-cases (ltb e.expires_at now)) [
    | inl b ↦ rw b (λ d there.
        h d (Has-of_select (λ (x : CachedValidation). not (str_eq x.key key)) d entries there).0)
    | inr b ↦ rw b h
  ]

  pub get_at-Backed :
      (key : String) (now : ℕ) (log : List Seen) (entries : Entries) (o : Option CachedValidation)
      (info : UserInfo)
      → AllBacked log entries
      → find_entry key entries ≡ o
      → (get_at key now entries o).1 ≡ some (accepted info)
      → (seen : Seen) × Has seen log
        × (hash seen.token ≡ key)
        × (seen.info ≡ info)
        × InTime seen now
  get_at-Backed key now log entries none info h f g = absurd (cc g)
  get_at-Backed key now log entries (some e) info h f g = elim (Bool-cases (ltb e.expires_at now)) [
    | inl b ↦
        absurd (let q : ◌≡◌ {A = Option Decision} none (some (accepted info)) = rw b at g in cc q)
    | inr b ↦
        let q : some e.decision ≡ some (accepted info) = rw b at g in
        let (there, k) = Has-find_entry key entries e f in
        let (seen, held, same, i, (x, y)) = h e there info (cc q) in
        (seen, held, same ∙ k, i, (ground (arith, b, x), λ t u. ground (arith, b, y t u)))
  ]

  pub get-AllBacked :
      (token : String) (now : ℕ) (log : List Seen) (entries : Entries)
      → AllBacked log entries
      → AllBacked log (get hash decode_exp ttl token now entries).0
  unfolding get
  get-AllBacked token now log entries h = elim (Bool-cases (ttl == 0)) [
    | inl z ↦ rw z h
    | inr z ↦
        rw z (get_at-AllBacked (hash token) now log entries (find_entry (hash token) entries) h)
  ]

  pub get-Backed :
      (token : String) (now : ℕ) (log : List Seen) (entries : Entries) (info : UserInfo)
      → AllBacked log entries
      → (get hash decode_exp ttl token now entries).1 ≡ some (accepted info)
      → (seen : Seen) × Has seen log
        × (hash seen.token ≡ hash token)
        × (seen.info ≡ info)
        × InTime seen now
  unfolding get
  get-Backed token now log entries info h g = elim (Bool-cases (ttl == 0)) [
    | inl z ↦
        absurd (let q : ◌≡◌ {A = Option Decision} none (some (accepted info)) = rw z at g in cc q)
    | inr z ↦
        get_at-Backed (hash token) now log entries (find_entry (hash token) entries) info h refl
          (rw z at g)
  ]
