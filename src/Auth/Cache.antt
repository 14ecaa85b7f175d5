-- ===== src/Auth/Cache.antt =====
-- internal/auth/oidc_cache.go: the provider's decisions that are remembered. Instants and durations are
-- nanoseconds; an interval of 0, as one below it, disables the cache. The entries are listed in the
-- order in which Go happens to walk their map.
pub mod Bounded
pub mod Backed
use argo_watcher.Common.{
  ℕ, zero, suc, ◌+◌, ◌-◌, ◌*◌, String, Bool, true, false, not, ◌||◌, List, [], ◌∷◌, Option, none,
  some, str_eq, length, select, ltb, leb, ◌==◌, if◌then◌else◌,
}
use argo_watcher.Common.Split.{split}
use argo_watcher.Auth.{AuthError}

-- `userInfoResponse`.
pub record UserInfo : Type 0 where
  pub username : String
  pub groups : List String

-- What the provider says of a token.
pub data Decision : Type 0 where
  accepted : UserInfo → Decision
  rejected : AuthError → Decision

-- `cachedValidation`, with its key.
pub record CachedValidation : Type 0 where
  pub key : String
  pub decision : Decision
  pub expires_at : ℕ

abbrev pub max_cache_entries : ℕ
max_cache_entries = 10000

abbrev pub negative_cache_ttl : ℕ
negative_cache_ttl = 30 * 1000000000

abbrev pub Entries : Type 0
Entries = List CachedValidation

unfoldable pub find_entry : String → Entries → Option CachedValidation
find_entry key [] = none
find_entry key (e ∷ rest) = if str_eq e.key key then some e else find_entry key rest

abbrev pub delete_entry : String → Entries → Entries
delete_entry key entries = select (λ e. not (str_eq e.key key)) entries

-- `m[key] = entry`.
abbrev pub set_entry : CachedValidation → Entries → Entries
set_entry e entries = e ∷ delete_entry e.key entries

-- The second part of a token of three, decoded to its `exp` in seconds.
abbrev pub expiry_in : (String → Option ℕ) → List String → Option ℕ
expiry_in decode_exp (header ∷ payload ∷ signature ∷ []) = decode_exp payload
expiry_in decode_exp other = none

-- `tokenExpiry`; an `exp` of 0 is none.
unfoldable pub token_expiry : (String → Option ℕ) → String → Option ℕ
token_expiry decode_exp token = elim (expiry_in decode_exp (split b'.' token)) [
  | none ↦ none
  | some seconds ↦ if seconds == 0 then none else some (seconds * 1000000000)
]

abbrev pub capped : ℕ → ℕ → Option ℕ → ℕ
capped configured now none = configured
capped configured now (some expiry) =
    if leb expiry now then 0 else if ltb (expiry - now) configured then expiry - now else configured

-- `cacheTTL`.
unfoldable pub cache_ttl : (String → Option ℕ) → ℕ → String → ℕ → ℕ
cache_ttl decode_exp configured token now =
    if configured == 0 then 0 else capped configured now (token_expiry decode_exp token)

-- `entryTTL`.
unfoldable pub entry_ttl : (String → Option ℕ) → ℕ → String → Decision → ℕ → ℕ
entry_ttl decode_exp ttl token (accepted info) now = cache_ttl decode_exp ttl token now
entry_ttl decode_exp ttl token (rejected e) now =
    if ltb ttl negative_cache_ttl then ttl else negative_cache_ttl

abbrev pub is_alive : ℕ → CachedValidation → Bool
is_alive now e = not (ltb e.expires_at now)

-- `reclaimExpiredLocked`.
unfoldable pub reclaim_expired : ℕ → Entries → Entries
reclaim_expired now entries = select (is_alive now) entries

-- The entries without the one at `victim`, or without the last if there are fewer.
unfoldable pub remove_at : ℕ → Entries → Entries
remove_at victim [] = []
remove_at zero (e ∷ rest) = rest
remove_at (suc victim) (e ∷ []) = []
remove_at (suc victim) (e ∷ d ∷ rest) = e ∷ remove_at victim (d ∷ rest)

-- `evictOneLocked`; which entry it drops is an argument.
unfoldable pub evict_one : ℕ → Entries → Entries
evict_one victim entries =
    if ltb (length entries) max_cache_entries then entries else remove_at victim entries

abbrev pub get_at : String → ℕ → Entries → Option CachedValidation → Entries × Option Decision
get_at key now entries none = (entries, none)
get_at key now entries (some e) =
    if ltb e.expires_at now then (delete_entry key entries, none) else (entries, some e.decision)

module _ (hash : String → String) (decode_exp : String → Option ℕ) where
  -- `get`, by the token's digest.
  unfoldable pub get : ℕ → String → ℕ → Entries → Entries × Option Decision
  get ttl token now entries =
      if ttl == 0
      then (entries, none)
      else get_at (hash token) now entries (find_entry (hash token) entries)

  -- `put`.
  unfoldable pub put : ℕ → String → Decision → ℕ → ℕ → Entries → Entries
  put ttl token decision now victim entries =
      let lifetime = entry_ttl decode_exp ttl token decision now in
      let room =
        if leb max_cache_entries (length entries)
        then evict_one victim (reclaim_expired now entries)
        else entries in
      if ttl == 0 || lifetime == 0
      then entries
      else set_entry (record { key = hash token; decision = decision; expires_at = now + lifetime })
          room
