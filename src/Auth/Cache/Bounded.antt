-- ===== src/Auth/Cache/Bounded.antt =====
-- internal/auth/oidc_cache.go: the cache stays within its bound.
use argo_watcher.Common.{
  ℕ, zero, suc, ◌≤◌, ◌<◌, String, Bool, not, List, [], ◌∷◌, Option, none, some, str_eq, length,
  select, leb, if◌then◌else◌, ◌≡◌, refl, arith,
}
use argo_watcher.Auth.Cache.{
  CachedValidation, Decision, Entries, max_cache_entries, remove_at, evict_one, reclaim_expired,
  is_alive, get, get_at, put, find_entry,
}

select-le : {A : Type 0} (p : A → Bool) (xs : List A) → length (select p xs) ≤ length xs
select-le p [] = omega arith
select-le p (x ∷ xs) = ground (arith, select-le p xs)

remove_at-lt :
    (victim : ℕ) (e : CachedValidation) (rest : Entries)
    → suc (length (remove_at victim (e ∷ rest))) ≡ length (e ∷ rest)
unfolding remove_at
remove_at-lt zero e rest = refl
remove_at-lt (suc victim) e [] = refl
remove_at-lt (suc victim) e (d ∷ rest) = omega (arith, remove_at-lt victim d rest)

evict_one-lt :
    (victim : ℕ) (entries : Entries)
    → length entries ≤ max_cache_entries
    → length (evict_one victim entries) < max_cache_entries
unfolding evict_one
evict_one-lt victim [] h = omega arith
evict_one-lt victim (e ∷ rest) h = ground (arith, remove_at-lt victim e rest)

room_left :
    (now victim : ℕ) (entries : Entries)
    → length entries ≤ max_cache_entries
    → length (
        if leb max_cache_entries (length entries)
        then evict_one victim (reclaim_expired now entries)
        else entries)
      < max_cache_entries
unfolding reclaim_expired
room_left now victim entries h =
    ground
      (arith, select-le (is_alive now) entries, evict_one-lt victim (select (is_alive now) entries))

get_at-bounded :
    (key : String) (now : ℕ) (entries : Entries) (o : Option CachedValidation)
    → length (get_at key now entries o).0 ≤ length entries
get_at-bounded key now entries none = omega arith
get_at-bounded key now entries (some e) =
    ground (arith, select-le (λ (d : CachedValidation). not (str_eq d.key key)) entries)

module _ (hash : String → String) (decode_exp : String → Option ℕ) where
  pub put-bounded :
      (ttl : ℕ) (token : String) (decision : Decision) (now victim : ℕ) (entries : Entries)
      → length entries ≤ max_cache_entries
      → length (put hash decode_exp ttl token decision now victim entries) ≤ max_cache_entries
  unfolding put
  put-bounded ttl token decision now victim entries h =
      let room =
        if leb max_cache_entries (length entries)
        then evict_one victim (reclaim_expired now entries)
        else entries in
      ground (
        arith,
        room_left now victim entries h,
        select-le (λ (e : CachedValidation). not (str_eq e.key (hash token))) room,
      )

  pub get-bounded :
      (ttl : ℕ) (token : String) (now : ℕ) (entries : Entries)
      → length (get hash decode_exp ttl token now entries).0 ≤ length entries
  unfolding get
  get-bounded ttl token now entries =
      ground (arith, get_at-bounded (hash token) now entries (find_entry (hash token) entries))
