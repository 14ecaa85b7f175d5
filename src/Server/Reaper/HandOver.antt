-- ===== src/Server/Reaper/HandOver.antt =====
-- internal/server/task_reaper.go: a deployment in flight passes to another replica.
use argo_watcher.Common.{
  ℕ, zero, suc, ◌≤◌, ◌<◌, String, Bool, true, false, ◌&&◌, List, [], ◌∷◌, some, map, select, any,
  length, take, str_eq, eq_iff, eq_refl, if◌then◌else◌, ◌≡◌, refl, sym, subst, ◌∙◌, inl, inr, arith,
  Has, Has-select, Has-map, Has-any, length-map, leb,
}
use argo_watcher.Common.Sort.{sort}
use argo_watcher.Models.Status.{status_in_progress}
use argo_watcher.State.Memory.Listing.{Has-sort}
use argo_watcher.State.Postgres.Listing.{length-sort}
use argo_watcher.State.Lease.{
  Lease, is_claimable, taken_over, released, swept, chosen_ids, claim_expired_tasks,
  release_owned_leases, task_reap_batch_size, is_owned_by,
}
use argo_watcher.Server.Reaper.{Tick, reap, release_task_leases}

Has-take_all :
    {A : Type 0} (n : ℕ) (a : A) (xs : List A) → length xs ≤ n → Has a xs → Has a (take n xs)
Has-take_all zero a [] l h = h
Has-take_all (suc n) a [] l h = h
Has-take_all zero a (x ∷ xs) l h = absurd (omega (arith, l))
Has-take_all (suc n) a (x ∷ xs) l (inl e) = inl e
Has-take_all (suc n) a (x ∷ xs) l (inr h) = inr (Has-take_all n a xs (omega (arith, l)) h)

-- Where the batch holds all claimable rows, each of them is taken over.
claimed_all :
    (owner : String) (limit now : ℕ) (rows : List Lease) (row : Lease)
    → length (select (is_claimable now) rows) ≤ limit
    → Has row rows
    → is_claimable now row ≡ true
    → Has (taken_over owner now row) (claim_expired_tasks owner limit now rows).1
unfolding claim_expired_tasks chosen_ids
claimed_all owner limit now rows row few there claimable =
    let kept = select (is_claimable now) rows in
    let oldest_first : Lease → Lease → Bool = λ a b. leb a.created b.created in
    let ids = map (λ r. r.id) (sort oldest_first kept) in
    let id_there : Has row.id ids =
      Has-map (λ r. r.id) row (sort oldest_first kept)
        (Has-sort oldest_first row kept (Has-select (is_claimable now) row rows there claimable)) in
    let all : length ids ≤ limit =
      subst (λ n. n ≤ limit)
        (sym (length-map (sort oldest_first kept) (λ r. r.id) ∙ length-sort oldest_first kept))
        few in
    let chosen : any (str_eq row.id) (take limit ids) ≡ true =
      Has-any row.id (take limit ids) (Has-take_all limit row.id ids all id_there) in
    let f = swept owner now (take limit ids) in
    let taken : f row ≡ taken_over owner now row = rw chosen refl in
    Has-select (λ r. any (str_eq r.id) (take limit ids)) (taken_over owner now row) (map f rows)
      (subst (λ r. Has r (map f rows)) taken (Has-map f row rows there)) chosen

release-claimable :
    (owner : String) (now later : ℕ) (row : Lease)
    → row.status ≡ status_in_progress
    → now < later
    → is_claimable later (released now row) ≡ true
unfolding is_claimable
release-claimable owner now later row status later_than =
    ground (arith, (eq_iff row.status status_in_progress).1 status)

-- A deployment in flight that a replica releases at its shutdown is taken over at the next tick of any
-- other replica that is not itself shutting down and reaches the database, if no more than a batch of
-- deployments is to be taken over then.
pub hand_over_lem :
    (owner other : String) (now : ℕ) (rows : List Lease) (row : Lease) (tick : Tick)
    → Has row rows
    → row.owner_id ≡ some owner
    → row.status ≡ status_in_progress
    → tick.draining ≡ false
    → tick.fails ≡ false
    → now < tick.now
    → let rows' = release_task_leases owner false now rows in
      length (select (is_claimable tick.now) rows') ≤ task_reap_batch_size
      → Has (taken_over other tick.now (released now row)) (reap other tick rows').1
unfolding reap release_task_leases release_owned_leases
hand_over_lem owner other now rows row tick there mine status draining fails later few =
    let ours : Lease → Bool = λ r. is_owned_by owner r && str_eq r.status status_in_progress in
    let f : Lease → Lease = λ r. if ours r then released now r else r in
    let chosen : ours row ≡ true =
      rw mine (ground (arith, eq_refl owner, (eq_iff row.status status_in_progress).1 status)) in
    let moved : f row ≡ released now row = rw chosen refl in
    simp (draining, fails)
      (claimed_all other task_reap_batch_size tick.now (map f rows) (released now row) few
        (subst (λ r. Has r (map f rows)) moved (Has-map f row rows there))
        (release-claimable owner now tick.now row status later))
