-- ===== src/State/Lease/Sweep.antt =====
-- internal/state/lease.go: which claims a sweep takes over.
pub mod Exclusive
use argo_watcher.Common.{
  ℕ, String, Bool, true, false, List, map, str_eq, any, select, ◌≡◌, ◌≢◌, refl, sym, ap, subst, ◌∙◌,
  inl, inr, Bool-cases, arith, Has, Has-of_select, Has-map, Has-of_any, Has-take, Has-of_map,
}
use argo_watcher.Common.Sort.{sort}
use argo_watcher.State.Memory.Listing.{Has-of_sort}
use argo_watcher.State.Lease.{
  Lease, task_lease_ttl, is_claimable, taken_over, chosen_ids, claim_expired_tasks, swept,
}

-- The primary key of the table.
abbrev pub HasKey : List Lease → Type 0
HasKey rows = (a b : Lease) → Has a rows → Has b rows → a.id ≡ b.id → a ≡ b

chosen_ids-claimable :
    (limit now : ℕ) (rows : List Lease) (id : String)
    → Has id (chosen_ids limit now rows)
    → (row : Lease) × Has row rows × (is_claimable now row ≡ true) × (row.id ≡ id)
unfolding chosen_ids
chosen_ids-claimable limit now rows id h =
    let kept = select (is_claimable now) rows in
    let (row, k, e) =
      Has-of_map (λ row. row.id) id (sort _ kept) (Has-take limit id (map _ (sort _ kept)) h) in
    let (there, claimable) = Has-of_select (is_claimable now) row rows (Has-of_sort _ row kept k) in
    (row, there, claimable, e)

module _ (owner : String) (limit now : ℕ) (rows : List Lease) (key : HasKey rows) where
  abbrev is_chosen : Lease → Bool
  is_chosen row = any (str_eq row.id) (chosen_ids limit now rows)

  chosen-claimable : (a : Lease) → Has a rows → is_chosen a ≡ true → is_claimable now a ≡ true
  chosen-claimable a there h =
      let (row, k, claimable, e) =
        chosen_ids-claimable limit now rows a.id (Has-of_any a.id (chosen_ids limit now rows) h) in
      subst (λ x. is_claimable now x ≡ true) (key row a k there e) claimable

  swept-id : (a : Lease) → (swept owner now (chosen_ids limit now rows) a).id ≡ a.id
  swept-id a = ground arith

  pub HasKey-swept : HasKey (claim_expired_tasks owner limit now rows).0
  unfolding claim_expired_tasks
  HasKey-swept a b h k e =
      let f = swept owner now (chosen_ids limit now rows) in
      let (x, hx, ex) = Has-of_map f a rows h in
      let (y, hy, ey) = Has-of_map f b rows k in
      let same : x ≡ y =
        key x y hx hy (cc (swept-id x, swept-id y, ap (λ r. r.id) ex, ap (λ r. r.id) ey, e)) in
      cc (ex, ey, ap f same)

  swept_chosen :
      (a : Lease)
      → is_chosen a ≡ true
      → swept owner now (chosen_ids limit now rows) a ≡ taken_over owner now a
  swept_chosen a h = rw h refl

  swept_fresh :
      (a : Lease)
      → Has a rows
      → is_claimable now a ≡ false
      → swept owner now (chosen_ids limit now rows) a ≡ a
  swept_fresh a there fresh = elim (Bool-cases (is_chosen a)) [
    | inl e ↦ cc (chosen-claimable a there e, fresh)
    | inr e ↦ rw e refl
  ]

  pub claimed-rows :
      (a : Lease)
      → let (rows', claimed) = claim_expired_tasks owner limit now rows in
        Has a claimed → Has a rows'
  unfolding claim_expired_tasks
  claimed-rows a h =
      (Has-of_select is_chosen a (map (swept owner now (chosen_ids limit now rows)) rows) h).0

  -- What a sweep takes over had lapsed, and it is then held by the sweeping replica for a whole TTL; a
  -- claim that has not lapsed stays as it was. The rows have distinct ids.
  pub claim_expired_tasks_lem :
      (a : Lease)
      → let (rows', claimed) = claim_expired_tasks owner limit now rows in
        (Has a claimed
          → (before : Lease) × Has before rows
            × (is_claimable now before ≡ true)
            × (a ≡ taken_over owner now before))
        × (Has a rows → is_claimable now a ≡ false → Has a rows')
  unfolding claim_expired_tasks
  claim_expired_tasks_lem a = (
    λ h.
        let f = swept owner now (chosen_ids limit now rows) in
        let (there, chosen) = Has-of_select is_chosen a (map f rows) h in
        let (x, hx, ex) = Has-of_map f a rows there in
        let chosen' : is_chosen x ≡ true =
          ap (λ i. any (str_eq i) (chosen_ids limit now rows))
            (sym (swept-id x) ∙ ap (λ r. r.id) ex)
          ∙ chosen in
        (x, hx, chosen-claimable x hx chosen', sym ex ∙ swept_chosen x chosen'),
    λ h fresh.
        subst (λ x. Has x (map (swept owner now (chosen_ids limit now rows)) rows))
          (swept_fresh a h fresh) (Has-map (swept owner now (chosen_ids limit now rows)) a rows h),
  )
