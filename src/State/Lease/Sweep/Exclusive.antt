-- ===== src/State/Lease/Sweep/Exclusive.antt =====
-- internal/state/lease.go: a claim that was taken over is left alone while it lasts, whatever else the
-- replicas do to the table.
use argo_watcher.Common.{
  ℕ, ◌+◌, ◌≤◌, String, Bool, false, ◌&&◌, List, some, map, str_eq, any, ◌≡◌, ◌≢◌, ◌⊎◌, refl, sym,
  ap, ◌∙◌, inl, inr, Bool-cases, arith, Has, Has-of_map, if◌then◌else◌,
}
use argo_watcher.Models.Status.{status_in_progress}
use argo_watcher.State.Lease.{
  Lease, task_lease_ttl, is_claimable, is_owned_by, taken_over, extended, chosen_ids, claim_task,
  renew_lease, claim_expired_tasks,
}
use argo_watcher.State.Lease.Sweep.{HasKey, HasKey-swept, claimed-rows, claim_expired_tasks_lem}

-- From the time `now` on, statements on the table: takeovers, renewals and claims by any replica, and
-- any others that leave the identifiers and the leases as they are, such as an update of a status.
pub data Quiet (now : ℕ) (rows : List Lease) : List Lease → Type 0 where
  quiet : Quiet now rows rows
  sweeps :
      (owner : String) (limit later : ℕ) (between : List Lease)
      → now ≤ later
      → Quiet now rows between
      → Quiet now rows (claim_expired_tasks owner limit later between).0
  renews :
      (owner id : String) (later : ℕ) (between : List Lease)
      → now ≤ later
      → Quiet now rows between
      → Quiet now rows (renew_lease owner id later between).0
  claims :
      (owner id : String) (later : ℕ) (between : List Lease)
      → now ≤ later
      → Quiet now rows between
      → Quiet now rows (claim_task owner id later between)
  leaves :
      (f : Lease → Lease) (between : List Lease)
      → ((x : Lease) → (f x).id ≡ x.id)
      → ((x : Lease) → (f x).lease_expires_at ≡ x.lease_expires_at)
      → Quiet now rows between
      → Quiet now rows (map f between)

-- The row of the task is held until the deadline at least, and there is one of an identifier.
abbrev Held : String → ℕ → List Lease → Type 0
Held id deadline rows =
    HasKey rows
    × ((x : Lease)
        → Has x rows
        → x.id ≡ id
        → (e : ℕ) × (x.lease_expires_at ≡ some e) × (deadline ≤ e))

-- A row keeps its identifier, and its lease or a new one of the whole TTL.
abbrev Prolongs : ℕ → (Lease → Lease) → Type 0
Prolongs later f =
    (x : Lease)
    → ((f x).id ≡ x.id)
      × (((f x).lease_expires_at ≡ x.lease_expires_at)
          ⊎ ((f x).lease_expires_at ≡ some (later + task_lease_ttl)))

Held-map :
    (id : String) (now later : ℕ) (f : Lease → Lease) (rows : List Lease)
    → now ≤ later
    → Prolongs later f
    → Held id (now + task_lease_ttl) rows
    → Held id (now + task_lease_ttl) (map f rows)
Held-map id now later f rows after p (key, held) = (
  λ a b h k e.
      let (x, hx, ex) = Has-of_map f a rows h in
      let (y, hy, ey) = Has-of_map f b rows k in
      let ids : x.id ≡ y.id =
        sym (p x).0 ∙ ap (λ r. r.id) ex ∙ e ∙ ap (λ r. r.id) (sym ey) ∙ (p y).0 in
      sym ex ∙ ap f (key x y hx hy ids) ∙ ey,
  λ a h e.
      let (x, hx, ex) = Has-of_map f a rows h in
      let lease : (f x).lease_expires_at ≡ a.lease_expires_at = ap (λ r. r.lease_expires_at) ex in
      let (until, l, d) = held x hx (sym (p x).0 ∙ ap (λ r. r.id) ex ∙ e) in
      elim (p x).1 [
        | inl same ↦ (until, sym lease ∙ same ∙ l, d)
        | inr new ↦ (later + task_lease_ttl, sym lease ∙ new, omega (arith, after))
      ],
)

Prolongs-if :
    (later : ℕ) (test : Lease → Bool) (f : Lease → Lease)
    → ((x : Lease) → (f x).id ≡ x.id)
    → ((x : Lease) → (f x).lease_expires_at ≡ some (later + task_lease_ttl))
    → Prolongs later (λ row. if test row then f row else row)
Prolongs-if later test f ids leases x = elim (Bool-cases (test x)) [
  | inl e ↦ rw e (ids x, inr (leases x))
  | inr e ↦ rw e (refl, inl refl)
]

Quiet-Held :
    (id : String) (now : ℕ) (rows between : List Lease)
    → Quiet now rows between
    → Held id (now + task_lease_ttl) rows
    → Held id (now + task_lease_ttl) between
unfolding claim_expired_tasks renew_lease claim_task
Quiet-Held id now rows between quiet h = h
Quiet-Held id now rows between (sweeps owner limit later rest after q) h =
    Held-map id now later _ rest after
      (Prolongs-if later (λ row. any (str_eq row.id) (chosen_ids limit later rest))
        (taken_over owner later) (λ x. refl) (λ x. refl))
      (Quiet-Held id now rows rest q h)
Quiet-Held id now rows between (renews owner task later rest after q) h =
    Held-map id now later _ rest after
      (Prolongs-if later (λ row. str_eq row.id task && is_owned_by owner row) (extended later)
        (λ x. refl) (λ x. refl))
      (Quiet-Held id now rows rest q h)
Quiet-Held id now rows between (claims owner task later rest after q) h =
    Held-map id now later _ rest after
      (Prolongs-if later (λ row. str_eq row.id task) (taken_over owner later) (λ x. refl)
        (λ x. refl))
      (Quiet-Held id now rows rest q h)
Quiet-Held id now rows between (leaves f rest ids leases q) h =
    Held-map id now now f rest (omega arith) (λ x. (ids x, inl (leases x)))
      (Quiet-Held id now rows rest q h)

held_not_claimable :
    (now later until : ℕ) (x : Lease)
    → later ≤ now + task_lease_ttl
    → x.lease_expires_at ≡ some until
    → now + task_lease_ttl ≤ until
    → is_claimable later x ≡ false
unfolding is_claimable
held_not_claimable now later until x soon e d =
    elim (Bool-cases (str_eq x.status status_in_progress)) [
      | inl s ↦ rw (s, e) (ground (arith, soon, d))
      | inr s ↦ rw s refl
    ]

taken-Held :
    (owner : String) (limit now : ℕ) (rows : List Lease) (a : Lease)
    → HasKey rows
    → Has a (claim_expired_tasks owner limit now rows).1
    → Held a.id (now + task_lease_ttl) (claim_expired_tasks owner limit now rows).0
taken-Held owner limit now rows a key h =
    let (x, _, _, e) = (claim_expired_tasks_lem owner limit now rows key a).0 h in
    let distinct = HasKey-swept owner limit now rows key in
    (
      distinct,
      λ y there same.
          let one : y ≡ a = distinct y a there (claimed-rows owner limit now rows key a h) same in
          (now + task_lease_ttl, ap (λ r. r.lease_expires_at) (one ∙ e), omega arith),
    )

-- A claim that a sweep took over is not taken over by another sweep, of this replica or another one,
-- within the TTL: whatever takeovers, renewals and claims there are in between, at the time of the
-- first sweep or later, and whatever else that leaves the identifiers and the leases of the rows. A
-- release of the claim is not among them. The rows have distinct identifiers.
pub claim_expired_tasks_exclusive :
    (owner other : String) (limit limit' now later : ℕ) (rows between : List Lease)
    → HasKey rows
    → later ≤ now + task_lease_ttl
    → (a b : Lease) → Has a (claim_expired_tasks owner limit now rows).1
    → Quiet now (claim_expired_tasks owner limit now rows).0 between
    → Has b (claim_expired_tasks other limit' later between).1
    → a.id ≢ b.id
claim_expired_tasks_exclusive owner other limit limit' now later rows between key soon a b h q k e =
    let (distinct, held) =
      Quiet-Held a.id now _ between q (taken-Held owner limit now rows a key h) in
    let (y, hy, cy, ey) = (claim_expired_tasks_lem other limit' later between distinct b).0 k in
    let (until, l, d) = held y hy (sym (e ∙ ap (λ r. r.id) ey)) in
    cc (cy, held_not_claimable now later until y soon l d)
