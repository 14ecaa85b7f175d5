-- ===== src/Argocd/Guard/Exclusive.antt =====
-- internal/argocd/lease_guard.go: a claim is given up before a sweep can take the task over.
use argo_watcher.Common.{
  ℕ, ◌+◌, ◌-◌, ◌≤◌, ◌<◌, String, Bool, true, false, Option, none, some, ◌≡◌, refl, ◌∙◌, ◌⊎◌, inl,
  inr, Bool-cases, arith, leb, if◌then◌else◌, subst,
}
use argo_watcher.State.Lease.{
  Lease, is_claimable, is_owned_by, task_lease_ttl, extended, taken_over,
}
use argo_watcher.Argocd.Guard.{
  LeaseGuard, aged, is_lost, tick, answered, Watch, Step, Reaches, watching, IsDue, new_lease_guard,
  passes, ticks, renews, renews_unseen, fails, sweeps, changes_elsewhere, written, start, then_step,
}

module _ (owner : String) (interval longest slack : ℕ) (room : slack + longest ≤ interval) where
  abbrev Pending : ℕ → ℕ → Option ℕ → Type 0
  Pending now last none = Unit {0}
  Pending now last (some issued) =
      (issued ≤ now) × (issued + interval < last + task_lease_ttl) × (now ≤ issued + longest)

  abbrev Position : Bool → Watch → Type 0
  Position true w =
      (w.guard.issued ≡ none) × (w.guard.last_renewed + task_lease_ttl ≤ w.now + slack)
  Position false w =
      (is_owned_by owner w.row ≡ true)
      × ((expires : ℕ) × (w.row.lease_expires_at ≡ some expires)
          × (w.guard.last_renewed + task_lease_ttl ≤ expires + slack))
      × Pending w.now w.guard.last_renewed w.guard.issued

  abbrev Live : Watch → Type 0
  Live w =
      (w.guard.interval ≡ interval)
      × (w.guard.ttl ≡ task_lease_ttl)
      × (w.guard.last_renewed ≤ w.now)
      × Position w.taken w

  -- The claim is given up, or it is well within its lease.
  abbrev Kept : Watch → Type 0
  Kept w = (w.guard.lost ≡ true) ⊎ Live w

  Pending-later :
      (now later last : ℕ) (issued : Option ℕ)
      → now ≤ later
      → IsDue longest issued later
      → Pending now last issued
      → Pending later last issued
  Pending-later now later last none a b h = tt
  Pending-later now later last (some i) a b (h, k, l) = (omega arith, k, b)

  room_left :
      (last now : ℕ)
      → now + interval < last + task_lease_ttl
      → ¬ (last + task_lease_ttl ≤ now + slack)
  room_left last now a b = omega (arith, room)

  no_room :
      (last expires now issued : ℕ)
      → expires < now
      → last + task_lease_ttl ≤ expires + slack
      → issued + interval < last + task_lease_ttl
      → ¬ (now ≤ issued + longest)
  no_room last expires now issued a b c d = omega (arith, room)

  Position-later :
      (taken : Bool) (w : Watch) (later : ℕ)
      → w.now ≤ later
      → IsDue longest w.guard.issued later
      → Position taken w
      → Position taken (record w { now = later })
  Position-later true w later a b (h, k) = (h, omega arith)
  Position-later false w later a b (h, k, l) =
      (h, k, Pending-later w.now later w.guard.last_renewed w.guard.issued a b l)

  not_aged :
      (now : ℕ) (guard : LeaseGuard)
      → aged now guard ≡ false
      → guard.interval ≡ interval
      → guard.ttl ≡ task_lease_ttl
      → guard.last_renewed ≤ now
      → now + interval < guard.last_renewed + task_lease_ttl
  unfolding aged
  not_aged now guard a i t l = ground (arith)

  Position-tick :
      (taken : Bool) (w : Watch)
      → w.now + interval < w.guard.last_renewed + task_lease_ttl
      → Position taken w
      → Position taken (record w { guard = record w.guard { issued = some w.now } })
  Position-tick true w a (h, k) = absurd (room_left w.guard.last_renewed w.now a k)
  Position-tick false w a (h, k, _) = (h, k, (omega arith, a, omega arith))

  Kept-tick : (w : Watch) → Live w → Kept (record w { guard = tick w.now w.guard })
  unfolding tick
  Kept-tick w (i, t, l, p) = elim (Bool-cases (aged w.now w.guard)) [
    | inl a ↦ rw a (inl refl)
    | inr a ↦ rw a (inr (i, t, l, Position-tick w.taken w (not_aged w.now w.guard a i t l) p))
  ]

  -- The row after the statement of a renewal.
  abbrev renewed : Watch → Lease
  renewed w = if is_owned_by owner w.row then extended w.now w.row else w.row

  issued_in_time :
      (w : Watch) (issued : ℕ)
      → w.guard.issued ≡ some issued
      → Pending w.now w.guard.last_renewed w.guard.issued
      → Pending w.now w.guard.last_renewed (some issued)
  issued_in_time w issued e p = subst (Pending w.now w.guard.last_renewed) e p

  Position-unseen :
      (taken : Bool) (w : Watch) (issued : ℕ)
      → w.guard.issued ≡ some issued
      → w.guard.last_renewed ≤ w.now
      → Position taken w
      → Position taken (record w { row = renewed w; guard = answered issued none w.guard })
  unfolding answered
  Position-unseen true w issued e l (h, k) = cc (e, h)
  Position-unseen false w issued e l (h, k, p) =
      rw h (h, (w.now + task_lease_ttl, refl, omega arith), tt)

  Live-seen :
      (taken : Bool) (w : Watch) (issued : ℕ)
      → w.guard.issued ≡ some issued
      → w.guard.last_renewed ≤ w.now
      → Position taken w
      → let guard' = answered issued (some (is_owned_by owner w.row)) w.guard in
        (guard'.interval ≡ w.guard.interval)
        × (guard'.ttl ≡ w.guard.ttl)
        × (guard'.last_renewed ≤ w.now)
        × Position taken (record w { row = renewed w; guard = guard' })
  unfolding answered
  Live-seen true w issued e l (h, k) = cc (e, h)
  Live-seen false w issued e l (h, k, p) =
      let (early, room', due) = issued_in_time w issued e p in
      rw h (refl, refl, early, (h, (w.now + task_lease_ttl, refl, omega arith), tt))

  Position-fails :
      (taken : Bool) (w : Watch) (issued : ℕ)
      → Position taken w
      → Position taken (record w { guard = answered issued none w.guard })
  unfolding answered
  Position-fails true w issued (h, k) = (refl, k)
  Position-fails false w issued (h, k, p) = (h, k, tt)

  lapsed :
      (now expires : ℕ) (row : Lease)
      → row.lease_expires_at ≡ some expires
      → is_claimable now row ≡ true
      → expires < now
  unfolding is_claimable
  lapsed now expires row e h = ground arith

  not-Pending :
      (now last expires : ℕ) (issued : Option ℕ)
      → expires < now
      → last + task_lease_ttl ≤ expires + slack
      → Pending now last issued
      → issued ≡ none
  not-Pending now last expires none a b p = refl
  not-Pending now last expires (some i) a b (x, y, z) = absurd (no_room last expires now i a b y z)

  Position-sweeps :
      (taken : Bool) (w : Watch) (other : String)
      → is_claimable w.now w.row ≡ true
      → Position taken w
      → Position true (record w { row = taken_over other w.now w.row; taken = true })
  Position-sweeps true w other c p = p
  Position-sweeps false w other c (h, (expires, e, k), p) =
      let late = lapsed w.now expires w.row e c in
      (not-Pending w.now w.guard.last_renewed expires w.guard.issued late k p, omega arith)

  Position-elsewhere :
      (taken : Bool) (w : Watch) (row : Lease)
      → is_owned_by owner w.row ≡ false
      → Position taken w
      → Position taken (record w { row = row })
  Position-elsewhere true w row c p = p
  Position-elsewhere false w row c (h, k, p) = cc (h, c)

  Position-written :
      (taken : Bool) (w : Watch) (status : String)
      → Position taken w
      → Position taken (record w { row = record w.row { status = status } })
  Position-written true w status p = p
  Position-written false w status p = p

  answered_lost :
      (issued : ℕ) (a : Option Bool) (guard : LeaseGuard)
      → guard.lost ≡ true
      → (answered issued a guard).lost ≡ true
  unfolding answered
  answered_lost issued none guard h = h
  answered_lost issued (some true) guard h = h
  answered_lost issued (some false) guard h = refl

  Kept-step_lost :
      (v w : Watch) → Step owner longest v w → v.guard.lost ≡ true → w.guard.lost ≡ true
  Kept-step_lost v w (passes _ later a b) h = h
  Kept-step_lost v w (ticks _ a b) h = cc (a, h)
  Kept-step_lost v w (renews _ i e) h = answered_lost i (some (is_owned_by owner v.row)) v.guard h
  Kept-step_lost v w (renews_unseen _ i e) h = answered_lost i none v.guard h
  Kept-step_lost v w (fails _ i e) h = answered_lost i none v.guard h
  Kept-step_lost v w (sweeps _ other c) h = h
  Kept-step_lost v w (changes_elsewhere _ row c) h = h
  Kept-step_lost v w (written _ status) h = h

  Kept-step-Live : (v w : Watch) → Step owner longest v w → Live v → Kept w
  unfolding answered
  Kept-step-Live v w (passes _ later a b) (i, t, l, p) =
      inr (i, t, omega arith, Position-later v.taken v later a b p)
  Kept-step-Live v w (ticks _ a b) live = Kept-tick v live
  Kept-step-Live v w (renews _ n e) (i, t, l, p) =
      let (i', t', l', p') = Live-seen v.taken v n e l p in inr (i' ∙ i, t' ∙ t, l', p')
  Kept-step-Live v w (renews_unseen _ n e) (i, t, l, p) =
      inr (i, t, l, Position-unseen v.taken v n e l p)
  Kept-step-Live v w (fails _ n e) (i, t, l, p) = inr (i, t, l, Position-fails v.taken v n p)
  Kept-step-Live v w (sweeps _ other c) (i, t, l, p) =
      inr (i, t, l, Position-sweeps v.taken v other c p)
  Kept-step-Live v w (changes_elsewhere _ row c) (i, t, l, p) =
      inr (i, t, l, Position-elsewhere v.taken v row c p)
  Kept-step-Live v w (written _ status) (i, t, l, p) =
      inr (i, t, l, Position-written v.taken v status p)

  Kept-Reaches : (u w : Watch) → Reaches owner longest u w → Kept u → Kept w
  Kept-Reaches u w (start _) k = k
  Kept-Reaches u w (then_step _ v _ r s) k = elim (Kept-Reaches u v r k) [
    | inl h ↦ inl (Kept-step_lost v w s h)
    | inr h ↦ Kept-step-Live v w s h
  ]

  aged_of_late :
      (last now ttl interval' : ℕ)
      → interval' ≡ interval
      → ttl ≡ task_lease_ttl
      → last ≤ now
      → last + task_lease_ttl ≤ now + slack
      → leb ttl (now - last + interval') ≡ true
  aged_of_late last now ttl interval' i t l h = ground (arith, room)

  lost_of_taken : (w : Watch) → Kept w → w.taken ≡ true → is_lost w.now w.guard ≡ true
  unfolding is_lost aged
  lost_of_taken w (inl h) t = rw h refl
  lost_of_taken w (inr (i, t', l, p)) t =
      let (h, late) = subst (λ b. Position b w) t p in
      let old = aged_of_late w.guard.last_renewed w.now w.guard.ttl w.guard.interval i t' l late in
      ground (arith, old)

-- Once a sweep has taken the task over, be it one of the same process, the guard reports the claim as
-- lost from then on, up to a shutdown of its replica. The guard is created within `slack` of the claim, and a statement of a
-- renewal ends within `longest`, which together are no longer than the interval of the renewals.
pub taken-is_lost :
    (owner : String) (interval longest slack now expires : ℕ) (row : Lease) (w : Watch)
    → slack + longest ≤ interval
    → is_owned_by owner row ≡ true
    → row.lease_expires_at ≡ some expires
    → now + task_lease_ttl ≤ expires + slack
    → Reaches owner longest (watching now interval row) w
    → w.taken ≡ true
    → is_lost w.now w.guard ≡ true
unfolding new_lease_guard
taken-is_lost owner interval longest slack now expires row w room mine e fresh r t =
    let kept : Kept owner interval longest slack room (watching now interval row) =
      inr (refl, refl, omega arith, (mine, (expires, e, fresh), tt)) in
    lost_of_taken owner interval longest slack room w
      (Kept-Reaches owner interval longest slack room (watching now interval row) w r kept) t
