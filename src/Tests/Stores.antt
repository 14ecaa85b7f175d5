-- ===== src/Tests/Stores.antt =====
-- Examples for the stores of internal/state.
use argo_watcher.Common.{
  true, false, List, [], ◌∷◌, some, ◌≡◌, ◌≢◌, refl, sym, ◌∙◌, inl, inr, str_eq, Has, arith, ap,
}
use argo_watcher.Common.Sort.{sort, insert}
use argo_watcher.Models.Status.{status_in_progress}
use argo_watcher.State.Memory.{InMemoryState, cancel_in_progress_tasks}
use argo_watcher.State.Memory.Superseded.{Ends, cancel_in_progress_tasks-Ends}
use argo_watcher.State.Lease.{
  Lease, is_claimable, taken_over, claim_expired_tasks, chosen_ids, renew_lease,
}
use argo_watcher.State.Lease.Sweep.{HasKey, claim_expired_tasks_lem}
use argo_watcher.State.Lease.Sweep.Exclusive.{Quiet, quiet, renews, claim_expired_tasks_exclusive}
use argo_watcher.Tests.{api_task}

-- Another image of the same application, and a deployment of another application.
abbrev in_flight : InMemoryState
in_flight = record {
  tasks =
      api_task
      ∷ record api_task { id = "2"; images = record { image = "reg/db"; tag = "v1" } ∷ [] }
      ∷ record api_task { id = "3"; app = "web" }
      ∷ [];
}

cancel_example :
    Ends "api" api_task.images "newer" true 150 in_flight.tasks
      (cancel_in_progress_tasks "api" api_task.images "newer" true 150 in_flight).0.tasks
      (cancel_in_progress_tasks "api" api_task.images "newer" true 150 in_flight).1
    × ((cancel_in_progress_tasks "api" api_task.images "newer" true 150
          (cancel_in_progress_tasks "api" api_task.images "newer" true 150 in_flight).0).1
        ≡ 0)
cancel_example = cancel_in_progress_tasks-Ends "api" api_task.images "newer" true 150 in_flight

abbrev lapsed_claim : Lease
lapsed_claim = record {
  id = "1";
  owner_id = some "a";
  lease_expires_at = some 10;
  status = status_in_progress;
  created = 0;
}

abbrev claims : List Lease
claims = lapsed_claim ∷ []

claims-HasKey : HasKey claims
claims-HasKey a b (inl h) (inl k) e = sym h ∙ k
claims-HasKey a b (inl h) (inr x) e = absurd x
claims-HasKey a b (inr x) k e = absurd x

abbrev taken_claim : Lease
taken_claim = taken_over "b" 20 lapsed_claim

claim_example :
    (Has taken_claim (claim_expired_tasks "b" 5 20 claims).1
      → (before : Lease) × Has before claims
        × (is_claimable 20 before ≡ true)
        × (taken_claim ≡ taken_over "b" 20 before))
    × (Has taken_claim claims
        → is_claimable 20 taken_claim ≡ false
        → Has taken_claim (claim_expired_tasks "b" 5 20 claims).0)
claim_example = claim_expired_tasks_lem "b" 5 20 claims claims-HasKey taken_claim

abbrev other_claim : Lease
other_claim = record lapsed_claim { id = "2" }

abbrev two_claims : List Lease
two_claims = lapsed_claim ∷ other_claim ∷ []

distinct : lapsed_claim.id ≢ other_claim.id
distinct e = let h : false ≡ true = ap (λ s. str_eq s "2") e in ground (arith, h)

two_claims-HasKey : HasKey two_claims
two_claims-HasKey a b (inl h) (inl k) e = sym h ∙ k
two_claims-HasKey a b (inl h) (inr (inl k)) e =
    absurd (distinct (ap (λ r. r.id) h ∙ e ∙ sym (ap (λ r. r.id) k)))
two_claims-HasKey a b (inr (inl h)) (inl k) e =
    absurd (distinct (ap (λ r. r.id) k ∙ sym e ∙ sym (ap (λ r. r.id) h)))
two_claims-HasKey a b (inr (inl h)) (inr (inl k)) e = sym h ∙ k
two_claims-HasKey a b (inl h) (inr (inr x)) e = absurd x
two_claims-HasKey a b (inr (inl h)) (inr (inr x)) e = absurd x
two_claims-HasKey a b (inr (inr x)) k e = absurd x

-- In between, the claim is renewed.
abbrev between : List Lease
between = (renew_lease "b" "1" 25 (claim_expired_tasks "b" 1 20 two_claims).0).0

renewed : Quiet 20 (claim_expired_tasks "b" 1 20 two_claims).0 between
renewed = renews "b" "1" 25 (claim_expired_tasks "b" 1 20 two_claims).0 (omega arith) quiet

exclusive_example : lapsed_claim.id ≢ other_claim.id
unfolding claim_expired_tasks chosen_ids is_claimable renew_lease sort insert
exclusive_example =
    claim_expired_tasks_exclusive "b" "c" 1 1 20 30 two_claims between two_claims-HasKey
      (omega arith) taken_claim (taken_over "c" 30 other_claim) (inl refl) renewed (inl refl)
