-- ===== src/Models/Rollout/Verdict.antt =====
-- What `GetRolloutStatus` decides, said without the order of its tests.
use argo_watcher.Common.{
  String, Bool, true, false, List, [], ◌∷◌, ◌≡◌, refl, ◌≢◌, ◌↔◌, ◌⊎◌, inl, inr, ◌⧺◌, Has,
  contains-Has, Has-contains, eq_iff, Bool-cases, text_cases, sym, subst, ◌∙◌, arith,
}
use argo_watcher.Helpers.Images.{images_contains}
use argo_watcher.Models.Application.{Application}
use argo_watcher.Models.Rollout.{
  rollout_success, rollout_not_synced, rollout_not_available, rollout_not_healthy, rollout_degraded,
  all_available, get_rollout_status,
}

-- The image runs, under its own name or through the registry proxy.
abbrev pub IsRunning : List String → String → String → Type 0
IsRunning current registry_proxy image =
    Has image current ⊎ ((registry_proxy ≢ "") × Has (registry_proxy ⧺ "/" ⧺ image) current)

abbrev pub AllRunning : List String → String → List String → Type 0
AllRunning current registry_proxy [] = Unit {0}
AllRunning current registry_proxy (image ∷ rest) =
    IsRunning current registry_proxy image × AllRunning current registry_proxy rest

pub images_contains-IsRunning :
    (current : List String) (image proxy : String)
    → images_contains current image proxy ≡ true
    → IsRunning current proxy image
unfolding images_contains
images_contains-IsRunning current image proxy h =
    ground (
      arith,
      eq_iff proxy "",
      contains-Has current image,
      contains-Has current (proxy ⧺ "/" ⧺ image),
    )

pub IsRunning-images_contains :
    (current : List String) (image proxy : String)
    → IsRunning current proxy image
    → images_contains current image proxy ≡ true
unfolding images_contains
IsRunning-images_contains current image proxy h =
    ground (
      arith,
      eq_iff proxy "",
      Has-contains current image,
      Has-contains current (proxy ⧺ "/" ⧺ image),
    )

all_available-AllRunning :
    (current images : List String) (proxy : String)
    → all_available current images proxy ≡ true
    → AllRunning current proxy images
unfolding all_available
all_available-AllRunning current [] proxy h = tt
all_available-AllRunning current (image ∷ rest) proxy h = ground (
  arith,
  images_contains-IsRunning current image proxy,
  all_available-AllRunning current rest proxy,
)

AllRunning-all_available :
    (current images : List String) (proxy : String)
    → AllRunning current proxy images
    → all_available current images proxy ≡ true
unfolding all_available
AllRunning-all_available current [] proxy h = refl
AllRunning-all_available current (image ∷ rest) proxy h = ground (
  arith,
  IsRunning-images_contains current image proxy h.0,
  AllRunning-all_available current rest proxy h.1,
)

-- The five answers, each with the conditions under which it is the answer.
pub data Verdict (app : Application) (images : List String) (proxy : String) (accept : Bool)
    (status : String) : Type 0 where
  missing :
      ¬ AllRunning app.status.images proxy images
      → status ≡ rollout_not_available
      → Verdict app images proxy accept status
  degraded :
      AllRunning app.status.images proxy images
      → app.status.health_status ≡ "Degraded"
      → app.status.sync_status ≢ "OutOfSync"
      → status ≡ rollout_degraded
      → Verdict app images proxy accept status
  not_synced :
      AllRunning app.status.images proxy images
      → app.status.sync_status ≢ "Synced"
      → (app.status.health_status ≢ "Degraded") ⊎ (app.status.sync_status ≡ "OutOfSync")
      → status ≡ rollout_not_synced
      → Verdict app images proxy accept status
  success :
      AllRunning app.status.images proxy images
      → app.status.sync_status ≡ "Synced"
      → (app.status.health_status ≡ "Healthy")
        ⊎ ((app.status.health_status ≡ "Suspended") × (accept ≡ true))
      → status ≡ rollout_success
      → Verdict app images proxy accept status
  not_healthy :
      AllRunning app.status.images proxy images
      → app.status.sync_status ≡ "Synced"
      → app.status.health_status ≢ "Healthy"
      → app.status.health_status ≢ "Degraded"
      → (app.status.health_status ≢ "Suspended") ⊎ (accept ≡ false)
      → status ≡ rollout_not_healthy
      → Verdict app images proxy accept status

out_of_sync≢synced : ◌≢◌ {A = String} "Synced" "OutOfSync"
out_of_sync≢synced = ground (arith, eq_iff "Synced" "OutOfSync")

module _ (app : Application) (images : List String) (proxy : String) (accept : Bool) where
  of_Verdict :
      (status : String)
      → Verdict app images proxy accept status
      → get_rollout_status app images proxy accept ≡ status
  unfolding get_rollout_status
  of_Verdict status (missing absent e) =
      elim (Bool-cases (all_available app.status.images images proxy)) [
        | inl b ↦ absurd (absent (all_available-AllRunning app.status.images images proxy b))
        | inr b ↦ ground arith
      ]
  of_Verdict status (degraded all h s e) = ground (
    arith,
    AllRunning-all_available app.status.images images proxy all,
    eq_iff app.status.health_status "Degraded",
    eq_iff app.status.sync_status "OutOfSync",
  )
  of_Verdict status (not_synced all s h e) = ground (
    arith,
    AllRunning-all_available app.status.images images proxy all,
    eq_iff app.status.health_status "Degraded",
    eq_iff app.status.sync_status "OutOfSync",
    eq_iff app.status.sync_status "Synced",
  )
  of_Verdict status (success all s (inl h) e) =
      let a = AllRunning-all_available app.status.images images proxy all in rw (a, h, s, e)
  of_Verdict status (success all s (inr (h, k)) e) =
      let a = AllRunning-all_available app.status.images images proxy all in rw (a, h, s, k, e)
  of_Verdict status (not_healthy all s h d k e) = ground (
    arith,
    AllRunning-all_available app.status.images images proxy all,
    eq_iff app.status.health_status "Degraded",
    eq_iff app.status.health_status "Suspended",
    eq_iff app.status.health_status "Healthy",
    eq_iff app.status.sync_status "OutOfSync",
    eq_iff app.status.sync_status "Synced",
  )

  synced_Verdict :
      AllRunning app.status.images proxy images
      → app.status.sync_status ≡ "Synced"
      → (status : String) × Verdict app images proxy accept status
  synced_Verdict all s = elim (text_cases app.status.health_status "Healthy") [
    | inl h ↦ (rollout_success, success all s (inl h) refl)
    | inr nh ↦ elim (text_cases app.status.health_status "Degraded") [
      | inl d ↦ (rollout_degraded, degraded all d (rw s out_of_sync≢synced) refl)
      | inr nd ↦ elim (text_cases app.status.health_status "Suspended") [
        | inr ns ↦ (rollout_not_healthy, not_healthy all s nh nd (inl ns) refl)
        | inl u ↦ elim (Bool-cases accept) [
          | inl a ↦ (rollout_success, success all s (inr (u, a)) refl)
          | inr a ↦ (rollout_not_healthy, not_healthy all s nh nd (inr a) refl)
        ]
      ]
    ]
  ]

  running_Verdict :
      AllRunning app.status.images proxy images
      → (status : String) × Verdict app images proxy accept status
  running_Verdict all = elim (text_cases app.status.sync_status "Synced") [
    | inl s ↦ synced_Verdict all s
    | inr ns ↦ elim (text_cases app.status.health_status "Degraded") [
      | inr nd ↦ (rollout_not_synced, not_synced all ns (inl nd) refl)
      | inl d ↦ elim (text_cases app.status.sync_status "OutOfSync") [
        | inl o ↦ (rollout_not_synced, not_synced all ns (inr o) refl)
        | inr no_drift ↦ (rollout_degraded, degraded all d no_drift refl)
      ]
    ]
  ]

  -- The conditions leave no application out.
  some_Verdict : (status : String) × Verdict app images proxy accept status
  some_Verdict = elim (Bool-cases (all_available app.status.images images proxy)) [
    | inl b ↦ running_Verdict (all_available-AllRunning app.status.images images proxy b)
    | inr b ↦ (
      rollout_not_available,
      missing (λ all. cc (b, AllRunning-all_available app.status.images images proxy all)) refl,
    )
  ]

  pub to_Verdict :
      (status : String)
      → get_rollout_status app images proxy accept ≡ status
      → Verdict app images proxy accept status
  to_Verdict status e =
      let (s, v) = some_Verdict in
      subst (λ x. Verdict app images proxy accept x) (sym (of_Verdict s v) ∙ e) v

  -- The status is the one whose conditions hold: the images, the health and the sync status decide
  -- it, and no other status has its conditions met.
  pub get_rollout_status_iff :
      (status : String)
      → (get_rollout_status app images proxy accept ≡ status)
        ↔ Verdict app images proxy accept status
  get_rollout_status_iff status = (to_Verdict status, of_Verdict status)
