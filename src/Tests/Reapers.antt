-- ===== src/Tests/Reapers.antt =====
-- An example for the takeover of deployments of internal/server/task_reaper.go.
use argo_watcher.Common.{false, [], ◌∷◌, some, refl, Has, inl, arith, length, select, ◌≤◌}
use argo_watcher.Models.Status.{status_in_progress}
use argo_watcher.State.Lease.{Lease, is_claimable, released, taken_over, release_owned_leases}
use argo_watcher.Server.Reaper.{Tick, reap, release_task_leases}
use argo_watcher.Server.Reaper.HandOver.{hand_over_lem}

-- A deployment that is held by the replica `a`.
abbrev held : Lease
held = record {
  id = "1";
  owner_id = some "a";
  lease_expires_at = some 700;
  status = status_in_progress;
  created = 100;
}

abbrev first_tick : Tick
first_tick = record { draining = false; now = 310; fails = false; meanwhile = λ rows. rows }

few : length (select (is_claimable 310) (release_task_leases "a" false 300 (held ∷ []))) ≤ 20
unfolding is_claimable release_task_leases release_owned_leases
few = omega arith

hand_over_example :
    Has
      (taken_over "b" 310 (released 300 held))
      (reap "b" first_tick (release_task_leases "a" false 300 (held ∷ []))).1
hand_over_example =
    hand_over_lem "a" "b" 300 (held ∷ []) held first_tick (inl refl) refl refl refl refl
      (omega arith) few
