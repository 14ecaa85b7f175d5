-- ===== src/State/Postgres/Sweep/Retention.antt =====
-- internal/state/postgres_state.go: that the retention ends, and what it removes.
use argo_watcher.Common.{
  ℕ, ◌+◌, ◌*◌, ◌≤◌, ◌<◌, Bool, true, false, ◌&&◌, not, List, Option, some, select, leb, ◌≡◌, ◌⊎◌,
  Has,
}
use argo_watcher.Models.Status.{status_in_progress}
use argo_watcher.State.Postgres.{TaskModel}
use argo_watcher.State.Postgres.Sweep.{Round, is_expired, batch_of, in_batch, one_day}

module _ (size retention_days : ℕ) (rounds : ℕ → Round) where
  abbrev chosen : ℕ → TaskModel → Bool
  chosen i row = is_expired retention_days (rounds i).now row && not ((rounds i).locked row)

  abbrev older : TaskModel → TaskModel → Bool
  older a b = leb a.created b.created

  abbrev gone : ℕ → List TaskModel → TaskModel → Bool
  gone i rows = in_batch (batch_of size retention_days (rounds i) rows)

  abbrev rest : ℕ → List TaskModel → List TaskModel
  rest i rows = select (λ row. not (gone i rows row)) rows

  -- No round may remove the row.
  abbrev Spared : TaskModel → Type 0
  Spared row = (i : ℕ) → is_expired retention_days (rounds i).now row ≡ false

  -- What the loop leaves, where it leaves it without an error.
  abbrev Left : List TaskModel → List TaskModel → Bool → Type 0
  Left rows rows' done =
      ((row : TaskModel) → Has row rows' → Has row rows)
      × ((row : TaskModel) → Spared row → Has row rows → Has row rows')
      × (done ≡ true
          → (i : ℕ) × ((row : TaskModel)
              → Has row rows'
              → is_expired retention_days (rounds i).now row ≡ true
              → (rounds i).locked row ≡ true))

  abbrev Finished : List TaskModel → Option (List TaskModel × Bool) → Type 0
  Finished rows result =
      (rows' : List TaskModel) × (done : Bool) × (result ≡ some (rows', done))
      × Left rows rows' done

-- What the retention may never remove: a task in progress, a task whose lease outlasts the sweep, and
-- a task that is not yet old enough.
abbrev pub Protected : ℕ → (ℕ → Round) → TaskModel → Type 0
Protected retention_days rounds row =
    (row.status ≡ status_in_progress)
    ⊎ (((e : ℕ) × (row.lease_expires_at ≡ some e) × ((i : ℕ) → (rounds i).now < e))
        ⊎ ((i : ℕ) → (rounds i).now ≤ row.created + retention_days * one_day))
