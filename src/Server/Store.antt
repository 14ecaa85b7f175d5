-- ===== src/Server/Store.antt =====
-- internal/lock/deploy_lock.go and deploy_lock_postgres.go: the shared part of the deployment lock and
-- its two stores. An instant is a number of nanoseconds, and 0 is Go's zero time.
use argo_watcher.Common.{
  ℕ, Bool, true, false, Option, none, some, ◌≡◌, refl, ap, arith, if◌then◌else◌, ◌==◌,
}

-- `DeployLockState`.
pub record DeployLockState : Type 0 where
  pub manual_lock : Bool
  pub override_until : ℕ

-- The interface `DeployLockStore`. `up` says whether the database answers, `none` and `false` are
-- errors.
pub record DeployLockStore : Type 1 where
  pub Store : Type 0
  pub state : Bool → Store → Option DeployLockState
  pub lock : Bool → Store → Store × Bool
  pub release : Bool → ℕ → Store → Store × Bool

-- What the lockdown relies on: what is written without an error is what is read.
pub record DeployLockLaws (d : DeployLockStore) : Type 0 where
  pub state-lock :
      (s : d.Store)
      → (d.lock true s).1 ≡ true
      → d.state true (d.lock true s).0 ≡ some (record { manual_lock = true; override_until = 0 })
  pub state-release :
      (until : ℕ) (s : d.Store)
      → (d.release true until s).1 ≡ true
      → d.state true (d.release true until s).0
        ≡ some (record { manual_lock = false; override_until = until })

-- `InMemoryDeployLockStore`.
abbrev pub in_memory_deploy_lock_store : DeployLockStore
in_memory_deploy_lock_store = record {
  Store = DeployLockState;
  state = λ up s. some s;
  lock = λ up s. (record { manual_lock = true; override_until = 0 }, true);
  release = λ up until s. (record { manual_lock = false; override_until = until }, true);
}

-- The row of the table `deploy_lock`; a NULL deadline is `none`.
pub record Row : Type 0 where
  pub row_lock : Bool
  pub row_until : Option ℕ

-- `PostgresDeployLockStore.State` on an answer of the database.
unfoldable pub state_of_row : Option Row → DeployLockState
state_of_row none = record { manual_lock = false; override_until = 0 }
state_of_row (some row) = record {
  manual_lock = row.row_lock;
  override_until = elim row.row_until [ none ↦ 0 | some until ↦ until ];
}

-- `PostgresDeployLockStore.write`: an upsert of the single row.
unfoldable pub write : Bool → Bool → ℕ → Option Row → Option Row × Bool
write up manual_lock until row =
    if up
    then (
      some (record { row_lock = manual_lock; row_until = if until == 0 then none else some until }),
      true,
    )
    else (row, false)

-- `PostgresDeployLockStore`, the table as its single row, if it has one.
abbrev pub postgres_deploy_lock_store : DeployLockStore
postgres_deploy_lock_store = record {
  Store = Option Row;
  state = λ up row. if up then some (state_of_row row) else none;
  lock = λ up. write up true 0;
  release = λ up. write up false;
}

pub in_memory_laws : DeployLockLaws in_memory_deploy_lock_store
in_memory_laws = record { state-lock = λ s _. refl; state-release = λ until s _. refl }

deadline_read :
    (until : ℕ)
    → state_of_row
        (some (record { row_lock = false; row_until = if until == 0 then none else some until }))
      ≡ record { manual_lock = false; override_until = until }
unfolding state_of_row
deadline_read until = ground arith

-- A NULL deadline is read as the zero time, which no override of a schedule is.
pub postgres_laws : DeployLockLaws postgres_deploy_lock_store
unfolding write state_of_row
postgres_laws = record {
  state-lock = λ s _. refl;
  state-release = λ until s _. ap some (deadline_read until);
}
