-- ===== src/Updater/Cache/AtTip.antt =====
-- internal/updater/updater.go: in what state a clone starts an update.
use argo_watcher.Common.{String, Bool, true, false, Option, none, some, ◌≡◌, refl, ap}
use argo_watcher.Updater.Cache.{
  OnDisk, absent, invalid, opened, GitRepo, CloneEnv, Fetch, fetched, already_up_to_date,
  fetch_failed, plain_clone, reclone, to_reference, refresh, from_disk, add_ssh_key, with_key,
  clone,
}
use argo_watcher.Updater.Paths.{join_path}

-- What go-git documents: a fetch is up to date only if the tracking reference is at the branch's head.
abbrev pub UpToDate : CloneEnv → OnDisk → Type 0
UpToDate env absent = Unit {0}
UpToDate env (invalid opens) = Unit {0}
UpToDate env (opened tracking worktree) = env.fetch ≡ already_up_to_date → tracking ≡ env.tip

-- The clone is open, and its clean worktree is at the branch's head.
abbrev pub AtTip : CloneEnv → GitRepo → Type 0
AtTip env repo = (repo.local_repo ≡ true) × (repo.on_disk ≡ opened env.tip (some env.tip))

abbrev Ends : CloneEnv → GitRepo × Option String → Type 0
Ends env (repo, none) = AtTip env repo
Ends env (repo, some e) = Unit {0}

plain_clone-Ends :
    (env : CloneEnv) (error : Option String) (repo : GitRepo)
    → Ends env (plain_clone env error repo)
plain_clone-Ends env none repo = (refl, refl)
plain_clone-Ends env (some e) repo = tt

reclone-Ends :
    (env : CloneEnv) (error : Option String) (repo : GitRepo) → Ends env (reclone env error repo)
reclone-Ends env none repo = plain_clone-Ends env env.clone_error (record repo { on_disk = absent })
reclone-Ends env (some e) repo = tt

to_reference-Ends :
    (env : CloneEnv) (worktree_error reference_error reset_error : Option String)
    (tracking : String) (repo : GitRepo)
    → tracking ≡ env.tip
    → repo.local_repo ≡ true
    → Ends env (to_reference worktree_error reference_error reset_error tracking repo)
to_reference-Ends env (some e) r x tracking repo t o = tt
to_reference-Ends env none (some e) x tracking repo t o = tt
to_reference-Ends env none none (some e) tracking repo t o = tt
to_reference-Ends env none none none tracking repo t o = (o, ap (λ h. opened h (some h)) t)

refresh-Ends :
    (env : CloneEnv) (fetch : Fetch) (tracking : String) (worktree : Option String) (repo : GitRepo)
    → (fetch ≡ already_up_to_date → tracking ≡ env.tip)
    → repo.local_repo ≡ true
    → Ends env (refresh env fetch tracking worktree repo)
refresh-Ends env (fetch_failed e) tracking worktree repo u o = tt
refresh-Ends env already_up_to_date tracking worktree repo u o =
    to_reference-Ends env env.worktree_error env.reference_error env.reset_error tracking repo
      (u refl) o
refresh-Ends env fetched tracking worktree repo u o =
    to_reference-Ends env env.worktree_error env.reference_error env.reset_error env.tip
      (record repo { on_disk = opened env.tip worktree }) refl o

from_disk-Ends :
    (env : CloneEnv) (disk : OnDisk) (repo : GitRepo)
    → UpToDate env disk
    → Ends env (from_disk env disk repo)
from_disk-Ends env absent repo u = plain_clone-Ends env env.clone_error repo
from_disk-Ends env (invalid opens) repo u =
    reclone-Ends env env.remove_error (record repo { local_repo = opens })
from_disk-Ends env (opened tracking worktree) repo u =
    refresh-Ends env env.fetch tracking worktree (record repo { local_repo = true }) u refl

add_ssh_key-Ends :
    (env : CloneEnv) (key_error : Option String) (repo : GitRepo)
    → UpToDate env repo.on_disk
    → Ends env (add_ssh_key key_error env repo)
add_ssh_key-Ends env (some e) repo u = tt
add_ssh_key-Ends env none repo u =
    from_disk-Ends env repo.on_disk (record repo { ssh_auth = true }) u

keyed-Ends :
    (env : CloneEnv) (ssh_auth : Bool) (repo : GitRepo)
    → UpToDate env repo.on_disk
    → Ends env (with_key ssh_auth env repo)
keyed-Ends env true repo u = from_disk-Ends env repo.on_disk repo u
keyed-Ends env false repo u = add_ssh_key-Ends env env.key_error repo u

at_end : (env : CloneEnv) (x : GitRepo × Option String) → Ends env x → x.1 ≡ none → AtTip env x.0
at_end env (repo, none) e h = e
at_end env (repo, some x) e h = absurd (cc h)

-- Whatever is left at the cache's path by earlier attempts: after `Clone` without an error the clone is
-- open and its worktree clean, at the head of the branch at origin.
pub clone-AtTip :
    (hash : String) (env : CloneEnv) (repo : GitRepo)
    → UpToDate env repo.on_disk
    → (clone hash env repo).1 ≡ none
    → AtTip env (clone hash env repo).0
unfolding clone
clone-AtTip hash env repo u h =
    at_end env (clone hash env repo)
      (keyed-Ends env repo.ssh_auth
        (record repo { local_repo_path = some (join_path repo.repo_cache_path hash) }) u)
      h
