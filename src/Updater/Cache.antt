-- ===== src/Updater/Cache.antt =====
-- internal/updater/updater.go: the cached clone of a repository's branch. A commit is known by its hash;
-- `tip` is the branch's head at origin. What go-git and the file system answer is the environment.
pub mod AtTip
use argo_watcher.Common.{String, Bool, true, false, Option, none, some, not, str_eq, if◌then◌else◌}
use argo_watcher.Updater.Paths.{CleanPath, assert_inside_root, join_path}

-- What there is at the clone's path: nothing, something that does not open or has no `origin` (`true`
-- in the second case), or a clone with its remote-tracking reference and the commit of its clean worktree, if it is clean.
pub data OnDisk : Type 0 where
  absent : OnDisk
  invalid : Bool → OnDisk
  opened : String → Option String → OnDisk

-- `GitRepo`, as far as the cache is concerned: whether the key was loaded, whether a clone was opened.
pub record GitRepo : Type 0 where
  pub repo_cache_path : CleanPath
  pub local_repo_path : Option CleanPath
  pub ssh_auth : Bool
  pub local_repo : Bool
  pub on_disk : OnDisk

pub data Fetch : Type 0 where
  fetched already_up_to_date : Fetch
  fetch_failed : String → Fetch

-- The answers, each an error's text or none; `torn` and `left` are what a clone and
-- a removal that fail leave behind.
pub record CloneEnv : Type 0 where
  pub tip : String
  pub key_error : Option String
  pub remove_error : Option String
  pub clone_error : Option String
  pub torn : OnDisk
  pub left : OnDisk
  pub fetch : Fetch
  pub worktree_error : Option String
  pub reference_error : Option String
  pub reset_error : Option String

-- `PlainClone`.
abbrev pub plain_clone : CloneEnv → Option String → GitRepo → GitRepo × Option String
plain_clone env none repo =
    (record repo { local_repo = true; on_disk = opened env.tip (some env.tip) }, none)
plain_clone env (some e) repo = (record repo { local_repo = false; on_disk = env.torn }, some e)

abbrev pub reclone : CloneEnv → Option String → GitRepo → GitRepo × Option String
reclone env none repo = plain_clone env env.clone_error (record repo { on_disk = absent })
reclone env (some e) repo = (record repo { on_disk = env.left }, some e)

abbrev pub reset_hard : Option String → String → GitRepo → GitRepo × Option String
reset_hard none tracking repo = (record repo { on_disk = opened tracking (some tracking) }, none)
reset_hard (some e) tracking repo = (record repo { on_disk = opened tracking none }, some e)

-- The worktree, the reference and the reset, in this order.
abbrev pub to_reference :
    Option String → Option String → Option String → String → GitRepo → GitRepo × Option String
to_reference (some e) reference_error reset_error tracking repo = (repo, some e)
to_reference none (some e) reset_error tracking repo = (repo, some e)
to_reference none none reset_error tracking repo = reset_hard reset_error tracking repo

abbrev pub refresh : CloneEnv → Fetch → String → Option String → GitRepo → GitRepo × Option String
refresh env (fetch_failed e) tracking worktree repo = (repo, some e)
refresh env already_up_to_date tracking worktree repo =
    to_reference env.worktree_error env.reference_error env.reset_error tracking repo
refresh env fetched tracking worktree repo =
    to_reference env.worktree_error env.reference_error env.reset_error env.tip
      (record repo { on_disk = opened env.tip worktree })

abbrev pub from_disk : CloneEnv → OnDisk → GitRepo → GitRepo × Option String
from_disk env absent repo = plain_clone env env.clone_error repo
from_disk env (invalid opens) repo =
    reclone env env.remove_error (record repo { local_repo = opens })
from_disk env (opened tracking worktree) repo =
    refresh env env.fetch tracking worktree (record repo { local_repo = true })

abbrev pub add_ssh_key : Option String → CloneEnv → GitRepo → GitRepo × Option String
add_ssh_key (some e) env repo = (repo, some e)
add_ssh_key none env repo = from_disk env repo.on_disk (record repo { ssh_auth = true })

-- The key is loaded once.
abbrev pub with_key : Bool → CloneEnv → GitRepo → GitRepo × Option String
with_key true env repo = from_disk env repo.on_disk repo
with_key false env repo = add_ssh_key env.key_error env repo

-- `Clone`; `hash` is the digest of the repository's URL and branch, in base 16.
unfoldable pub clone : String → CloneEnv → GitRepo → GitRepo × Option String
clone hash env repo =
    with_key repo.ssh_auth env
      (record repo { local_repo_path = some (join_path repo.repo_cache_path hash) })

abbrev pub remove_cache : Option String → OnDisk → GitRepo → GitRepo × Option String
remove_cache none left repo = (record repo { on_disk = absent }, none)
remove_cache (some e) left repo = (record repo { on_disk = left }, some e)

abbrev pub invalidate_at :
    Option String → OnDisk → Option CleanPath → GitRepo → GitRepo × Option String
invalidate_at remove_error left none repo = (repo, none)
invalidate_at remove_error left (some path) repo =
    if not (assert_inside_root repo.repo_cache_path path)
    then (repo, some "refusing to remove")
    else remove_cache remove_error left repo

-- `InvalidateCache`; `left` is what a removal that fails leaves.
unfoldable pub invalidate_cache : Option String → OnDisk → GitRepo → GitRepo × Option String
invalidate_cache remove_error left repo =
    invalidate_at remove_error left repo.local_repo_path (record repo { local_repo = false })
