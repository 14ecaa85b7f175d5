-- ===== src/Argocd/BatchWrite.antt =====
-- internal/argocd/git_writeback_batch.go: a batch of write-backs over one clone with one push. What git,
-- the clock and other processes do is the environment, an entry for each attempt. The maps that are
-- keyed by a request are fields next to it.
pub mod Truthful
use argo_watcher.Common.{
  ℕ, zero, suc, ◌+◌, String, Bool, true, false, ◌&&◌, not, List, [], ◌∷◌, Option, none, some,
  str_eq, map, any, all, is_some, if◌then◌else◌,
}
use argo_watcher.Models.Task.{Image}
use argo_watcher.Argocd.Overrides.{
  OverrideError, ParameterOverride, Overrides, failed, parameters, generate_override_file_content,
}

-- An error of git, and whether `IsPermanent` holds of it.
pub record GitError : Type 0 where
  pub message : String
  pub permanent : Bool

-- `batchWriteRequest`: `key` is its address; of the application, the repository and the task, what is
-- read of them.
pub record WriteRequest : Type 0 where
  pub key : ℕ
  pub annotations : List (String × String)
  pub path : String
  pub images : List Image

-- The errors that a request can end with. The last two are those of `resolveRemaining`.
pub data WriteError : Type 0 where
  superseded_write : WriteError
  override_error : OverrideError → WriteError
  shared_error : GitError → WriteError
  attempts_exhausted stopped_early : Option GitError → WriteError

-- A request with its entries in `outcomes`, where `some none` is success, and in `commitErrs`.
pub record Entry : Type 0 where
  pub request : WriteRequest
  pub outcome : Option (Option WriteError)
  pub commit_error : Option GitError

-- `CommitAppLocal`'s answer.
pub data Commit : Type 0 where
  commit_failed : GitError → Commit
  unchanged committed : Commit

-- The end of the wait before the next attempt.
pub data Wait : Type 0 where
  waited draining : Wait
  cancelled : GitError → Wait

pub record Attempt : Type 0 where
  pub clone_error : Option GitError
  pub is_superseded : WriteRequest → Bool
  pub commit : WriteRequest → List ParameterOverride → Commit
  pub push_error : Option GitError
  pub wait : Wait

abbrev pub resolve_with : Option WriteError → Entry → Entry
resolve_with o e = record e { outcome = some o }

abbrev pub after_commit : Commit → Entry → Entry × Bool
after_commit (commit_failed g) e = (record e { commit_error = some g }, false)
after_commit unchanged e = (resolve_with none e, false)
after_commit committed e = (record e { commit_error = none }, true)

abbrev pub after_generation : Attempt → Entry → Option Overrides → Entry × Bool
after_generation a e none = (resolve_with none e, false)
after_generation a e (some (failed x)) = (resolve_with (some (override_error x)) e, false)
after_generation a e (some (parameters ps)) = after_commit (a.commit e.request ps) e

-- `applyRequest`.
unfoldable pub apply_request : Attempt → Entry → Entry × Bool
apply_request a e =
    if a.is_superseded e.request
    then (resolve_with (some superseded_write) e, false)
    else if str_eq e.request.path ""
    then (resolve_with none e, false)
    else after_generation a e
        (generate_override_file_content e.request.annotations e.request.images)

-- The loop of `runBatchAttempt` over the requests without an outcome.
abbrev pub apply_at : Attempt → Entry → Option (Option WriteError) → Entry × Bool
apply_at a e none = apply_request a e
apply_at a e (some _) = (e, false)

abbrev pub apply_unresolved : Attempt → Entry → Entry × Bool
apply_unresolved a e = apply_at a e e.outcome

abbrev pub was_committed : Entry × Bool → Bool
was_committed (e, c) = c

abbrev pub after_clone :
    Attempt → List Entry → Option GitError → List (Entry × Bool) × Option GitError
after_clone a entries (some e) = (map (λ entry. (entry, false)) entries, some e)
after_clone a entries none =
    let applied = map (apply_unresolved a) entries in
    (applied, if any was_committed applied then a.push_error else none)

-- `runBatchAttempt`: the entries, each with whether it was committed, and the error.
unfoldable pub run_batch_attempt : Attempt → List Entry → List (Entry × Bool) × Option GitError
run_batch_attempt a entries = after_clone a entries a.clone_error

abbrev pub mark_pushed : Entry × Bool → Entry
mark_pushed (e, true) = resolve_with none e
mark_pushed (e, false) = e

abbrev pub fail_at : GitError → Entry → Option (Option WriteError) → Entry
fail_at g e none = resolve_with (some (shared_error g)) e
fail_at g e (some _) = e

-- `failUnresolved`, at one request.
abbrev pub fail_unresolved : GitError → Entry → Entry
fail_unresolved g e = fail_at g e e.outcome

-- `recordAttempt`: the entries, and whether the loop stops.
unfoldable pub record_attempt : List (Entry × Bool) → Option GitError → List Entry × Bool
record_attempt applied none = (map mark_pushed applied, false)
record_attempt applied (some g) =
    if g.permanent
    then (map (λ p. fail_unresolved g p.0) applied, true)
    else (map (λ p. p.0) applied, false)

abbrev pub is_resolved : Entry → Bool
is_resolved e = is_some e.outcome

-- `lastErr` after an attempt.
abbrev pub latest : Option GitError → Option GitError → Option GitError
latest none before = before
latest (some g) before = some g

-- The end of the loop: the entries, the last error, and whether it was a drain.
abbrev pub Ended : Type 0
Ended = List Entry × Option GitError × Bool

abbrev pub after_wait : Wait → List Entry → Option GitError → Ended → Ended
after_wait waited entries last more = more
after_wait draining entries last more = (entries, last, true)
after_wait (cancelled g) entries last more = (entries, some g, false)

-- No wait follows the last attempt.
abbrev pub next : ℕ → Wait → List Entry → Option GitError → Ended → Ended
next zero w entries last more = more
next (suc left) w entries last more = after_wait w entries last more

-- The loop of `runBatchWriteBack` with so many attempts left, from the attempt `i`.
unfoldable pub attempts : (ℕ → Attempt) → ℕ → ℕ → List Entry → Option GitError → Ended
attempts feed zero i entries last = (entries, last, false)
attempts feed (suc left) i entries last =
    let (applied, err) = run_batch_attempt (feed i) entries in
    let (entries', stop) = record_attempt applied err in
    let last' = latest err last in
    let more = attempts feed left (suc i) entries' last' in
    if all is_resolved entries
    then (entries, last, false)
    else if stop
    then (entries', last', false)
    else if all is_resolved entries'
    then (entries', last', false)
    else next left (feed i).wait entries' last' more

abbrev pub cause_of : Option GitError → Option GitError → Option GitError
cause_of none last = last
cause_of (some g) last = some g

abbrev pub resolve_at : Option GitError → Bool → Entry → Option (Option WriteError) → Entry
resolve_at last drained e (some _) = e
resolve_at last drained e none =
    resolve_with
      (some (
        if drained
        then stopped_early (cause_of e.commit_error last)
        else attempts_exhausted (cause_of e.commit_error last)))
      e

-- `resolveRemaining`, at one request.
abbrev pub resolve_remaining : Option GitError → Bool → Entry → Entry
resolve_remaining last drained e = resolve_at last drained e e.outcome

abbrev pub unresolved : WriteRequest → Entry
unresolved request = record { request = request; outcome = none; commit_error = none }

-- `runBatchWriteBack`.
unfoldable pub run_batch_write_back : ℕ → (ℕ → Attempt) → List WriteRequest → List Entry
run_batch_write_back max_attempts feed batch =
    let (entries, last, drained) = attempts feed max_attempts 1 (map unresolved batch) none in
    map (resolve_remaining last drained) entries

-- `outcomes[req]`: a missing outcome would read as success.
abbrev pub result_at : Option (Option WriteError) → Option WriteError
result_at none = none
result_at (some o) = o

abbrev pub result_of : Entry → Option WriteError
result_of e = result_at e.outcome
