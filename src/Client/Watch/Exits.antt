-- ===== src/Client/Watch/Exits.antt =====
-- internal/client/client.go: the exit code of the client is the outcome that the server settles on.
use argo_watcher.Common.{
  ℕ, ◌+◌, ◌<◌, String, Option, none, some, ◌≡◌, ◌≢◌, refl, sym, ap, subst, ◌∙◌, arith, ◌↔◌, str_eq,
  eq_iff, if◌then◌else◌, inl, inr, Bool-cases,
}
use argo_watcher.Models.Status.{status_in_progress, status_deployed}
use argo_watcher.Client.Credential.{Config, create_task}
use argo_watcher.Client.Requests.{Reply, TaskStatus, Decoded, Result, ok, err}
use argo_watcher.Client.Watch.{
  WaitError, Verdict, poll_again, done, ended, verdict_of, verdict_at, get_task_status,
  wait_for_deployment, add_task, success, failure, exit_at, after_submission, run,
}
use argo_watcher.Client.Watch.Settled.{
  polled, settled, Said, Settles, verdict_of-done, verdict_of-poll_again, wait_from-settled,
  wait_from-Settles, done_of, Said-deployed, Said-in_progress,
}

module _ (decode_status : String → Option TaskStatus) (decode : String → Decoded TaskStatus)
    (config : Config) (submission : Reply) (feed : String → ℕ → ℕ → Reply) where
  -- A deployment that was accepted under the id and then polled until it was deployed.
  abbrev pub Deployed : Type 0
  Deployed =
      (id : String) × (add_task decode_status decode submission ≡ ok id)
      × (n : ℕ) × ((j : ℕ)
          → j < n
          → Said decode_status decode config.app (feed id) j status_in_progress)
      × Said decode_status decode config.app (feed id) n status_deployed

  succeeded :
      (x : Option (Option WaitError))
      → exit_at decode_status decode x ≡ some success
      → x ≡ some none
  succeeded none h = absurd (cc h)
  succeeded (some none) h = refl
  succeeded (some (some e)) h = absurd (cc h)

  from_start :
      (id : String)
      → add_task decode_status decode submission ≡ ok id
      → Settles decode_status decode config.app (feed id) 0 none
      → Deployed
  from_start id a (n, before, h) = (
    id,
    a,
    n,
    λ j l. Said-in_progress decode_status decode config.app (feed id) j (
        let z : 0 + j ≡ j = omega arith in
        subst (λ m. polled decode_status decode config.app (feed id) m ≡ poll_again) z
          (before j l)),
    Said-deployed decode_status decode config.app (feed id) n (
        let z : 0 + n ≡ n = omega arith in
        subst (λ m. polled decode_status decode config.app (feed id) m ≡ done) z
          (done_of decode_status decode config.app (feed id) _ h)),
  )

  deployed_of :
      (fuel : ℕ) (r : Result String)
      → add_task decode_status decode submission ≡ r
      → after_submission decode_status decode fuel config feed r ≡ some success
      → Deployed
  unfolding wait_for_deployment create_task
  deployed_of fuel (err e) a h = absurd (cc h)
  deployed_of fuel (ok id) a h =
      from_start id a
        (wait_from-Settles decode_status decode config.app (feed id) fuel 0 none (succeeded _ h))

-- The process exits with success only if the server accepted the deployment, and the polls for its
-- identifier brought the status in progress, each of them, up to one that brought deployed.
pub run-Deployed :
    (decode_status : String → Option TaskStatus) (decode : String → Decoded TaskStatus)
    (config : Config) (submission : Reply) (feed : String → ℕ → ℕ → Reply) (fuel : ℕ)
    → run decode_status decode fuel config submission feed ≡ some success
    → Deployed decode_status decode config submission feed
unfolding run
run-Deployed decode_status decode config submission feed fuel h =
    deployed_of decode_status decode config submission feed fuel _ refl h

final_verdict :
    (decode_status : String → Option TaskStatus) (decode : String → Decoded TaskStatus)
    (app : String) (feed : ℕ → ℕ → Reply) (status : String) (v : Verdict)
    → v ≢ poll_again
    → (v ≡ done) ↔ (status ≡ status_deployed)
    → exit_at decode_status decode (settled decode_status decode app feed v)
      ≡ some (if str_eq status status_deployed then success else failure)
final_verdict decode_status decode app feed status done h d =
    rw ((eq_iff status status_deployed).1 (d.0 refl)) refl
final_verdict decode_status decode app feed status poll_again h d = absurd (h refl)
final_verdict decode_status decode app feed status (ended e) h d =
    elim (Bool-cases (str_eq status status_deployed)) [
      | inl b ↦ absurd (let q : ended e ≡ done = d.1 ((eq_iff status status_deployed).0 b) in cc q)
      | inr b ↦ rw b refl
    ]

Said-again :
    (decode_status : String → Option TaskStatus) (decode : String → Decoded TaskStatus)
    (app : String) (feed : ℕ → ℕ → Reply) (k : ℕ)
    → Said decode_status decode app feed k status_in_progress
    → polled decode_status decode app feed k ≡ poll_again
Said-again decode_status decode app feed k (info, e, s) =
    ap (verdict_at app) e ∙ (verdict_of-poll_again app info).1 s

final_exit :
    (decode_status : String → Option TaskStatus) (decode : String → Decoded TaskStatus)
    (app : String) (feed : ℕ → ℕ → Reply) (info : TaskStatus)
    → info.status ≢ status_in_progress
    → exit_at decode_status decode (settled decode_status decode app feed (verdict_of app info))
      ≡ some (if str_eq info.status status_deployed then success else failure)
final_exit decode_status decode app feed info h =
    final_verdict decode_status decode app feed info.status (verdict_of app info)
      (λ e. h ((verdict_of-poll_again app info).0 e)) (verdict_of-done app info)

-- Once the server says anything but in progress of an accepted deployment, be it at the first poll or
-- after any number of polls that said in progress, the process exits at that poll: with success exactly
-- if the status is deployed.
pub run_settles :
    (decode_status : String → Option TaskStatus) (decode : String → Decoded TaskStatus)
    (config : Config) (submission : Reply) (feed : String → ℕ → ℕ → Reply) (fuel : ℕ) (id : String)
    (n : ℕ) (info : TaskStatus)
    → add_task decode_status decode submission ≡ ok id
    → ((j : ℕ) → j < n → Said decode_status decode config.app (feed id) j status_in_progress)
    → get_task_status decode_status decode (feed id n) ≡ ok info
    → info.status ≢ status_in_progress
    → n < fuel
    → run decode_status decode fuel config submission feed
      ≡ some (if str_eq info.status status_deployed then success else failure)
unfolding run wait_for_deployment create_task
run_settles decode_status decode config submission feed fuel id n info a before now final l =
    let z : (j : ℕ) → 0 + j ≡ j = λ j. omega arith in
    let said : verdict_at config.app (get_task_status decode_status decode (feed id n))
        ≡ verdict_of config.app info =
      ap (verdict_at config.app) now in
    rw a (
      ap (exit_at decode_status decode) (
        wait_from-settled decode_status decode config.app (feed id) fuel 0 n l
          (λ j h.
            subst (λ m. polled decode_status decode config.app (feed id) m ≡ poll_again) (sym (z j))
              (Said-again decode_status decode config.app (feed id) j (before j h)))
          (λ e. final (
            (verdict_of-poll_again config.app info).0 (
              sym said
              ∙ subst (λ m. polled decode_status decode config.app (feed id) m ≡ poll_again) (z n)
                  e)))
        ∙ ap
            (λ m.
              settled decode_status decode config.app (feed id)
                (polled decode_status decode config.app (feed id) m))
            (z n)
        ∙ ap (settled decode_status decode config.app (feed id)) said)
      ∙ final_exit decode_status decode config.app (feed id) info final)
