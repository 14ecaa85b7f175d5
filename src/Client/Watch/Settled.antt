-- ===== src/Client/Watch/Settled.antt =====
-- internal/client/client.go: which poll decides the result of `waitForDeployment`.
use argo_watcher.Common.{
  ℕ, zero, suc, ◌+◌, ◌<◌, String, Option, none, some, ◌≡◌, ◌≢◌, refl, sym, ap, subst, ◌∙◌, arith,
  ◌↔◌, str_eq, eq_iff,
}
use argo_watcher.Models.Status.{
  status_failed, status_cancelled, status_in_progress, status_app_not_found,
  status_argocd_unavailable, status_aborted, status_deployed,
}
use argo_watcher.Client.Requests.{Reply, TaskStatus, Decoded, Result, ok, err}
use argo_watcher.Client.Watch.{
  WaitError, Verdict, poll_again, done, ended, verdict_of, verdict_at, get_task_status, after_poll,
  wait_from,
}

-- The one status that is no error, and the one that is polled on.
pub verdict_of-done :
    (app : String) (info : TaskStatus)
    → (verdict_of app info ≡ done) ↔ (info.status ≡ status_deployed)
unfolding verdict_of
verdict_of-done app info = (
  λ h. done_deployed h,
  λ e.
      let named : (s : String) → str_eq info.status s ≡ str_eq status_deployed s =
        λ s. ap (λ t. str_eq t s) e in
      rw
        (
          named status_failed,
          named status_cancelled,
          named status_in_progress,
          named status_app_not_found,
          named status_argocd_unavailable,
          named status_aborted,
          named status_deployed,
        )
        refl,
)
  where
    done_deployed : verdict_of app info ≡ done → info.status ≡ status_deployed
    done_deployed h = ground (arith, eq_iff info.status status_deployed)

pub verdict_of-poll_again :
    (app : String) (info : TaskStatus)
    → (verdict_of app info ≡ poll_again) ↔ (info.status ≡ status_in_progress)
unfolding verdict_of
verdict_of-poll_again app info = (
  λ h. again_in_progress h,
  λ e.
      let named : (s : String) → str_eq info.status s ≡ str_eq status_in_progress s =
        λ s. ap (λ t. str_eq t s) e in
      rw (named status_failed, named status_cancelled, named status_in_progress) refl,
)
  where
    again_in_progress : verdict_of app info ≡ poll_again → info.status ≡ status_in_progress
    again_in_progress h = ground (arith, eq_iff info.status status_in_progress)

module _ (decode_status : String → Option TaskStatus) (decode : String → Decoded TaskStatus)
    (app : String) (feed : ℕ → ℕ → Reply) where
  abbrev pub polled : ℕ → Verdict
  polled k = verdict_at app (get_task_status decode_status decode (feed k))

  abbrev pub settled : Verdict → Option (Option WaitError)
  settled done = some none
  settled (ended e) = some (some e)
  settled poll_again = none

  after_poll-settled :
      (v : Verdict) (more : Option (Option WaitError))
      → v ≢ poll_again
      → after_poll decode_status decode v more ≡ settled v
  after_poll-settled done more h = refl
  after_poll-settled (ended e) more h = refl
  after_poll-settled poll_again more h = absurd (h refl)

  pub wait_from-settled :
      (fuel k n : ℕ)
      → n < fuel
      → ((j : ℕ) → j < n → polled (k + j) ≡ poll_again)
      → polled (k + n) ≢ poll_again
      → wait_from decode_status decode fuel app feed k ≡ settled (polled (k + n))
  unfolding wait_from
  wait_from-settled zero k n l before final = absurd (omega (arith, l))
  wait_from-settled (suc fuel) k zero l before final =
      let z : k + 0 ≡ k = omega arith in rw z (after_poll-settled (polled k) _ (rw z at final))
  wait_from-settled (suc fuel) k (suc n) l before final =
      let z : k + 0 ≡ k = omega arith in
      let s : suc k + n ≡ k + suc n = omega arith in
      let now : polled k ≡ poll_again = rw z at (before 0 (omega arith)) in
      rw now (
        wait_from-settled fuel (suc k) n (omega (arith, l))
          (λ j h.
            let t : suc k + j ≡ k + suc j = omega arith in rw t (before (suc j) (omega (arith, h))))
          (λ e. final (subst (λ m. polled m ≡ poll_again) s e))
        ∙ ap (λ m. settled (polled m)) s)

  -- The poll at which a result stands.
  abbrev pub Settles : ℕ → Option WaitError → Type 0
  Settles k o =
      (n : ℕ) × ((j : ℕ) → j < n → polled (k + j) ≡ poll_again)
      × (settled (polled (k + n)) ≡ some o)

  Settles-here : (k : ℕ) (o : Option WaitError) → settled (polled k) ≡ some o → Settles k o
  Settles-here k o h =
      let z : k + 0 ≡ k = omega arith in (0, λ j l. absurd (omega (arith, l)), rw z h)

  Settles-later :
      (k : ℕ) (o : Option WaitError) → polled k ≡ poll_again → Settles (suc k) o → Settles k o
  Settles-later k o now (n, before, h) =
      let s : suc k + n ≡ k + suc n = omega arith in
      (suc n, earlier n before, subst (λ m. settled (polled m) ≡ some o) s h)
    where
      earlier :
          (n : ℕ)
          → ((j : ℕ) → j < n → polled (suc k + j) ≡ poll_again)
          → (j : ℕ) → j < suc n
          → polled (k + j) ≡ poll_again
      earlier n before zero l = let z : k + 0 ≡ k = omega arith in rw z now
      earlier n before (suc j) l =
          let t : suc k + j ≡ k + suc j = omega arith in
          subst (λ m. polled m ≡ poll_again) t (before j (omega (arith, l)))

  after_poll-Settles :
      (k : ℕ) (v : Verdict) (more : Option (Option WaitError)) (o : Option WaitError)
      → polled k ≡ v
      → after_poll decode_status decode v more ≡ some o
      → (more ≡ some o → Settles (suc k) o)
      → Settles k o
  after_poll-Settles k done more o e h rest = Settles-here k o (ap settled e ∙ h)
  after_poll-Settles k (ended x) more o e h rest = Settles-here k o (ap settled e ∙ h)
  after_poll-Settles k poll_again more o e h rest = Settles-later k o e (rest h)

  pub wait_from-Settles :
      (fuel k : ℕ) (o : Option WaitError)
      → wait_from decode_status decode fuel app feed k ≡ some o
      → Settles k o
  unfolding wait_from
  wait_from-Settles zero k o h = absurd (cc h)
  wait_from-Settles (suc fuel) k o h =
      after_poll-Settles k (polled k) _ o refl h (λ r. wait_from-Settles fuel (suc k) o r)

  pub done_of : (v : Verdict) → settled v ≡ some none → v ≡ done
  done_of done h = refl
  done_of (ended e) h = absurd (cc h)
  done_of poll_again h = absurd (cc h)

  -- What the server said at a poll.
  abbrev pub Said : ℕ → String → Type 0
  Said k status =
      (info : TaskStatus) × (get_task_status decode_status decode (feed k) ≡ ok info)
      × (info.status ≡ status)

  said_of :
      (r : Result TaskStatus) (v : Verdict) (status : String)
      → ((info : TaskStatus) → verdict_of app info ≡ v → info.status ≡ status)
      → ((e : WaitError) → v ≢ ended e)
      → verdict_at app r ≡ v
      → (info : TaskStatus) × (r ≡ ok info) × (info.status ≡ status)
  said_of (ok info) v status named fine h = (info, refl, named info h)
  said_of (err e) v status named fine h = absurd (fine _ (sym h))

  pub Said-deployed : (k : ℕ) → polled k ≡ done → Said k status_deployed
  Said-deployed k h =
      said_of _ done status_deployed (λ info e. (verdict_of-done app info).0 e) (λ e q. cc q) h

  pub Said-in_progress : (k : ℕ) → polled k ≡ poll_again → Said k status_in_progress
  Said-in_progress k h =
      said_of _ poll_again status_in_progress (λ info e. (verdict_of-poll_again app info).0 e)
        (λ e q. cc q) h
