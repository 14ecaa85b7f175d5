-- ===== src/Argocd/Poll/Ends.antt =====
-- How polling a rollout ends.
use argo_watcher.Common.{
  ℕ, zero, suc, ◌+◌, ◌<◌, true, Option, none, some, ◌≡◌, refl, subst, inl, inr, Bool-cases, is_some,
  arith,
}
use argo_watcher.Models.Task.{Task, is_app_not_found_error}
use argo_watcher.Models.Application.{Application}
use argo_watcher.Argocd.Errors.{
  Err, call, force_retry, app_degraded, rollout_state_already_observed,
}
use argo_watcher.Argocd.Window.{configure_retry_options}
use argo_watcher.Argocd.Window.Bounds.{configure_retry_options_lem}
use argo_watcher.Argocd.World.{Config}
use argo_watcher.Argocd.Poll.{
  Retry, RetryLaws, start_polling, wait_rollout, Outcome, finished, retryable, unrecoverable, Fetch,
  fetched, fetch_failed, Poll, PollState, task_superseded_by, resolve_refresh,
  handle_application_fetch_error, examine, examine_fetch, count_fetch, poll_once, reported,
}
use argo_watcher.Argocd.Poll.Rule.{retry_rule, Attempt}

-- Where polling ends without an error, or by a sentinel that stands for a state of the application,
-- the application was fetched.
abbrev Seen : PollState → Option Err → Type 0
Seen s none = is_some s.application ≡ true
Seen s (some force_retry) = is_some s.application ≡ true
Seen s (some app_degraded) = is_some s.application ≡ true
Seen s (some _) = Unit {0}

abbrev Any : ℕ → PollState → Type 0
Any n s = Unit {0}

Seen-error : (s : PollState) (e : Err) → is_some s.application ≡ true → Seen s (some e)
Seen-error s force_retry h = h
Seen-error s app_degraded h = h
Seen-error s _ h = tt

Attempt-of_Seen :
    (n : ℕ) (s : PollState) (o : Outcome) → is_some s.application ≡ true → Attempt Any Seen n s o
Attempt-of_Seen n s finished h = h
Attempt-of_Seen n s (unrecoverable e) h = Seen-error s e h
Attempt-of_Seen n s (retryable e) h = (tt, Seen-error s e h)

examine_sees :
    (c : Config) (task : Task) (p : Poll) (app : Application) (s : PollState)
    → is_some (examine c task p app s).0.application ≡ true
unfolding examine
examine_sees c task p app s = ground arith

examine_fetch-Attempt :
    (c : Config) (task : Task) (n : ℕ) (p : Poll) (f : Fetch) (s : PollState)
    → Attempt Any Seen n (examine_fetch c task p f s).0 (examine_fetch c task p f s).1
unfolding handle_application_fetch_error
examine_fetch-Attempt c task n p (fetched app) s =
    Attempt-of_Seen n (examine c task p app s).0 (examine c task p app s).1
      (examine_sees c task p app s)
examine_fetch-Attempt c task n p (fetch_failed e) s =
    elim (Bool-cases (is_app_not_found_error task e.message)) [
      | inl b ↦ rw b tt
      | inr b ↦ rw b (tt, tt)
    ]

poll_once-Attempt :
    (c : Config) (task : Task) (feed : ℕ → Poll) (n : ℕ) (s : PollState)
    → Attempt Any Seen n (poll_once c task feed s).0 (poll_once c task feed s).1
unfolding poll_once
poll_once-Attempt c task feed n s = elim (Bool-cases (task_superseded_by (feed s.polls).stored)) [
  | inl a ↦ simp (a) tt
  | inr a ↦ elim (Bool-cases (feed s.polls).abandoned) [
    | inl b ↦ simp (a, b) tt
    | inr b ↦
        simp (a, b)
          (examine_fetch-Attempt c task n (feed s.polls) (feed s.polls).application
            (count_fetch (resolve_refresh c task) (record s { polls = s.polls + 1 })))
  ]
]

-- What `WaitRollout` may return: no error, with an application, or an error that is none of the two
-- sentinels by which the loop goes on.
abbrev pub Reported : Option Application → Option Err → Type 0
Reported app none = is_some app ≡ true
Reported app (some force_retry) = ⊥
Reported app (some app_degraded) = ⊥
Reported app (some _) = Unit {0}

Reported-of_Seen :
    (s : PollState) (err : Option Err) (app : Option Application)
    → s.application ≡ app
    → Seen s err
    → Reported app (reported app err)
unfolding rollout_state_already_observed
Reported-of_Seen s none none e h = subst (λ a. is_some a ≡ true) e h
Reported-of_Seen s none (some app) e h = refl
Reported-of_Seen s (some force_retry) none e h = cc (subst (λ a. is_some a ≡ true) e h)
Reported-of_Seen s (some force_retry) (some app) e h = refl
Reported-of_Seen s (some app_degraded) none e h = cc (subst (λ a. is_some a ≡ true) e h)
Reported-of_Seen s (some app_degraded) (some app) e h = refl
Reported-of_Seen s (some (call x)) none e h = tt
Reported-of_Seen s (some (call x)) (some app) e h = ground arith
Reported-of_Seen s (some _) none e h = tt
Reported-of_Seen s (some _) (some app) e h = tt

polls_end :
    (r : Retry) (laws : RetryLaws r) (c : Config) (task : Task) (feed : ℕ → Poll) (n : ℕ)
    → 0 < n
    → let (s, err) =
        r.retry_do PollState n
          (λ s. (feed s.polls).expired)
          (poll_once c task feed)
          start_polling in
      Seen s err
polls_end r laws c task feed zero h = ground arith
polls_end r laws c task feed (suc n) h =
    retry_rule Any Seen laws (λ s. (feed s.polls).expired) (poll_once c task feed) (λ n s _. tt)
      (λ n s _ _. poll_once-Attempt c task feed n s) n start_polling tt

-- With a retry library that keeps its laws, and whatever the polls meet: the wait for a rollout
-- that reports no error returns an application, and the error that it reports is neither the one
-- that asks for another poll nor the one that says that the application is degraded. Other errors,
-- such as that of a last poll that failed in passing, may be reported.
pub wait_rollout-Reported :
    (r : Retry) (laws : RetryLaws r) (c : Config) (task : Task) (feed : ℕ → Poll)
    → let (s, err) = wait_rollout r c task feed in Reported s.application err
unfolding wait_rollout
wait_rollout-Reported r laws c task feed =
    let n = (configure_retry_options c.schedule task).0 in
    let (s, err) =
      r.retry_do PollState n (λ s. (feed s.polls).expired) (poll_once c task feed) start_polling in
    Reported-of_Seen s err s.application refl
      (polls_end r laws c task feed n (configure_retry_options_lem c.schedule task).0)
