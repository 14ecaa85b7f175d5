-- ===== src/Argocd/Window/Bounds.antt =====
-- The attempts and the window that a rollout is given.
use argo_watcher.Common.{
  ℕ, ◌+◌, ◌*◌, ◌/◌, ◌≤◌, ◌<◌, true, false, ◌≡◌, refl, arith, leb, ◌∙◌, ap, Bool-cases, inl, inr,
}
use argo_watcher.Common.Int.{ℤ, pos, negsuc, lebℤ, int64, quot, ◌+ℤ◌, max_int64, int64_of_le}
use argo_watcher.Helpers.Duration.{
  ceil_div_duration, safe_int_to_uint, mul_duration_saturating-eq_min, ceil_div_duration_bounds,
}
use argo_watcher.Models.Task.{Task}
use argo_watcher.Argocd.Window.{
  second, Schedule, resolved_delay, resolved_default_attempts, rollout_attempts,
  configure_retry_options, rollout_window,
}

safe_int_to_uint_pos : (v : ℤ) → 0 < safe_int_to_uint v
unfolding safe_int_to_uint
safe_int_to_uint_pos (pos v) = ground arith
safe_int_to_uint_pos (negsuc v) = omega arith

resolved_default_attempts_pos : (m : Schedule) (delay : ℤ) → 0 < resolved_default_attempts m delay
unfolding resolved_default_attempts
resolved_default_attempts_pos m delay = grind (arith, safe_int_to_uint_pos)

rollout_attempts_pos : (m : Schedule) (task : Task) (delay : ℤ) → 0 < rollout_attempts m task delay
unfolding rollout_attempts
rollout_attempts_pos m task delay = elim (Bool-cases (lebℤ task.timeout (pos 0))) [
  | inl e ↦ rw e (resolved_default_attempts_pos m delay)
  | inr e ↦ rw e (safe_int_to_uint_pos _)
]

own_timeout_lem :
    (m : Schedule) (task : Task) (delay : ℤ)
    → lebℤ task.timeout (pos 0) ≡ true
    → resolved_default_attempts m delay ≡ rollout_attempts m task delay
unfolding rollout_attempts
own_timeout_lem m task delay e = rw e

configure_lem :
    (m : Schedule) (task : Task)
    → configure_retry_options m task
      ≡ (rollout_attempts m task (resolved_delay m), rollout_window m task)
unfolding configure_retry_options rollout_window
configure_lem m task = elim (Bool-cases (lebℤ task.timeout (pos 0))) [
  | inl e ↦ rw (e, own_timeout_lem m task (resolved_delay m) e)
  | inr e ↦ rw e
]

-- The poll loop gets the window that a handover is measured by, and at least one poll.
pub configure_retry_options_lem :
    (m : Schedule) (task : Task)
    → let (attempts, deadline) = configure_retry_options m task in
      (0 < attempts)
      × (attempts ≡ rollout_attempts m task (resolved_delay m))
      × (deadline ≡ rollout_window m task)
configure_retry_options_lem m task =
    rw (configure_lem m task) (rollout_attempts_pos m task (resolved_delay m), refl, refl)

ceil_whole_seconds :
    (d : ℕ)
    → 0 < d
    → (d + 1) * second ≤ max_int64
    → ceil_div_duration (pos (d * second)) (pos second) ≡ pos d
ceil_whole_seconds d h b =
    let (r, e, low, high) =
      ceil_div_duration_bounds (d * second) second (omega arith) (omega arith) (omega arith) in
    e ∙ ap pos (omega arith)

safe_int_to_uint_of_pos : (v : ℕ) → 0 < v → v ≤ max_int64 → safe_int_to_uint (int64 (pos v)) ≡ v
unfolding safe_int_to_uint
safe_int_to_uint_of_pos v h b = rw (int64_of_le v b) (ground arith)

quot_suc : (t d : ℕ) → quot (pos t) d +ℤ pos 1 ≡ pos (t / d + 1)
unfolding quot ◌+ℤ◌
quot_suc t d = ground arith

positive_test : (t : ℕ) → 0 < t → leb (t + 0) 0 ≡ false
positive_test t h = ground arith

quotient_bounds : (t d : ℕ) → 0 < d → (t / d * d ≤ t) × (t < t / d * d + d) × (t / d ≤ t)
quotient_bounds t d h = (grind arith, grind arith, grind arith)

attempts_by_timeout :
    (m : Schedule) (task : Task) (delay : ℤ) (d t : ℕ)
    → task.timeout ≡ pos t
    → 0 < t
    → ceil_div_duration delay (pos second) ≡ pos d
    → rollout_attempts m task delay ≡ safe_int_to_uint (int64 (quot (pos t) d +ℤ pos 1))
unfolding rollout_attempts
attempts_by_timeout m task delay d t timeout h e = rw (timeout, e, positive_test t h)

-- For a delay of whole seconds and a timeout in seconds, as long as no duration overflows.
module _ (m : Schedule) (task : Task) (d t : ℕ) (delay : m.retry_delay ≡ pos (d * second))
    (d_pos : 0 < d) (timeout : task.timeout ≡ pos t) (t_pos : 0 < t)
    (fits : (t + d) * second ≤ max_int64) where
  resolved_delay_lem : resolved_delay m ≡ pos (d * second)
  unfolding resolved_delay
  resolved_delay_lem = rw delay (ground arith)

  attempts_lem : rollout_attempts m task (resolved_delay m) ≡ t / d + 1
  attempts_lem =
      attempts_by_timeout m task (resolved_delay m) d t timeout t_pos
        (rw resolved_delay_lem (ceil_whole_seconds d d_pos (omega arith)))
      ∙ rw (quot_suc t d) (
          safe_int_to_uint_of_pos (t / d + 1) (omega arith)
            (omega (arith, quotient_bounds t d d_pos)))

  -- The window is the timeout rounded up to whole polls: longer than the timeout, by one delay at
  -- most.
  pub rollout_window_bounds :
      (w : ℕ) × (rollout_window m task ≡ pos w) × (t * second < w) × (w ≤ (t + d) * second)
  unfolding rollout_window
  rollout_window_bounds = (
    (t / d + 1) * (d * second),
    rw (attempts_lem, resolved_delay_lem, mul_duration_saturating-eq_min)
        (ap pos (omega (arith, quotient_bounds t d d_pos))),
    omega (arith, quotient_bounds t d d_pos),
    omega (arith, quotient_bounds t d d_pos),
  )
