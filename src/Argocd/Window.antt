-- ===== src/Argocd/Window.antt =====
-- internal/argocd/deployment_monitor.go and resume.go: how many polls a rollout gets, and how much
-- wall-clock time. Durations are in nanoseconds.
pub mod Bounds
use argo_watcher.Common.{
  ℕ, zero, suc, ◌+◌, ◌-◌, ◌*◌, ◌/◌, ◌≤◌, ◌<◌, Bool, true, false, not, ◌≡◌, refl, if◌then◌else◌,
  ◌==◌, arith,
}
use argo_watcher.Common.Int.{ℤ, pos, negsuc, lebℤ, int64, quot, ◌+ℤ◌, ◌-ℤ◌, pos_part}
use argo_watcher.Helpers.Duration.{mul_duration_saturating, ceil_div_duration, safe_int_to_uint}
use argo_watcher.Models.Task.{Task}

abbrev pub second : ℕ
second = 1000000000

abbrev pub argo_sync_retry_delay : ℕ
argo_sync_retry_delay = 15000000000

abbrev pub legacy_retry_intervals : ℕ
legacy_retry_intervals = 15

-- The monitor's `retryDelay` and `defaultAttempts`.
pub record Schedule : Type 0 where
  pub retry_delay : ℤ
  pub default_attempts : ℕ

-- `resolvedDelay`.
unfoldable pub resolved_delay : Schedule → ℤ
resolved_delay m = if lebℤ m.retry_delay (pos 0) then pos argo_sync_retry_delay else m.retry_delay

-- `resolvedDefaultAttempts`.
unfoldable pub resolved_default_attempts : Schedule → ℤ → ℕ
resolved_default_attempts m delay =
    if not (m.default_attempts == 0)
    then m.default_attempts
    else (let fallback_window = pos (legacy_retry_intervals * argo_sync_retry_delay) in
        safe_int_to_uint (ceil_div_duration fallback_window delay))

-- `rolloutAttempts`; `CeilDivDuration` returns at least 1.
unfoldable pub rollout_attempts : Schedule → Task → ℤ → ℕ
unfolding int64 quot ◌+ℤ◌
rollout_attempts m task delay =
    if lebℤ task.timeout (pos 0)
    then resolved_default_attempts m delay
    else safe_int_to_uint
        (int64 (quot task.timeout (pos_part (ceil_div_duration delay (pos second))) +ℤ pos 1))

-- `configureRetryOptions`: the attempts and the deadline.
unfoldable pub configure_retry_options : Schedule → Task → ℕ × ℤ
configure_retry_options m task =
    let delay = resolved_delay m in
    let default_attempts = resolved_default_attempts m delay in
    if lebℤ task.timeout (pos 0)
    then (default_attempts, mul_duration_saturating default_attempts delay)
    else (let attempts = rollout_attempts m task delay in
        (attempts, mul_duration_saturating attempts delay))

-- `rolloutWindow`.
unfoldable pub rollout_window : Schedule → Task → ℤ
rollout_window m task =
    let delay = resolved_delay m in mul_duration_saturating (rollout_attempts m task delay) delay

-- `remainingWindow` at the time `now`, in nanoseconds since the epoch; `Sub` does not saturate at
-- times that a clock shows.
unfoldable pub remaining_window : Schedule → Task → ℕ → ℤ × Bool
unfolding int64 ◌-ℤ◌
remaining_window m task now =
    let window = rollout_window m task in
    let elapsed = pos now -ℤ pos (task.created * second) in
    let remaining = int64 (window -ℤ elapsed) in (remaining, lebℤ (pos second) remaining)
