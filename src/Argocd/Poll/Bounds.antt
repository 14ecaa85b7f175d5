-- ===== src/Argocd/Poll/Bounds.antt =====
-- How often polling a rollout asks ArgoCD.
use argo_watcher.Common.{ℕ, ◌+◌, ◌≤◌, Option}
use argo_watcher.Models.Task.{Task}
use argo_watcher.Models.Application.{Application}
use argo_watcher.Argocd.Errors.{Err}
use argo_watcher.Argocd.Poll.{Poll, PollState}

module _ (most last : ℕ) where
  -- Before a poll with `n` attempts left.
  abbrev Pending : ℕ → PollState → Type 0
  Pending n s = (s.polls + n ≤ most) × (s.fetches ≤ s.polls) × (s.polls ≤ last)

  abbrev Ended : PollState → Option Err → Type 0
  Ended s err = (s.polls ≤ most) × (s.fetches ≤ s.polls) × (s.fetches ≤ last)
