-- ===== src/Argocd/WriteBack/Written.antt =====
-- internal/argocd/git_writeback.go and git_updater.go: what the result of a write-back says of git.
use argo_watcher.Common.{
  ℕ, zero, suc, ◌≤◌, ◌<◌, ◌+◌, true, false, List, Option, none, some, ltb, ◌≡◌, refl, sym, subst,
  Bool-cases, inl, inr, arith,
}
use argo_watcher.Argocd.Overrides.{ParameterOverride}
use argo_watcher.Argocd.BatchWrite.{GitError}
use argo_watcher.Argocd.WriteBack.{
  GitAttempt, AttemptError, UpdateError, deployment_superseded, attempt_failed, backoff_cancelled,
  attempts_exhausted, config_error, lock_error, invalid_overrides, invalid_repo, is_permanent,
  run_git_update_attempt, after_backoff, after_attempt, tries, run_git_update_with_retry,
}

module _ (feed : ℕ → GitAttempt) (overrides : List ParameterOverride) where
  -- The attempt was made, and failed with an error that may pass.
  abbrev pub Passing : ℕ → AttemptError → Type 0
  Passing i e =
      ((feed i).is_superseded ≡ false)
      × (run_git_update_attempt overrides (feed i) ≡ some e)
      × (is_permanent e ≡ false)

  -- It was followed by another one.
  abbrev pub Retried : ℕ → Type 0
  Retried i = (e : AttemptError) × Passing i e × ((feed i).cancelled ≡ none)

  -- How the attempt `i` gives the result, where `final` is the last one that is allowed.
  abbrev pub Ends : ℕ → ℕ → Option UpdateError → Type 0
  Ends final i none =
      ((feed i).is_superseded ≡ false) × (run_git_update_attempt overrides (feed i) ≡ none)
  Ends final i (some deployment_superseded) = (feed i).is_superseded ≡ true
  Ends final i (some (attempt_failed e)) =
      ((feed i).is_superseded ≡ false)
      × (run_git_update_attempt overrides (feed i) ≡ some e)
      × (is_permanent e ≡ true)
  Ends final i (some (backoff_cancelled g)) =
      (e : AttemptError) × Passing i e × ((feed i).cancelled ≡ some g) × (i < final)
  Ends final i (some (attempts_exhausted last)) =
      (e : AttemptError) × Passing i e × (last ≡ some e) × (i ≡ final)
  Ends final i (some (config_error g)) = ⊥
  Ends final i (some (lock_error g)) = ⊥
  Ends final i (some (invalid_overrides e)) = ⊥
  Ends final i (some (invalid_repo e)) = ⊥

  abbrev pub EndsFrom : ℕ → ℕ → Option UpdateError → Type 0
  EndsFrom final i result =
      (m : ℕ) × (i ≤ m) × (m ≤ final) × ((j : ℕ) → i ≤ j → j < m → Retried j) × Ends final m result

  here :
      (final i : ℕ) (result : Option UpdateError)
      → i ≤ final
      → Ends final i result
      → EndsFrom final i result
  here final i result b e = (i, omega arith, b, λ j l u. absurd (omega (arith, l, u)), e)

  later :
      (final i : ℕ) (result : Option UpdateError)
      → Retried i
      → EndsFrom final (suc i) result
      → EndsFrom final i result
  later final i result r (m, l, u, before, e) = (m, omega (arith, l), u, earlier, e)
    where
      earlier : (j : ℕ) → i ≤ j → j < m → Retried j
      earlier j low high = elim (Bool-cases (ltb i j)) [
        | inl b ↦ before j (ground (arith, b)) high
        | inr b ↦ subst Retried (ground (arith, b, low)) r
      ]

  -- After an attempt that failed in passing.
  backed_off :
      (final i left : ℕ) (more : Option UpdateError) (e : AttemptError)
      → final ≡ i + left
      → Passing i e
      → (c : Option GitError) → (feed i).cancelled ≡ c
      → (left ≡ 0 → more ≡ some (attempts_exhausted (some e)))
      → (0 < left → EndsFrom final (suc i) more)
      → EndsFrom final i (after_backoff left c more)
  backed_off final i zero more e f p c q exhausted rest =
      here final i _ (omega (arith, f))
        (subst (Ends final i) (sym (exhausted refl)) (e, p, refl, omega (arith, f)))
  backed_off final i (suc left) more e f p none q exhausted rest =
      later final i _ (e, p, q) (rest (omega arith))
  backed_off final i (suc left) more e f p (some g) q exhausted rest =
      here final i (some (backoff_cancelled g)) (omega (arith, f)) (e, p, q, omega (arith, f))

  attempted :
      (final i left : ℕ) (more : Option UpdateError) (result : Option AttemptError)
      → final ≡ i + left
      → (feed i).is_superseded ≡ false
      → run_git_update_attempt overrides (feed i) ≡ result
      → (left ≡ 0 → more ≡ some (attempts_exhausted result))
      → (0 < left → EndsFrom final (suc i) more)
      → EndsFrom final i (after_attempt left (feed i) result more)
  attempted final i left more none f s r exhausted rest =
      here final i none (omega (arith, f)) (s, r)
  attempted final i left more (some e) f s r exhausted rest = elim (Bool-cases (is_permanent e)) [
    | inl b ↦ rw (b) (here final i (some (attempt_failed e)) (omega (arith, f)) (s, r, b))
    | inr b ↦
        rw (b) (backed_off final i left more e f (s, r, b) (feed i).cancelled refl exhausted rest)
  ]

  tries_exhausted :
      (left i : ℕ) (last : Option AttemptError)
      → left ≡ 0
      → tries feed overrides left i last ≡ some (attempts_exhausted last)
  unfolding tries
  tries_exhausted zero i last e = refl
  tries_exhausted (suc left) i last e = absurd (omega (arith, e))

  tried :
      (final left i : ℕ) (last : Option AttemptError)
      → final ≡ i + left
      → (0 < left
          → EndsFrom final
              (suc i)
              (tries feed overrides left (suc i) (run_git_update_attempt overrides (feed i))))
      → EndsFrom final i (tries feed overrides (suc left) i last)
  unfolding tries
  tried final left i last f rest = elim (Bool-cases (feed i).is_superseded) [
    | inl s ↦ rw (s) (here final i (some deployment_superseded) (omega (arith, f)) s)
    | inr s ↦ rw (s) (
        attempted final i left _ _ f s refl
          (tries_exhausted left (suc i) (run_git_update_attempt overrides (feed i))) rest)
  ]

  tries-EndsFrom :
      (final left i : ℕ) (last : Option AttemptError)
      → final ≡ i + left
      → EndsFrom final i (tries feed overrides (suc left) i last)
  tries-EndsFrom final zero i last f = tried final zero i last f (λ l. absurd (omega (arith, l)))
  tries-EndsFrom final (suc left) i last f = tried final (suc left) i last f (λ l.
      tries-EndsFrom final left (suc i) (run_git_update_attempt overrides (feed i))
        (omega (arith, f)))

  -- With at least one attempt allowed, the attempts are made in order, and every one before the last
  -- that is made was not superseded and failed with an error that may pass. The result is what that
  -- last one says: nothing if it was not superseded, cloned and updated; superseded exactly if it was;
  -- its own error if that is permanent; a cancelled wait only if more attempts were allowed; and
  -- exhaustion, with the error of that attempt, only if it is the last one that is allowed.
  pub run_git_update_with_retry-EndsFrom :
      (n : ℕ) → 0 < n → EndsFrom n 1 (run_git_update_with_retry feed overrides n)
  unfolding run_git_update_with_retry
  run_git_update_with_retry-EndsFrom zero l = absurd (omega (arith, l))
  run_git_update_with_retry-EndsFrom (suc n) l = tries-EndsFrom (suc n) n 1 none (omega arith)
