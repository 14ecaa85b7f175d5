-- ===== src/Argocd/Poll/Rule.antt =====
-- How a retried function ends, from what `retry.Do` documents.
use argo_watcher.Common.{
  ℕ, zero, suc, Bool, false, Option, none, some, ◌≡◌, refl, inl, inr, Bool-cases,
}
use argo_watcher.Argocd.Errors.{Err}
use argo_watcher.Argocd.Poll.{
  Outcome, finished, retryable, unrecoverable, deadline_exceeded, Retry, RetryLaws,
}

module _ {S : Type 0} (P : ℕ → S → Type 0) (Done : S → Option Err → Type 0) where
  -- What an attempt with `n` attempts after it has to establish.
  abbrev pub Attempt : ℕ → S → Outcome → Type 0
  Attempt n s finished = Done s none
  Attempt n s (unrecoverable e) = Done s (some e)
  Attempt n s (retryable e) = P n s × Done s (some e)

  module _ {r : Retry} (laws : RetryLaws r) (expired : S → Bool) (body : S → S × Outcome)
      (late : (n : ℕ) (s : S) → P (suc n) s → Done s (some deadline_exceeded))
      (attempt : (n : ℕ) (s : S)
        → P (suc n) s
        → expired s ≡ false
        → Attempt n (body s).0 (body s).1) where
    abbrev AtEnd : ℕ → S → Type 0
    AtEnd n s = Done (r.retry_do S n expired body s).0 (r.retry_do S n expired body s).1

    ended_last :
        (s : S) (o : Outcome)
        → expired s ≡ false
        → (body s).1 ≡ o
        → Attempt 0 (body s).0 o
        → AtEnd 1 s
    ended_last s finished e b a = rw (laws.on_success S 0 expired body s e b) a
    ended_last s (unrecoverable x) e b a = rw (laws.on_unrecoverable S 0 expired body s x e b) a
    ended_last s (retryable x) e b a = rw (laws.on_last S expired body s x e b) a.1

    ended :
        (n : ℕ) (s : S) (o : Outcome)
        → expired s ≡ false
        → (body s).1 ≡ o
        → Attempt (suc n) (body s).0 o
        → (P (suc n) (body s).0 → AtEnd (suc n) (body s).0)
        → AtEnd (suc (suc n)) s
    ended n s finished e b a again = rw (laws.on_success S (suc n) expired body s e b) a
    ended n s (unrecoverable x) e b a again =
        rw (laws.on_unrecoverable S (suc n) expired body s x e b) a
    ended n s (retryable x) e b a again = rw (laws.on_retry S n expired body s x e b) (again a.0)

    -- An invariant of the attempts gives what holds at the end.
    pub retry_rule : (n : ℕ) (s : S) → P (suc n) s → AtEnd (suc n) s
    retry_rule zero s p = elim (Bool-cases (expired s)) [
      | inl e ↦ rw (laws.at_deadline S 0 expired body s e) (late 0 s p)
      | inr e ↦ ended_last s (body s).1 e refl (attempt 0 s p e)
    ]
    retry_rule (suc n) s p = elim (Bool-cases (expired s)) [
      | inl e ↦ rw (laws.at_deadline S (suc n) expired body s e) (late (suc n) s p)
      | inr e ↦ ended n s (body s).1 e refl (attempt (suc n) s p e) (retry_rule n (body s).0)
    ]
