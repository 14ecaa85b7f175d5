-- ===== src/Server/Lockdown/Transitions.antt =====
-- internal/server/lockdown.go: what the watcher of the lock tells its clients.
use argo_watcher.Common.{
  ℕ, Bool, true, false, not, List, [], ◌∷◌, Option-cases, none, some, ◌≡◌, refl, inl, inr,
}
use argo_watcher.Server.Store.{DeployLockState, DeployLockStore}
use argo_watcher.Server.Lockdown.{
  Calendar, Lockdown, at_tick, is_locked_with, resolve, watch_ticks, watch_transitions,
}

-- Each differs from the one before it, the first from the state before.
abbrev pub Alternates : Bool → List Bool → Type 0
Alternates last [] = Unit {0}
Alternates last (b ∷ bs) = (b ≡ not last) × Alternates b bs

-- The last of a list, or what was before it.
abbrev pub last_of : Bool → List Bool → Bool
last_of last [] = last
last_of last (b ∷ bs) = last_of b bs

-- What was told keeps up with what was read.
abbrev KeepsUp : Bool → List Bool → List Bool → Type 0
KeepsUp last told seen = Alternates last told × (last_of last told ≡ last_of last seen)

at_tick-KeepsUp :
    (last current : Bool) (rest : Bool → List Bool) (seen : List Bool)
    → ((b : Bool) → KeepsUp b (rest b) seen)
    → KeepsUp last (at_tick last (current, false) rest) (current ∷ seen)
at_tick-KeepsUp true true rest seen h = h true
at_tick-KeepsUp false false rest seen h = h false
at_tick-KeepsUp true false rest seen h = ((refl, (h false).0), (h false).1)
at_tick-KeepsUp false true rest seen h = ((refl, (h true).0), (h true).1)

module _ (calendar : ℕ → Calendar) (d : DeployLockStore) (l : Lockdown) where
  -- Whether deployments were locked at each tick at which the store returned a state.
  abbrev pub readings : List (Bool × ℕ × d.Store) → List Bool
  readings [] = []
  readings ((up, now, s) ∷ ticks) = elim (d.state up s) [
    | none ↦ readings ticks
    | some state ↦ is_locked_with calendar l state now ∷ readings ticks
  ]

  -- What the watcher takes the state for at its start: locked, if the store returned none.
  abbrev pub baseline : Bool × ℕ × d.Store → Bool
  baseline (up, now, s) = elim (d.state up s) [
    | none ↦ true
    | some state ↦ is_locked_with calendar l state now
  ]

  resolve_unreadable :
      (up : Bool) (now : ℕ) (s : d.Store)
      → d.state up s ≡ none
      → resolve calendar d l up now s ≡ (true, true)
  unfolding resolve
  resolve_unreadable up now s e = rw (e, resolve) refl

  resolve_readable :
      (up : Bool) (now : ℕ) (s : d.Store) (state : DeployLockState)
      → d.state up s ≡ some state
      → resolve calendar d l up now s ≡ (is_locked_with calendar l state now, false)
  unfolding resolve
  resolve_readable up now s state e = rw (e, resolve) refl

  watch_ticks-KeepsUp :
      (ticks : List (Bool × ℕ × d.Store)) (last : Bool)
      → KeepsUp last (watch_ticks calendar d l last ticks) (readings ticks)
  unfolding watch_ticks
  watch_ticks-KeepsUp [] last = (tt, refl)
  watch_ticks-KeepsUp ((up, now, s) ∷ ticks) last = elim (Option-cases (d.state up s)) [
    | inl e ↦ rw (resolve_unreadable up now s e, e, readings) (watch_ticks-KeepsUp ticks last)
    | inr (state, e) ↦
        rw (resolve_readable up now s state e, e, readings)
          (at_tick-KeepsUp last (is_locked_with calendar l state now)
            (λ b. watch_ticks calendar d l b ticks) (readings ticks) (watch_ticks-KeepsUp ticks))
  ]

  resolve-baseline :
      (up : Bool) (now : ℕ) (s : d.Store)
      → (resolve calendar d l up now s).0 ≡ baseline (up, now, s)
  resolve-baseline up now s = elim (Option-cases (d.state up s)) [
    | inl e ↦ rw (resolve_unreadable up now s e, e, baseline) refl
    | inr (state, e) ↦ rw (resolve_readable up now s state e, e, baseline) refl
  ]

  -- The watcher starts from the state that the store has then, or from locked where the store cannot
  -- be read, and tells it to no one. From there it never tells the same state twice in a row, and
  -- after any ticks the state it told last, or else the one it started from, is the state of the last
  -- tick at which the store could be read: a store that cannot be read is no transition.
  pub watch_transitions-Alternates :
      (first : Bool × ℕ × d.Store) (ticks : List (Bool × ℕ × d.Store))
      → let told = watch_transitions calendar d l first ticks in
        Alternates (baseline first) told
        × (last_of (baseline first) told ≡ last_of (baseline first) (readings ticks))
  unfolding watch_transitions
  watch_transitions-Alternates (up, now, s) ticks =
      rw (resolve-baseline up now s) (watch_ticks-KeepsUp ticks (baseline (up, now, s)))
