-- ===== src/Argocd/BatchWrite/Truthful.antt =====
-- internal/argocd/git_writeback_batch.go: a request that is answered with success was written.
use argo_watcher.Common.{
  ℕ, zero, suc, Bool, true, false, List, [], ◌∷◌, Option, none, some, str_eq, map, any, all,
  if◌then◌else◌, ◌≡◌, refl, ap, ◌∙◌, subst, ◌⊎◌, inl, inr, Bool-cases, eq_iff, Has,
}
use argo_watcher.Argocd.Overrides.{
  ParameterOverride, Overrides, failed, parameters, generate_override_file_content,
}
use argo_watcher.Argocd.BatchWrite.{
  GitError, WriteRequest, WriteError, Entry, Commit, commit_failed, unchanged, committed, Wait,
  waited, draining, cancelled, Attempt, after_commit, after_generation, apply_request, apply_at,
  apply_unresolved, after_clone, fail_at, resolve_at, next, was_committed, run_batch_attempt,
  mark_pushed, fail_unresolved, record_attempt, is_resolved, latest, Ended, after_wait, attempts,
  resolve_remaining, unresolved, run_batch_write_back, result_of,
}

abbrev pub overrides : WriteRequest → Option Overrides
overrides r = generate_override_file_content r.annotations r.images

-- The request's overrides were committed in the attempt.
abbrev Committed : Attempt → WriteRequest → Type 0
Committed a r =
    (a.is_superseded r ≡ false)
    × (ps : List ParameterOverride) × (overrides r ≡ some (parameters ps))
    × (a.commit r ps ≡ committed)

-- The attempt had a clone and did not find the request superseded, and it had nothing to write, found
-- its overrides there, or pushed them.
abbrev pub Wrote : Attempt → WriteRequest → Type 0
Wrote a r =
    (a.clone_error ≡ none)
    × (a.is_superseded r ≡ false)
    × ((r.path ≡ "")
        ⊎ ((overrides r ≡ none)
            ⊎ ((ps : List ParameterOverride) × (overrides r ≡ some (parameters ps))
                × ((a.commit r ps ≡ unchanged)
                    ⊎ ((a.commit r ps ≡ committed) × (a.push_error ≡ none))))))

module _ (feed : ℕ → Attempt) where
  abbrev Good : Entry → Type 0
  Good e = e.outcome ≡ some none → (i : ℕ) × Wrote (feed i) e.request

  abbrev AllGood : List Entry → Type 0
  AllGood [] = Unit {0}
  AllGood (e ∷ es) = Good e × AllGood es

  -- An entry after an attempt.
  abbrev Applied : ℕ → Entry × Bool → Type 0
  Applied i (e, c) = Good e × (c ≡ true → Committed (feed i) e.request)

  abbrev AllApplied : ℕ → List (Entry × Bool) → Type 0
  AllApplied i [] = Unit {0}
  AllApplied i (p ∷ ps) = Applied i p × AllApplied i ps

  after_commit-Applied :
      (i : ℕ) (e : Entry) (ps : List ParameterOverride) (c : Commit)
      → (feed i).clone_error ≡ none
      → (feed i).is_superseded e.request ≡ false
      → overrides e.request ≡ some (parameters ps)
      → (feed i).commit e.request ps ≡ c
      → e.outcome ≡ none
      → Applied i (after_commit c e)
  after_commit-Applied i e ps (commit_failed g) cl su ov co o = (λ h. cc (h, o), λ h. cc h)
  after_commit-Applied i e ps unchanged cl su ov co o =
      (λ h. (i, (cl, su, inr (inr (ps, ov, inl co)))), λ h. cc h)
  after_commit-Applied i e ps committed cl su ov co o = (λ h. cc (h, o), λ h. (su, ps, ov, co))

  after_generation-Applied :
      (i : ℕ) (e : Entry) (g : Option Overrides)
      → (feed i).clone_error ≡ none
      → (feed i).is_superseded e.request ≡ false
      → overrides e.request ≡ g
      → e.outcome ≡ none
      → Applied i (after_generation (feed i) e g)
  after_generation-Applied i e none cl su ov o = (λ h. (i, (cl, su, inr (inl ov))), λ h. cc h)
  after_generation-Applied i e (some (failed x)) cl su ov o = (λ h. cc h, λ h. cc h)
  after_generation-Applied i e (some (parameters ps)) cl su ov o =
      after_commit-Applied i e ps ((feed i).commit e.request ps) cl su ov refl o

  apply_request-Applied :
      (i : ℕ) (e : Entry)
      → (feed i).clone_error ≡ none
      → e.outcome ≡ none
      → Applied i (apply_request (feed i) e)
  unfolding apply_request
  apply_request-Applied i e cl o = elim (Bool-cases ((feed i).is_superseded e.request)) [
    | inl s ↦ rw s (λ h. cc h, λ h. cc h)
    | inr s ↦ elim (Bool-cases (str_eq e.request.path "")) [
      | inl p ↦ rw (s, p) (λ h. (i, (cl, s, inl ((eq_iff e.request.path "").0 p))), λ h. cc h)
      | inr p ↦ rw (s, p) (after_generation-Applied i e (overrides e.request) cl s refl o)
    ]
  ]

  apply_at-Applied :
      (i : ℕ) (e : Entry) (o : Option (Option WriteError))
      → (feed i).clone_error ≡ none
      → e.outcome ≡ o
      → Good e
      → Applied i (apply_at (feed i) e o)
  apply_at-Applied i e none cl o g = apply_request-Applied i e cl o
  apply_at-Applied i e (some x) cl o g = (g, λ h. cc h)

  all-Applied :
      (i : ℕ) (es : List Entry)
      → (feed i).clone_error ≡ none
      → AllGood es
      → AllApplied i (map (apply_unresolved (feed i)) es)
  all-Applied i [] cl g = tt
  all-Applied i (e ∷ es) cl (g, gs) =
      (apply_at-Applied i e e.outcome cl refl g, all-Applied i es cl gs)

  uncloned-Applied :
      (i : ℕ) (es : List Entry) → AllGood es → AllApplied i (map (λ e. (e, false)) es)
  uncloned-Applied i [] g = tt
  uncloned-Applied i (e ∷ es) (g, gs) = ((g, λ h. cc h), uncloned-Applied i es gs)

  -- What the attempt's error says of the push.
  abbrev PushedIf : ℕ → List (Entry × Bool) → Option GitError → Type 0
  PushedIf i applied err =
      err ≡ none
      → any was_committed applied ≡ true
      → ((feed i).clone_error ≡ none) × ((feed i).push_error ≡ none)

  after_clone-Applied :
      (i : ℕ) (es : List Entry) (c : Option GitError)
      → (feed i).clone_error ≡ c
      → AllGood es
      → let (applied, err) = after_clone (feed i) es c in
        AllApplied i applied × PushedIf i applied err
  after_clone-Applied i es (some x) cl g = (uncloned-Applied i es g, λ h. cc h)
  after_clone-Applied i es none cl g = (all-Applied i es cl g, λ h k. (cl, rw k at h))

  pushed-Good :
      (i : ℕ) (applied : List (Entry × Bool))
      → AllApplied i applied
      → (any was_committed applied ≡ true
          → ((feed i).clone_error ≡ none) × ((feed i).push_error ≡ none))
      → AllGood (map mark_pushed applied)
  pushed-Good i [] h k = tt
  pushed-Good i ((e, true) ∷ rest) ((g, c), h) k =
      let (su, ps, ov, co) = c refl in
      let (cl, pu) = k refl in
      (λ _. (i, (cl, su, inr (inr (ps, ov, inr (co, pu))))), pushed-Good i rest h (λ _. (cl, pu)))
  pushed-Good i ((e, false) ∷ rest) ((g, c), h) k = (g, pushed-Good i rest h k)

  kept-Good :
      (i : ℕ) (applied : List (Entry × Bool))
      → AllApplied i applied
      → AllGood (map (λ p. p.0) applied)
  kept-Good i [] h = tt
  kept-Good i (p ∷ rest) (h, hs) = (h.0, kept-Good i rest hs)

  fail_at-Good :
      (g : GitError) (e : Entry) (o : Option (Option WriteError)) → Good e → Good (fail_at g e o)
  fail_at-Good g e none h = λ k. cc k
  fail_at-Good g e (some x) h = h

  failed-Good :
      (i : ℕ) (g : GitError) (applied : List (Entry × Bool))
      → AllApplied i applied
      → AllGood (map (λ p. fail_unresolved g p.0) applied)
  failed-Good i g [] h = tt
  failed-Good i g (p ∷ rest) (h, hs) = (fail_at-Good g p.0 p.0.outcome h.0, failed-Good i g rest hs)

  record_attempt-Good :
      (i : ℕ) (applied : List (Entry × Bool)) (err : Option GitError)
      → AllApplied i applied
      → PushedIf i applied err
      → AllGood (record_attempt applied err).0
  unfolding record_attempt
  record_attempt-Good i applied none h k = pushed-Good i applied h (k refl)
  record_attempt-Good i applied (some g) h k = elim (Bool-cases g.permanent) [
    | inl p ↦ simp (p) (failed-Good i g applied h)
    | inr p ↦ simp (p) (kept-Good i applied h)
  ]

  run_batch_attempt-Applied :
      (i : ℕ) (es : List Entry)
      → AllGood es
      → let (applied, err) = run_batch_attempt (feed i) es in
        AllApplied i applied × PushedIf i applied err
  unfolding run_batch_attempt
  run_batch_attempt-Applied i es g = after_clone-Applied i es (feed i).clone_error refl g

  after_wait-Good :
      (w : Wait) (es : List Entry) (last : Option GitError) (more : Ended)
      → AllGood es
      → AllGood more.0
      → AllGood (after_wait w es last more).0
  after_wait-Good waited es last more g h = h
  after_wait-Good draining es last more g h = g
  after_wait-Good (cancelled x) es last more g h = g

  next-Good :
      (left : ℕ) (w : Wait) (es : List Entry) (last : Option GitError) (more : Ended)
      → AllGood es
      → AllGood more.0
      → AllGood (next left w es last more).0
  next-Good zero w es last more g h = h
  next-Good (suc left) w es last more g h = after_wait-Good w es last more g h

  either-Good :
      (b : Bool) (x y : Ended) → AllGood x.0 → AllGood y.0 → AllGood (if b then x else y).0
  either-Good true x y g h = g
  either-Good false x y g h = h

  attempts-Good :
      (left i : ℕ) (es : List Entry) (last : Option GitError)
      → AllGood es
      → AllGood (attempts feed left i es last).0
  unfolding attempts
  attempts-Good zero i es last g = g
  attempts-Good (suc left) i es last g =
      let (applied, err) = run_batch_attempt (feed i) es in
      let (es', stop) = record_attempt applied err in
      let last' = latest err last in
      let more = attempts feed left (suc i) es' last' in
      let (h, k) = run_batch_attempt-Applied i es g in
      let g' = record_attempt-Good i applied err h k in
      let further = attempts-Good left (suc i) es' last' g' in
      either-Good (all is_resolved es) (es, last, false) _ g
        (either-Good stop (es', last', false) _ g'
          (either-Good (all is_resolved es') (es', last', false)
            (next left (feed i).wait es' last' more) g'
            (next-Good left (feed i).wait es' last' more g' further)))

  resolve_at-Good :
      (last : Option GitError) (drained : Bool) (e : Entry) (o : Option (Option WriteError))
      → e.outcome ≡ o
      → Good e
      → let e' = resolve_at last drained e o in
        result_of e' ≡ none → (i : ℕ) × Wrote (feed i) e'.request
  resolve_at-Good last drained e none o g h = cc h
  resolve_at-Good last drained e (some none) o g h = g o
  resolve_at-Good last drained e (some (some x)) o g h = cc (o, h)

  resolved-Good :
      (last : Option GitError) (drained : Bool) (es : List Entry) (e : Entry)
      → AllGood es
      → Has e (map (resolve_remaining last drained) es)
      → result_of e ≡ none
      → (i : ℕ) × Wrote (feed i) e.request
  resolved-Good last drained [] e g h r = absurd h
  resolved-Good last drained (x ∷ es) e (g, gs) (inl h) r =
      subst (λ y. (i : ℕ) × Wrote (feed i) y.request) h
        (resolve_at-Good last drained x x.outcome refl g (ap result_of h ∙ r))
  resolved-Good last drained (x ∷ es) e (g, gs) (inr h) r = resolved-Good last drained es e gs h r

  unresolved-Good : (batch : List WriteRequest) → AllGood (map unresolved batch)
  unresolved-Good [] = tt
  unresolved-Good (r ∷ rs) = ((λ h. cc h), unresolved-Good rs)

  -- A request that the batch answers with success was written: in one of the attempts the clone
  -- succeeded, the request was not superseded, and it had nothing to write, found its overrides in
  -- place, or committed them and the push of that attempt succeeded. So no request is left without an
  -- outcome, which would read as success.
  pub run_batch_write_back-Wrote :
      (max_attempts : ℕ) (batch : List WriteRequest) (e : Entry)
      → Has e (run_batch_write_back max_attempts feed batch)
      → result_of e ≡ none
      → (i : ℕ) × Wrote (feed i) e.request
  unfolding run_batch_write_back
  run_batch_write_back-Wrote max_attempts batch e h r =
      let (es, last, drained) = attempts feed max_attempts 1 (map unresolved batch) none in
      resolved-Good last drained es e
        (attempts-Good max_attempts 1 (map unresolved batch) none (unresolved-Good batch)) h r
