-- ===== src/Argocd/Batcher/Order.antt =====
-- internal/argocd/batcher.go: the order of one key's requests.
use argo_watcher.Common.{
  ℕ, zero, suc, ◌+◌, ◌≤◌, Bool, true, false, List, [], ◌∷◌, ◌++◌, Option, none, some, map, length,
  take, drop, is_empty, ◌≡◌, refl, sym, ap, ap₂, ◌∙◌, if◌then◌else◌, ltb, arith, length-append,
  take-append-drop, length-take,
}
use mathlib.Core.List.{append_assoc, append-nil}
use argo_watcher.Argocd.Batcher.{flush}

module _ (Request Error : Type 0) where
  abbrev pub concat : List (List Request) → List Request
  concat [] = []
  concat (xs ∷ rest) = xs ++ concat rest

  abbrev pub AllShort : ℕ → List (List Request) → Type 0
  AllShort most [] = Unit {0}
  AllShort most (xs ∷ rest) = (length xs ≤ most) × AllShort most rest

  abbrev pub answered : List (Request × Option Error) → List Request
  answered answers = map (λ a. a.0) answers

  -- A key's share of the state, in good order.
  abbrev pub InOrder :
      ℕ → ℕ → Bool → List Request → List (List Request) → List Request → List Request → Type 0
  InOrder most loops active pending flushing answers accepted =
      (loops + length flushing ≡ (if active then 1 else 0))
      × (active ≡ false → pending ≡ [])
      × (accepted ≡ answers ++ (concat flushing ++ pending))
      × AllShort most flushing

  pub answered-map :
      (f : Request → Option Error) (batch : List Request)
      → answered (map (λ request. (request, f request)) batch) ≡ batch
  answered-map f [] = refl
  answered-map f (r ∷ rs) = ap (◌∷◌ r) (answered-map f rs)

  pub answered-append :
      (xs ys : List (Request × Option Error)) → answered (xs ++ ys) ≡ answered xs ++ answered ys
  answered-append [] ys = refl
  answered-append (x ∷ xs) ys = ap (◌∷◌ x.0) (answered-append xs ys)

  -- `flush` answers each request of the batch once, in order, on every path.
  pub flush_lem :
      (clone_error lock_error : Option Error) (outcomes : Request → Option Error)
      (batch : List Request)
      → answered (flush Request Error clone_error lock_error outcomes batch) ≡ batch
  unfolding flush
  flush_lem clone_error lock_error outcomes [] = refl
  flush_lem (some e) lock_error outcomes (r ∷ rs) = ap (◌∷◌ r) (answered-map (λ _. some e) rs)
  flush_lem none (some e) outcomes (r ∷ rs) = ap (◌∷◌ r) (answered-map (λ _. some e) rs)
  flush_lem none none outcomes (r ∷ rs) = ap (◌∷◌ r) (answered-map outcomes rs)

  pub regroup :
      (answers flight pending more : List Request)
      → (answers ++ (flight ++ pending)) ++ more ≡ answers ++ (flight ++ (pending ++ more))
  regroup answers flight pending more =
      append_assoc answers (flight ++ pending) more
      ∙ ap (◌++◌ answers) (append_assoc flight pending more)

  pub InOrder-submit :
      (most loops : ℕ) (active : Bool) (pending : List Request) (flushing : List (List Request))
      (answers accepted : List Request) (request : Request)
      → InOrder most loops active pending flushing answers accepted
      → InOrder most
          (if active then loops else suc loops)
          true
          (pending ++ (request ∷ []))
          flushing
          answers
          (accepted ++ (request ∷ []))
  InOrder-submit most loops true pending flushing answers accepted request (c, i, a, sh) = (
    c,
    λ e. cc e,
    ap (λ l. l ++ (request ∷ [])) a ∙ regroup answers (concat flushing) pending (request ∷ []),
    sh,
  )
  InOrder-submit most loops false pending flushing answers accepted request (c, i, a, sh) = (
    omega arith,
    λ e. cc e,
    ap (λ l. l ++ (request ∷ [])) a ∙ regroup answers (concat flushing) pending (request ∷ []),
    sh,
  )

  pub at_most_one : (n : ℕ) (active : Bool) → n ≡ (if active then 1 else 0) → n ≤ 1
  at_most_one n true e = omega arith
  at_most_one n false e = omega arith

  pub none_left :
      (n : ℕ) (flushing : List (List Request)) → suc n + length flushing ≤ 1 → flushing ≡ []
  none_left n [] h = refl
  none_left n (x ∷ xs) h = absurd (too_many n (length xs) h)
    where
      too_many : (n k : ℕ) → ¬ (suc n + suc k ≤ 1)
      too_many n k h = omega arith

  pub InOrder-return :
      (most n : ℕ) (active : Bool) (flushing : List (List Request))
      (answers accepted : List Request)
      → InOrder most (suc n) active [] flushing answers accepted
      → InOrder most n false [] flushing answers accepted
  InOrder-return most n active flushing answers accepted (c, i, a, sh) =
      let one = at_most_one (suc n + length flushing) active c in (omega arith, λ _. refl, a, sh)

  pub drop-nil : (m : ℕ) → drop {A = Request} m [] ≡ []
  drop-nil zero = refl
  drop-nil (suc m) = refl

  pub taken :
      (m : ℕ) (pending : List Request) (flushing : List (List Request))
      → flushing ≡ []
      → concat flushing ++ pending ≡ concat (take m pending ∷ flushing) ++ drop m pending
  taken m pending flushing e =
      rw e (sym (append_assoc (take m pending) [] (drop m pending) ∙ take-append-drop m pending))

  pub InOrder-take :
      (most n m : ℕ) (active : Bool) (pending : List Request) (flushing : List (List Request))
      (answers accepted : List Request)
      → m ≤ most
      → InOrder most (suc n) active pending flushing answers accepted
      → InOrder most n active (drop m pending) (take m pending ∷ flushing) answers accepted
  InOrder-take most n m active pending flushing answers accepted h (c, i, a, sh) =
      let one = at_most_one (suc n + length flushing) active c in
      let empty = none_left n flushing one in
      (
        omega (arith, c),
        λ e. ap (drop m) (i e) ∙ drop-nil m,
        a ∙ ap (◌++◌ answers) (taken m pending flushing empty),
        (omega (arith, length-take m pending), sh),
      )

  pub two_batches :
      (loops : ℕ) (before after : List (List Request)) (batch : List Request)
      → ¬ (loops + suc (length (before ++ (batch ∷ after))) ≤ 1)
  two_batches loops before after batch h = omega (arith, length-append before (batch ∷ after))

  pub InOrder-flush :
      (most loops : ℕ) (active : Bool) (pending : List Request) (before after : List (List Request))
      (batch answers accepted : List Request)
      → InOrder most loops active pending (before ++ (batch ∷ after)) answers accepted
      → InOrder most (suc loops) active pending (before ++ after) (answers ++ batch) accepted
  InOrder-flush most loops active pending [] after batch answers accepted (c, i, a, (s, sh)) = (
    omega (arith, c),
    i,
    a
        ∙ ap (◌++◌ answers) (append_assoc batch (concat after) pending)
        ∙ sym (append_assoc answers batch (concat after ++ pending)),
    sh,
  )
  InOrder-flush most loops active pending (x ∷ before) after batch answers accepted (c, i, a, sh) =
      let one = at_most_one (loops + suc (length (before ++ (batch ∷ after)))) active c in
      absurd (two_batches loops before after batch one)

  pub nil_of_empty : (xs : List Request) → is_empty xs ≡ true → xs ≡ []
  nil_of_empty [] e = refl
  nil_of_empty (x ∷ xs) e = cc e

  pub at_most : (most n : ℕ) → (if ltb most n then most else n) ≤ most
  at_most most n = ground arith

  pub drained :
      (most : ℕ) (active : Bool) (pending : List Request) (flushing : List (List Request))
      (answers accepted : List Request)
      → InOrder most 0 active pending flushing answers accepted
      → flushing ≡ []
      → accepted ≡ answers
  drained most true pending flushing answers accepted (c, i, a, sh) e =
      absurd (not_one (length flushing) c (ap length e))
    where
      not_one : (n : ℕ) → 0 + n ≡ 1 → ¬ (n ≡ 0)
      not_one n c e = omega arith
  drained most false pending flushing answers accepted (c, i, a, sh) e =
      a ∙ ap₂ (λ f p. answers ++ (concat f ++ p)) e (i refl) ∙ append-nil answers
