-- ===== src/Argocd/Batcher/Delivery.antt =====
-- internal/argocd/batcher.go: every accepted request is answered, once and in order.
use argo_watcher.Common.{
  ℕ, suc, ◌+◌, ◌≤◌, String, Bool, true, false, List, [], ◌∷◌, ◌++◌, Option, some, length, is_empty,
  str_eq, ◌≡◌, refl, sym, subst, if◌then◌else◌, ltb, Bool-cases, inl, inr, arith, eq_iff, eq_refl,
}
use argo_watcher.Argocd.Batcher.{
  Batcher, enqueue, submit, next_batch, flush, Running, after_submit, after_next, after_flush, Step,
  submits, takes, flushes, closes, new_batcher, Reaches, start, then_step,
}
use argo_watcher.Argocd.Batcher.Order.{
  concat, AllShort, answered, InOrder, answered-append, flush_lem, InOrder-submit, at_most_one,
  InOrder-return, InOrder-take, InOrder-flush, nil_of_empty, at_most, drained,
}

module _ (Request Error : Type 0) where
  abbrev KeyInOrder : ℕ → Running Request Error → String → Type 0
  KeyInOrder most s key =
      InOrder Request Error most (s.loops key) (s.batcher.active key) (s.batcher.pending key)
        (s.flushing key) (answered Request Error (s.answers key)) (s.accepted key)

  module _ (most : ℕ) (s : Running Request Error) (j : String) where
    abbrev At : ℕ → Bool → List Request → Type 0
    At loops active pending =
        InOrder Request Error most loops active pending (s.flushing j)
          (answered Request Error (s.answers j)) (s.accepted j)

    enqueue_same :
        (request : Request)
        → KeyInOrder most s j
        → KeyInOrder most
            (after_submit Request Error j request s (enqueue Request Error j request s.batcher))
            j
    enqueue_same request h = elim (Bool-cases (s.batcher.active j)) [
      | inl d ↦
          rw (d, eq_refl j, d)
            (InOrder-submit Request Error most (s.loops j) true (s.batcher.pending j) (s.flushing j)
              (answered Request Error (s.answers j)) (s.accepted j) request
              (subst (λ a. At (s.loops j) a (s.batcher.pending j)) d h))
      | inr d ↦
          rw (d, eq_refl j)
            (InOrder-submit Request Error most (s.loops j) false (s.batcher.pending j)
              (s.flushing j) (answered Request Error (s.answers j)) (s.accepted j) request
              (subst (λ a. At (s.loops j) a (s.batcher.pending j)) d h))
    ]

    enqueue_other :
        (key : String) (request : Request)
        → str_eq key j ≡ false
        → KeyInOrder most s key
        → KeyInOrder most
            (after_submit Request Error j request s (enqueue Request Error j request s.batcher))
            key
    enqueue_other key request e h = elim (Bool-cases (s.batcher.active j)) [
      | inl d ↦ rw (d, e) h
      | inr d ↦ rw (d, e) h
    ]

    next_same :
        (n : ℕ)
        → s.loops j ≡ suc n
        → KeyInOrder most s j
        → KeyInOrder most
            (after_next Request Error j n s (next_batch Request Error most j s.batcher))
            j
    unfolding next_batch
    next_same n l h = elim (Bool-cases (is_empty (s.batcher.pending j))) [
      | inl d ↦
          rw (d, eq_refl j)
            (InOrder-return Request Error most n (s.batcher.active j) (s.flushing j)
              (answered Request Error (s.answers j)) (s.accepted j)
              (subst (λ p. At (suc n) (s.batcher.active j) p)
                (nil_of_empty Request Error (s.batcher.pending j) d)
                (subst (λ m. At m (s.batcher.active j) (s.batcher.pending j)) l h)))
      | inr d ↦
          rw (d, eq_refl j)
            (InOrder-take Request Error most n
              (if ltb most (length (s.batcher.pending j))
                then most
                else length (s.batcher.pending j))
              (s.batcher.active j) (s.batcher.pending j) (s.flushing j)
              (answered Request Error (s.answers j)) (s.accepted j)
              (at_most Request Error most (length (s.batcher.pending j)))
              (subst (λ m. At m (s.batcher.active j) (s.batcher.pending j)) l h))
    ]

    next_other :
        (key : String) (n : ℕ)
        → str_eq key j ≡ false
        → KeyInOrder most s key
        → KeyInOrder most
            (after_next Request Error j n s (next_batch Request Error most j s.batcher))
            key
    unfolding next_batch
    next_other key n e h = elim (Bool-cases (is_empty (s.batcher.pending j))) [
      | inl d ↦ rw (d, e) h
      | inr d ↦ rw (d, e) h
    ]

    flush_same :
        (before after : List (List Request)) (batch : List Request)
        (clone_error lock_error : Option Error) (outcomes : Request → Option Error)
        → s.flushing j ≡ before ++ (batch ∷ after)
        → KeyInOrder most s j
        → KeyInOrder most
            (after_flush Request Error j before after
              (flush Request Error clone_error lock_error outcomes batch)
              s)
            j
    flush_same before after batch clone_error lock_error outcomes f h =
        let sent = flush Request Error clone_error lock_error outcomes batch in
        rw
          (
            eq_refl j,
            answered-append Request Error (s.answers j) sent,
            flush_lem Request Error clone_error lock_error outcomes batch,
          )
          (InOrder-flush Request Error most (s.loops j) (s.batcher.active j) (s.batcher.pending j)
            before after batch (answered Request Error (s.answers j)) (s.accepted j)
            (subst
              (λ l.
                InOrder Request Error most (s.loops j) (s.batcher.active j) (s.batcher.pending j) l
                  (answered Request Error (s.answers j)) (s.accepted j))
              f h))

    flush_other :
        (key : String) (before after : List (List Request)) (sent : List (Request × Option Error))
        → str_eq key j ≡ false
        → KeyInOrder most s key
        → KeyInOrder most (after_flush Request Error j before after sent s) key
    flush_other key before after sent e h = rw e h

  same_key :
      (most : ℕ) (s s' : Running Request Error) (j key : String)
      → (KeyInOrder most s j → KeyInOrder most s' j)
      → (str_eq key j ≡ false → KeyInOrder most s key → KeyInOrder most s' key)
      → KeyInOrder most s key
      → KeyInOrder most s' key
  same_key most s s' j key same other h = elim (Bool-cases (str_eq key j)) [
    | inl e ↦
        let k : key ≡ j = (eq_iff key j).0 e in
        subst (KeyInOrder most s') (sym k) (same (subst (KeyInOrder most s) k h))
    | inr e ↦ other e h
  ]

  submitted :
      (j : String) (request : Request) (b : Batcher Request Error)
      (r : Batcher Request Error × Bool)
      → submit Request Error j request b ≡ some r
      → enqueue Request Error j request b ≡ r
  unfolding submit
  submitted j request b r e = ground (arith, e)

  InOrder-Step :
      (most : ℕ) (s s' : Running Request Error) (key : String)
      → Step Request Error most s s'
      → KeyInOrder most s key
      → KeyInOrder most s' key
  InOrder-Step most s s' key (submits _ j request b e) h =
      subst (λ r. KeyInOrder most (after_submit Request Error j request s r) key)
        (submitted j request s.batcher b e)
        (same_key most s
          (after_submit Request Error j request s (enqueue Request Error j request s.batcher)) j key
          (enqueue_same most s j request) (enqueue_other most s j key request) h)
  InOrder-Step most s s' key (takes _ j n l) h =
      same_key most s (after_next Request Error j n s (next_batch Request Error most j s.batcher)) j
        key (next_same most s j n l) (next_other most s j key n) h
  InOrder-Step most s s' key (flushes _ j before after batch ce le outcomes f) h =
      let sent = flush Request Error ce le outcomes batch in
      same_key most s (after_flush Request Error j before after sent s) j key
        (flush_same most s j before after batch ce le outcomes f)
        (flush_other most s j key before after sent) h
  InOrder-Step most s s' key (closes _) h = h

  InOrder-Reaches :
      (most : ℕ) (s : Running Request Error) (key : String)
      → Reaches Request Error most s
      → KeyInOrder most s key
  unfolding new_batcher
  InOrder-Reaches most s key start = (refl, λ _. refl, refl, tt)
  InOrder-Reaches most s key (then_step v _ r t) =
      InOrder-Step most v s key t (InOrder-Reaches most v key r)

  -- Whatever the goroutines do, and whichever way a flush fails: the requests that a repository's branch
  -- had accepted are those that were answered, with an error or without one, then those being flushed,
  -- then those that wait, each once and in the order of their acceptance. At most one batch is being
  -- flushed, none is longer than the bound, and once the flush loops are gone all that was accepted
  -- has an answer, which may be an error.
  pub accepted_answered :
      (most : ℕ) (s : Running Request Error) (key : String)
      → Reaches Request Error most s
      → (s.accepted key
          ≡ answered Request Error (s.answers key)
            ++ (concat Request Error (s.flushing key) ++ s.batcher.pending key))
        × (length (s.flushing key) ≤ 1)
        × AllShort Request Error most (s.flushing key)
        × (s.loops key ≡ 0
            → s.flushing key ≡ []
            → s.accepted key ≡ answered Request Error (s.answers key))
  accepted_answered most s key r =
      let h = InOrder-Reaches most s key r in
      let (c, i, a, sh) = h in
      let one =
        at_most_one Request Error (s.loops key + length (s.flushing key)) (s.batcher.active key)
          c in
      (
        a,
        omega arith,
        sh,
        λ l f.
            drained Request Error most (s.batcher.active key) (s.batcher.pending key)
              (s.flushing key) (answered Request Error (s.answers key)) (s.accepted key)
              (subst
                (λ n.
                  InOrder Request Error most n (s.batcher.active key) (s.batcher.pending key)
                    (s.flushing key) (answered Request Error (s.answers key)) (s.accepted key))
                l h)
              f,
      )
