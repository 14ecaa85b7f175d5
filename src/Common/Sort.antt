-- ===== src/Common/Sort.antt =====
-- Sorting (`slices.Sort`, `sort.Slice`) as insertion sort by a Boolean order.
use mathlib.Core.Path.{◌≡◌, refl, ◌∙◌}
use mathlib.Core.Logic.{inl, inr}
use mathlib.Core.Bool.{Bool, true, false}
use mathlib.Core.List.{List, [], ◌∷◌, Perm, Permᴰ}
use mathlib.Core.List.Perm
use native.Mathlib.Omega.{arith}
use argo_watcher.Common.Tests.{if◌then◌else◌, Bool-cases}

module _ {ℓ} {A : Type ℓ} (before : A → A → Bool) where
  unfoldable pub insert : A → List A → List A
  insert a [] = a ∷ []
  insert a (x ∷ xs) = if before a x then a ∷ x ∷ xs else x ∷ insert a xs

  unfoldable pub sort : List A → List A
  sort [] = []
  sort (x ∷ xs) = insert x (sort xs)

  -- Each element is in order with its neighbour.
  abbrev pub IsSorted : List A → Type 0
  IsSorted [] = Unit {0}
  IsSorted (x ∷ []) = Unit {0}
  IsSorted (x ∷ y ∷ ys) = (before x y ≡ true) × IsSorted (y ∷ ys)

  pub insert-perm : (a : A) (xs : List A) → Perm (insert a xs) (a ∷ xs)
  unfolding insert
  insert-perm a [] = Perm.refl (a ∷ [])
  insert-perm a (x ∷ xs) = elim (Bool-cases (before a x)) [
    | inl e ↦ rw e (Perm.refl (a ∷ x ∷ xs))
    | inr e ↦ rw e (Perm.trans (Perm.cons x (insert-perm a xs)) (Perm.swap a x xs))
  ]

  -- Sorting rearranges: nothing is lost or made up.
  pub sort-perm : (xs : List A) → Perm (sort xs) xs
  unfolding sort
  sort-perm [] = Perm.refl []
  sort-perm (x ∷ xs) = Perm.trans (insert-perm x (sort xs)) (Perm.cons x (sort-perm xs))

  module _ (total : (a b : A) → before a b ≡ false → before b a ≡ true) where
    insert-IsSorted : (a : A) (xs : List A) → IsSorted xs → IsSorted (insert a xs)
    unfolding insert
    insert-IsSorted a [] h = tt
    insert-IsSorted a (x ∷ []) h = ground (arith, total a x)
    insert-IsSorted a (x ∷ y ∷ ys) h =
        ground (arith, total a x, total a y, insert-IsSorted a (y ∷ ys) h.1)

    pub sort-IsSorted : (xs : List A) → IsSorted (sort xs)
    unfolding sort
    sort-IsSorted [] = tt
    sort-IsSorted (x ∷ xs) = insert-IsSorted x (sort xs) (sort-IsSorted xs)

    module _ (antisym : (a b : A) → before a b ≡ true → before b a ≡ true → a ≡ b)
        (trans : (a b c : A) → before a b ≡ true → before b c ≡ true → before a c ≡ true) where
      insert_comm : (a b : A) (xs : List A) → insert a (insert b xs) ≡ insert b (insert a xs)
      unfolding insert
      insert_comm a b [] = ground (arith, total a b, antisym a b)
      insert_comm a b (x ∷ xs) = ground (
        arith,
        total a b,
        antisym a b,
        total a x,
        total b x,
        trans a b x,
        trans b a x,
        insert_comm a b xs,
      )

      pub sort-permᴰ : {xs ys : List A} → Permᴰ xs ys → sort xs ≡ sort ys
      unfolding sort
      sort-permᴰ Permᴰ.nil = refl
      sort-permᴰ (Permᴰ.cons {a} {b} {l₁} {l₂} e p) = cc (e, sort-permᴰ p)
      sort-permᴰ (Permᴰ.swap {a} {b} {a'} {b'} {l} e f) = cc (e, f, insert_comm a b (sort l))
      sort-permᴰ (Permᴰ.trans p q) = sort-permᴰ p ∙ sort-permᴰ q
