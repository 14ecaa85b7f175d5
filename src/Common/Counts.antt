-- ===== src/Common/Counts.antt =====
-- How many elements of a list pass a test.
use argo_watcher.Common.{
  ℕ, zero, suc, ◌+◌, ◌≤◌, ◌<◌, Bool, true, not, List, [], ◌∷◌, select, length, take, ◌≡◌, refl, ap,
  ◌∙◌, inl, inr, arith, Has,
}
use argo_watcher.Common.Sort.{sort, insert}

module _ {A : Type 0} (p : A → Bool) where
  -- How many elements pass.
  abbrev pub count : List A → ℕ
  count xs = length (select p xs)

  pub count-take : (n : ℕ) (xs : List A) → count (take n xs) ≤ count xs
  count-take zero xs = omega arith
  count-take (suc n) [] = omega arith
  count-take (suc n) (x ∷ xs) = ground (arith, count-take n xs)

  pub count_all : (xs : List A) → ((x : A) → Has x xs → p x ≡ true) → count xs ≡ length xs
  count_all [] h = refl
  count_all (x ∷ xs) h = rw (h x (inl refl)) (ap suc (count_all xs (λ y k. h y (inr k))))

  pub count-select : (q : A → Bool) (xs : List A) → count (select q xs) ≤ count xs
  count-select q [] = omega arith
  count-select q (x ∷ xs) = ground (arith, count-select q xs)

  pub count-not : (xs : List A) → count xs + length (select (λ x. not (p x)) xs) ≡ length xs
  count-not [] = refl
  count-not (x ∷ xs) = ground (arith, count-not xs)

  pub count-insert :
      (before : A → A → Bool) (a : A) (xs : List A) → count (insert before a xs) ≡ count (a ∷ xs)
  unfolding insert
  count-insert before a [] = refl
  count-insert before a (x ∷ xs) = ground (arith, count-insert before a xs)

  pub count-sort : (before : A → A → Bool) (xs : List A) → count (sort before xs) ≡ count xs
  unfolding sort
  count-sort before [] = refl
  count-sort before (x ∷ xs) =
      count-insert before x (sort before xs) ∙ ground (arith, count-sort before xs)

pub take_short : {A : Type 0} (n : ℕ) (xs : List A) → length (take n xs) < n → take n xs ≡ xs
take_short zero xs h = absurd (omega (arith, h))
take_short (suc n) [] h = refl
take_short (suc n) (x ∷ xs) h = ap (◌∷◌ x) (take_short n xs (omega (arith, h)))
