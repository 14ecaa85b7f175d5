-- ===== src/Common/Members.antt =====
-- Membership through `map`, `take` and a search for a text.
use Prim.Native.Nat.{ℕ, zero, suc}
use Prim.Native.String.{String}
use mathlib.Core.Path.{◌≡◌, refl, sym, ap₂}
use mathlib.Core.Logic.{inl, inr}
use mathlib.Core.Bool.{true}
use mathlib.Core.List.{List, [], ◌∷◌, map}
use text.Mathlib.Text.{◌==◌ as str_eq}
use text.Mathlib.TextEquality.{eq_iff}
use text.Mathlib.TextPositions.{eq_refl}
use argo_watcher.Common.Tests.{Bool-cases}
use argo_watcher.Common.Lists.{Has, any, take}

pub Has-of_any : (id : String) (ids : List String) → any (str_eq id) ids ≡ true → Has id ids
Has-of_any id [] h = cc h
Has-of_any id (x ∷ xs) h = elim (Bool-cases (str_eq id x)) [
  | inl e ↦ inl (sym ((eq_iff id x).0 e))
  | inr e ↦ inr (Has-of_any id xs (rw e at h))
]

pub Has-take : {A : Type 0} (n : ℕ) (a : A) (xs : List A) → Has a (take n xs) → Has a xs
Has-take zero a xs h = absurd h
Has-take (suc n) a [] h = absurd h
Has-take (suc n) a (x ∷ xs) (inl e) = inl e
Has-take (suc n) a (x ∷ xs) (inr h) = inr (Has-take n a xs h)

pub Has-of_map :
    {A B : Type 0} (f : A → B) (b : B) (rows : List A)
    → Has b (map f rows)
    → (a : A) × Has a rows × (f a ≡ b)
Has-of_map f b [] h = absurd h
Has-of_map f b (x ∷ xs) (inl e) = (x, inl refl, e)
Has-of_map f b (x ∷ xs) (inr h) = let (a, k, e) = Has-of_map f b xs h in (a, inr k, e)

pub Has-any : (id : String) (ids : List String) → Has id ids → any (str_eq id) ids ≡ true
Has-any id [] h = absurd h
Has-any id (x ∷ xs) (inl e) = rw (e, eq_refl id) refl
Has-any id (x ∷ xs) (inr h) = elim (Bool-cases (str_eq id x)) [
  | inl e ↦ rw e refl
  | inr e ↦ rw e (Has-any id xs h)
]

-- What holds of each member at once.
pub map_congr :
    {A B : Type 0} (f g : A → B) (xs : List A)
    → ((x : A) → Has x xs → f x ≡ g x)
    → map f xs ≡ map g xs
map_congr f g [] h = refl
map_congr f g (x ∷ xs) h = ap₂ ◌∷◌ (h x (inl refl)) (map_congr f g xs (λ y k. h y (inr k)))
