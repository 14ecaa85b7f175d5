-- ===== src/Common/TextOrder.antt =====
-- The order of texts is total, so sorting a list of texts forgets the order they came in.
use Prim.Native.String.{String}
use mathlib.Core.Path.{◌≡◌, refl, ap₂}
use mathlib.Core.Logic.{∥∥₁_elim}
use mathlib.Core.Bool.{true, false}
use mathlib.Core.List.{List, Perm}
use native.Mathlib.Omega.{arith}
use native.Mathlib.Nat.{ℕ_set}
use text.Mathlib.TextEquality.{Char-path, IsScalar-prop}
use argo_watcher.Common.Text.{leb_text}
use argo_watcher.Common.Sort.{sort, sort-permᴰ}

leb_text_total : (s t : String) → leb_text s t ≡ false → leb_text t s ≡ true
unfolding leb_text
leb_text_total String.[] t h = cc
leb_text_total (String.◌∷◌ c s) String.[] h = refl
leb_text_total (String.◌∷◌ c s) (String.◌∷◌ d t) h = ground (arith, leb_text_total s t)

leb_text_antisymm : (s t : String) → leb_text s t ≡ true → leb_text t s ≡ true → s ≡ t
unfolding leb_text
leb_text_antisymm String.[] String.[] h k = refl
leb_text_antisymm String.[] (String.◌∷◌ d t) h k = cc
leb_text_antisymm (String.◌∷◌ c s) String.[] h k = cc
leb_text_antisymm (String.◌∷◌ c s) (String.◌∷◌ d t) h k =
    ap₂ String.◌∷◌ (Char-path c d (ground arith))
      (leb_text_antisymm s t (ground arith) (ground arith))

leb_text_trans : (s t u : String) → leb_text s t ≡ true → leb_text t u ≡ true → leb_text s u ≡ true
unfolding leb_text
leb_text_trans String.[] t u h k = refl
leb_text_trans (String.◌∷◌ c s) String.[] u h k = cc
leb_text_trans (String.◌∷◌ c s) (String.◌∷◌ d t) String.[] h k = cc
leb_text_trans (String.◌∷◌ c s) (String.◌∷◌ d t) (String.◌∷◌ e u) h k =
    ground (arith, leb_text_trans s t u)

Texts-set : IsSet (List String)
Texts-set = hlevel (ℕ_set, IsScalar-prop)

pub sort-eq_of_perm : (xs ys : List String) → Perm xs ys → sort leb_text xs ≡ sort leb_text ys
sort-eq_of_perm xs ys p =
    ∥∥₁_elim p (Texts-set _ _) (sort-permᴰ leb_text leb_text_total leb_text_antisymm leb_text_trans)
