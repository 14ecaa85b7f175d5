-- ===== src/Common/Text.antt =====
-- Texts: Go's strings, as native texts. Where the source walks a string, the texts that it walks
-- are image references, headings and names, and a step is a character.
use Prim.Native.Char.{code}
use Prim.Native.String.{String, ◌++◌}
use mathlib.Core.Bool.{Bool, true, false, ◌&&◌, ◌||◌}
use mathlib.Core.Path.{◌≡◌, refl}
use mathlib.Core.Logic.{◌⊎◌, ◌≢◌, inl, inr}
use mathlib.Core.List.{List, [], ◌∷◌}
use native.Mathlib.Omega.{arith}
use text.Mathlib.TextEquality.{eq_iff}
use text.Mathlib.Text.{◌==◌ as str_eq}
use argo_watcher.Common.Lists.{Has}
use argo_watcher.Common.Tests.{ltb, ◌==◌, Bool-cases}

-- Go's `+` on strings.
infixr 65 ◌⧺◌
abbrev pub ◌⧺◌ : String → String → String
s ⧺ t = s ++ t

-- `strings.Join(parts, sep)`.
unfoldable pub join : List String → String → String
join [] sep = ""
join (s ∷ []) sep = s
join (s ∷ t ∷ rest) sep = s ⧺ sep ⧺ join (t ∷ rest) sep

-- `slices.Contains(list, s)`.
unfoldable pub contains : List String → String → Bool
contains [] s = false
contains (x ∷ xs) s = str_eq x s || contains xs s

-- The order of Go's strings: by bytes, which for UTF-8 is by code points.
unfoldable pub leb_text : String → String → Bool
leb_text String.[] t = true
leb_text (String.◌∷◌ c s) String.[] = false
leb_text (String.◌∷◌ c s) (String.◌∷◌ d t) =
    ltb (code c) (code d) || (code c == code d && leb_text s t)

pub contains-Has : (xs : List String) (s : String) → contains xs s ≡ true → Has s xs
unfolding contains
contains-Has [] s h = cc
contains-Has (x ∷ xs) s h = elim (Bool-cases (str_eq x s)) [
  | inl e ↦ inl ((eq_iff x s).0 e)
  | inr e ↦ inr (contains-Has xs s (rw (e) at h))
]

pub Has-contains : (xs : List String) (s : String) → Has s xs → contains xs s ≡ true
unfolding contains
Has-contains [] s h = absurd h
Has-contains (x ∷ xs) s (inl e) = rw ((eq_iff x s).1 e) refl
Has-contains (x ∷ xs) s (inr h) = ground (arith, Has-contains xs s h)

pub text_cases : (s t : String) → (s ≡ t) ⊎ (s ≢ t)
text_cases s t = elim (Bool-cases (str_eq s t)) [
  | inl e ↦ inl ((eq_iff s t).0 e)
  | inr e ↦ inr (λ p. cc ((eq_iff s t).1 p))
]
