-- ===== src/Common/Parts.antt =====
-- One text standing in another.
use Prim.Native.String.{String}
use mathlib.Core.Path.{◌≡◌, sym, ap, ◌∙◌}
use mathlib.Core.Logic.{inl, inr, ◌≢◌}
use mathlib.Core.List.{List, [], ◌∷◌}
use text.Mathlib.TextLemmas.{nil-append, append-nil, append_assoc, append-eq-nil_iff}
use argo_watcher.Common.Lists.{Has}
use argo_watcher.Common.Text.{◌⧺◌, join}

abbrev pub IsPart : String → String → Type 0
IsPart part s = (before : String) × (after : String) × (s ≡ before ⧺ part ⧺ after)

pub IsPart-refl : (s : String) → IsPart s s
IsPart-refl s = ("", "", sym (nil-append (s ⧺ "") ∙ append-nil s))

pub IsPart-append_left : (part s t : String) → IsPart part s → IsPart part (s ⧺ t)
IsPart-append_left part s t (a, b, e) =
    (a, b ⧺ t, ap (λ x. x ⧺ t) e ∙ append_assoc a (part ⧺ b) t ∙ ap (◌⧺◌ a) (append_assoc part b t))

pub IsPart-append_right : (part s t : String) → IsPart part t → IsPart part (s ⧺ t)
IsPart-append_right part s t (a, b, e) =
    (s ⧺ a, b, ap (◌⧺◌ s) e ∙ sym (append_assoc s a (part ⧺ b)))

pub IsPart-trans : (a b c : String) → IsPart a b → IsPart b c → IsPart a c
IsPart-trans a b c h (x, y, e) = rw e (IsPart-append_right a x (b ⧺ y) (IsPart-append_left a b y h))

-- An entry of a list stands in the list joined.
pub IsPart-join : (s : String) (xs : List String) (sep : String) → Has s xs → IsPart s (join xs sep)
unfolding join
IsPart-join s [] sep h = absurd h
IsPart-join s (x ∷ []) sep (inl e) = rw e (IsPart-refl s)
IsPart-join s (x ∷ []) sep (inr h) = absurd h
IsPart-join s (x ∷ y ∷ xs) sep (inl e) =
    rw e (IsPart-append_left s s (sep ⧺ join (y ∷ xs) sep) (IsPart-refl s))
IsPart-join s (x ∷ y ∷ xs) sep (inr h) =
    IsPart-append_right s x (sep ⧺ join (y ∷ xs) sep)
      (IsPart-append_right s sep (join (y ∷ xs) sep) (IsPart-join s (y ∷ xs) sep h))

-- A list that begins with a text that is not empty does not join to nothing.
pub join-ne-nil : (x : String) (xs : List String) (sep : String) → x ≢ "" → join (x ∷ xs) sep ≢ ""
unfolding join
join-ne-nil x [] sep h e = h e
join-ne-nil x (y ∷ xs) sep h e = h ((append-eq-nil_iff).0 e).0
