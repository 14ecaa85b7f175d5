-- ===== src/Common/Split/Separator.antt =====
-- Where a text is split, and that texts that were joined are split again into the same.
use argo_watcher.Common.{
  ℕ, String, true, false, List, [], ◌∷◌, Char, code, ◌==◌, ◌⧺◌, join, Has, ◌≡◌, ◌≢◌, refl, sym, ap,
  subst, ◌∙◌, inl, inr,
}
use argo_watcher.Common.Split.{split}
use text.Mathlib.TextLemmas.{nil-append, cons-append}

-- The separator does not stand in the text.
abbrev pub Free : ℕ → String → Type 0
Free b String.[] = Unit {0}
Free b (String.◌∷◌ c s) = ((code c == b) ≡ false) × Free b s

pub Free-append : (b : ℕ) (s t : String) → Free b s → Free b t → Free b (s ⧺ t)
Free-append b String.[] t h k = subst (Free b) (sym (nil-append t)) k
Free-append b (String.◌∷◌ c s) t (e, h) k =
    subst (Free b) (sym (cons-append c s t)) (e, Free-append b s t h k)

pub split-Free : (b : ℕ) (s : String) → Free b s → split b s ≡ s ∷ []
unfolding split
split-Free b String.[] h = refl
split-Free b (String.◌∷◌ c s) (e, h) =
    rw (e, split-Free b s h)
      (ap (λ x. x ∷ []) (cons-append c "" s ∙ ap (String.◌∷◌ c) (nil-append s)))

pub split-separator :
    (b : ℕ) (s : String) (c : Char) (t : String)
    → Free b s
    → (code c == b) ≡ true
    → split b (s ⧺ String.◌∷◌ c t) ≡ s ∷ split b t
unfolding split
split-separator b String.[] c t h k = ap (split b) (nil-append (String.◌∷◌ c t)) ∙ rw k refl
split-separator b (String.◌∷◌ d s) c t (e, h) k =
    ap (split b) (cons-append d s (String.◌∷◌ c t))
    ∙ rw (e, split-separator b s c t h k)
        (ap (λ x. x ∷ split b t) (cons-append d "" s ∙ ap (String.◌∷◌ d) (nil-append s)))

pub split-at :
    (b : ℕ) (s : String) (c : Char) (t : String)
    → Free b s
    → (code c == b) ≡ true
    → split b (s ⧺ String.◌∷◌ c "" ⧺ t) ≡ s ∷ split b t
split-at b s c t h k =
    ap (λ u. split b (s ⧺ u)) (cons-append c "" t ∙ ap (String.◌∷◌ c) (nil-append t))
    ∙ split-separator b s c t h k

abbrev pub AllFree : ℕ → List String → Type 0
AllFree b xs = (s : String) → Has s xs → Free b s

pub split-join :
    (c : Char) (x : String) (xs : List String)
    → AllFree (code c) (x ∷ xs)
    → (code c == code c) ≡ true
    → split (code c) (join (x ∷ xs) (String.◌∷◌ c "")) ≡ x ∷ xs
unfolding join
split-join c x [] free k = split-Free (code c) x (free x (inl refl))
split-join c x (y ∷ rest) free k =
    split-at (code c) x c (join (y ∷ rest) (String.◌∷◌ c "")) (free x (inl refl)) k
    ∙ ap (λ xs. x ∷ xs) (split-join c y rest (λ s h. free s (inr h)) k)

split_empty : (c : Char) → split (code c) (join [] (String.◌∷◌ c "")) ≡ "" ∷ []
unfolding split join
split_empty c = refl

-- Lists of texts that are not empty and are free of the separator are known from their join.
pub join_injective :
    (c : Char) (xs ys : List String)
    → (code c == code c) ≡ true
    → AllFree (code c) xs
    → AllFree (code c) ys
    → ((s : String) → Has s xs → s ≢ "")
    → ((s : String) → Has s ys → s ≢ "")
    → join xs (String.◌∷◌ c "") ≡ join ys (String.◌∷◌ c "")
    → xs ≡ ys
join_injective c [] [] k f g n m e = refl
join_injective c [] (y ∷ ys) k f g n m e =
    let q : "" ∷ [] ≡ y ∷ ys =
      sym (split_empty c) ∙ ap (split (code c)) e ∙ split-join c y ys g k in
    absurd (m y (inl refl) (cc q))
join_injective c (x ∷ xs) [] k f g n m e =
    let q : x ∷ xs ≡ "" ∷ [] =
      sym (split-join c x xs f k) ∙ ap (split (code c)) e ∙ split_empty c in
    absurd (n x (inl refl) (cc q))
join_injective c (x ∷ xs) (y ∷ ys) k f g n m e =
    sym (split-join c x xs f k) ∙ ap (split (code c)) e ∙ split-join c y ys g k
