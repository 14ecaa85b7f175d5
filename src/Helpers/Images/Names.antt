-- ===== src/Helpers/Images/Names.antt =====
-- What `ImageName` reads from a reference that is put together of a repository, a tag and a digest.
use mathlib.Core.Path.{◌≡◌, refl, sym, ap, ◌∙◌}
use text.Mathlib.TextLemmas.{nil-append, cons-append}
use mathlib.Core.Bool.{true}
use argo_watcher.Common.{
  ℕ, suc, ◌+◌, ◌<◌, inl, inr, ◌≢◌, Option, none, some, String, code, ◌⧺◌, arith, Option-cases,
}
use argo_watcher.Helpers.Images.{cut, last_index, take_text, index_after, strip_tag, image_name}

-- The character does not occur in the text.
abbrev pub Avoids : ℕ → String → Type 0
Avoids b String.[] = Unit {0}
Avoids b (String.◌∷◌ c s) = (code c ≢ b) × Avoids b s

abbrev text_length : String → ℕ
text_length String.[] = 0
text_length (String.◌∷◌ c s) = suc (text_length s)

cut-append : (b : ℕ) (s t : String) → Avoids b s → cut b t ≡ "" → cut b (s ⧺ t) ≡ s
unfolding cut
cut-append b String.[] t h e = rw nil-append e
cut-append b (String.◌∷◌ c s) t h e = rw cons-append (ground (arith, cut-append b s t h.1 e))

Avoids-append : (b : ℕ) (s t : String) → Avoids b s → Avoids b t → Avoids b (s ⧺ t)
Avoids-append b String.[] t h k = rw nil-append k
Avoids-append b (String.◌∷◌ c s) t h k = rw cons-append (h.0, Avoids-append b s t h.1 k)

last_index_of_Avoids : (b : ℕ) (s : String) → Avoids b s → last_index b s ≡ none
unfolding last_index
last_index_of_Avoids b String.[] h = refl
last_index_of_Avoids b (String.◌∷◌ c s) h = ground (arith, last_index_of_Avoids b s h.1)

last_index-append_right :
    (b : ℕ) (s t : String) (i : ℕ)
    → last_index b t ≡ some i
    → last_index b (s ⧺ t) ≡ some (text_length s + i)
unfolding last_index
last_index-append_right b String.[] t i e = rw nil-append (ground arith)
last_index-append_right b (String.◌∷◌ c s) t i e =
    rw cons-append (ground (arith, last_index-append_right b s t i e))

last_index-append_left : (b : ℕ) (s t : String) → Avoids b t → last_index b (s ⧺ t) ≡ last_index b s
unfolding last_index
last_index-append_left b String.[] t h = rw nil-append (last_index_of_Avoids b t h)
last_index-append_left b (String.◌∷◌ c s) t h =
    rw cons-append (ground (arith, last_index-append_left b s t h))

last_index-lt : (b : ℕ) (s : String) (i : ℕ) → last_index b s ≡ some i → i < text_length s
unfolding last_index
last_index-lt b String.[] i e = cc
last_index-lt b (String.◌∷◌ c s) i e = elim (Option-cases (last_index b s)) [
  | inl n ↦ ground arith
  | inr (j, f) ↦ ground (arith, last_index-lt b s j f)
]

take_text-append : (s t : String) → take_text (text_length s) (s ⧺ t) ≡ s
unfolding take_text
take_text-append String.[] t = refl
take_text-append (String.◌∷◌ c s) t = rw cons-append (ap (String.◌∷◌ c) (take_text-append s t))

index_after-last_index : (s : String) → index_after (text_length s) (last_index b'/' s) ≡ true
index_after-last_index s = elim (Option-cases (last_index b'/' s)) [
  | inl e ↦ rw e
  | inr (i, e) ↦ rw e (ground (arith, last_index-lt b'/' s i e))
]

-- `@sha256:…` behind a reference, or nothing.
abbrev pub digest_suffix : Option String → String
digest_suffix none = ""
digest_suffix (some digest) = "@" ⧺ digest

cut-digest_suffix : (d : Option String) → cut b'@' (digest_suffix d) ≡ ""
unfolding cut
cut-digest_suffix none = refl
cut-digest_suffix (some digest) = rw cons-append refl

strip_tag_at_colon :
    (name : String) (i : ℕ)
    → last_index b':' name ≡ some i
    → index_after i (last_index b'/' name) ≡ true
    → strip_tag name ≡ take_text i name
unfolding strip_tag
strip_tag_at_colon name i e h = ground arith

strip_tag_untouched : (name : String) → last_index b':' name ≡ none → strip_tag name ≡ name
unfolding strip_tag
strip_tag_untouched name e = ground arith

strip_tag_before_slash :
    (name : String) (i j : ℕ)
    → last_index b':' name ≡ some i
    → last_index b'/' name ≡ some j
    → i < j
    → strip_tag name ≡ name
unfolding strip_tag
strip_tag_before_slash name i j e f h = ground arith

Avoids-colon : (b : ℕ) (tag : String) → b ≢ b':' → Avoids b tag → Avoids b (":" ⧺ tag)
Avoids-colon b tag ne h = rw (cons-append, nil-append) ((λ e. ne (sym e)), h)

last_index-colon : (tag : String) → Avoids b':' tag → last_index b':' (":" ⧺ tag) ≡ some 0
unfolding last_index
last_index-colon tag h =
    rw (cons-append, nil-append) (ground (arith, last_index_of_Avoids b':' tag h))

strip_tag-tagged :
    (repository tag : String)
    → Avoids b':' tag
    → Avoids b'/' tag
    → strip_tag (repository ⧺ ":" ⧺ tag) ≡ repository
strip_tag-tagged repository tag no_colon no_slash =
    strip_tag_at_colon _ _
      (last_index-append_right b':' repository (":" ⧺ tag) 0 (last_index-colon tag no_colon)
        ∙ ap some (omega arith))
      (rw
        (last_index-append_left b'/' repository (":" ⧺ tag)
          (Avoids-colon b'/' tag (omega arith) no_slash))
        (index_after-last_index repository))
    ∙ take_text-append repository (":" ⧺ tag)

last_index-slash : (name : String) → Avoids b'/' name → last_index b'/' ("/" ⧺ name) ≡ some 0
unfolding last_index
last_index-slash name h =
    rw (cons-append, nil-append) (ground (arith, last_index_of_Avoids b'/' name h))

-- The last segment has no colon, so a colon before it belongs to the registry's host.
strip_tag-untagged :
    (path name : String)
    → Avoids b':' name
    → Avoids b'/' name
    → strip_tag (path ⧺ "/" ⧺ name) ≡ path ⧺ "/" ⧺ name
strip_tag-untagged path name no_colon no_slash = elim (Option-cases (last_index b':' path)) [
  | inl e ↦ strip_tag_untouched _ (colons ∙ e)
  | inr (i, e) ↦
      strip_tag_before_slash _ i (text_length path + 0) (colons ∙ e)
        (last_index-append_right b'/' path ("/" ⧺ name) 0 (last_index-slash name no_slash))
        (omega (arith, last_index-lt b':' path i e))
]
  where
    segment : Avoids b':' ("/" ⧺ name)
    segment = rw (cons-append, nil-append) ((λ e. cc), no_colon)

    colons : last_index b':' (path ⧺ "/" ⧺ name) ≡ last_index b':' path
    colons = last_index-append_left b':' path ("/" ⧺ name) segment

-- A tag that is written with no `@`, `:` or `/`, and whatever digest follows it, are removed: the
-- repository is what is left, as long as it holds no `@`.
pub image_name-tagged :
    (repository tag : String) (digest : Option String)
    → Avoids b'@' repository
    → Avoids b'@' tag
    → Avoids b':' tag
    → Avoids b'/' tag
    → image_name ((repository ⧺ ":" ⧺ tag) ⧺ digest_suffix digest) ≡ repository
unfolding image_name
image_name-tagged repository tag digest h no_at no_colon no_slash =
    ap strip_tag (
      cut-append b'@' (repository ⧺ ":" ⧺ tag) (digest_suffix digest)
        (Avoids-append b'@' repository (":" ⧺ tag) h (Avoids-colon b'@' tag (omega arith) no_at))
        (cut-digest_suffix digest))
    ∙ strip_tag-tagged repository tag no_colon no_slash

-- With no tag behind the last `/`, nothing but the digest is removed: a port in the registry's host
-- is kept.
pub image_name-untagged :
    (path name : String) (digest : Option String)
    → Avoids b'@' path
    → Avoids b'@' name
    → Avoids b':' name
    → Avoids b'/' name
    → image_name ((path ⧺ "/" ⧺ name) ⧺ digest_suffix digest) ≡ path ⧺ "/" ⧺ name
unfolding image_name
image_name-untagged path name digest h no_at no_colon no_slash =
    ap strip_tag (
      cut-append b'@' (path ⧺ "/" ⧺ name) (digest_suffix digest)
        (Avoids-append b'@' path ("/" ⧺ name) h slash) (cut-digest_suffix digest))
    ∙ strip_tag-untagged path name no_colon no_slash
  where
    slash : Avoids b'@' ("/" ⧺ name)
    slash = rw (cons-append, nil-append) ((λ e. cc), no_at)
