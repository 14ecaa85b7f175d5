-- ===== src/Helpers/Images.antt =====
-- internal/helpers/helpers.go: container image references.
pub mod Names
use argo_watcher.Common.{
  ℕ, zero, suc, Bool, ◌||◌, List, Option, none, some, String, code, str_eq, ◌⧺◌, contains, leb_text,
  ltb, ◌==◌, if◌then◌else◌, not, false, true,
}
use argo_watcher.Common.Sort.{sort}

-- `ImagesContains`.
unfoldable pub images_contains : List String → String → String → Bool
images_contains images image registry_proxy =
    if not (str_eq registry_proxy "")
    then (let image_with_proxy = registry_proxy ⧺ "/" ⧺ image in
        contains images image || contains images image_with_proxy)
    else contains images image

-- `strings.Cut(s, sep)` at a one-character separator: what stands before it.
unfoldable pub cut : ℕ → String → String
cut sep String.[] = ""
cut sep (String.◌∷◌ c s) = if code c == sep then "" else String.◌∷◌ c (cut sep s)

-- `strings.LastIndex(s, sep)` at a one-character separator; `none` is the source's -1.
unfoldable pub last_index : ℕ → String → Option ℕ
last_index sep String.[] = none
last_index sep (String.◌∷◌ c s) = elim (last_index sep s) [
  | some i ↦ some (suc i)
  | none ↦ if code c == sep then some 0 else none
]

-- `s[:n]`
unfoldable pub take_text : ℕ → String → String
take_text zero s = ""
take_text (suc n) String.[] = ""
take_text (suc n) (String.◌∷◌ c s) = String.◌∷◌ c (take_text n s)

-- `colon > strings.LastIndex(name, "/")`, where -1 is `none`.
abbrev pub index_after : ℕ → Option ℕ → Bool
index_after colon none = true
index_after colon (some slash) = ltb slash colon

unfoldable pub strip_tag : String → String
strip_tag name = elim (last_index b':' name) [
  | none ↦ name
  | some colon ↦ if index_after colon (last_index b'/' name) then take_text colon name else name
]

-- `ImageName`.
unfoldable pub image_name : String → String
image_name reference = strip_tag (cut b'@' reference)

-- `NormalizeImages`.
unfoldable pub normalize_images : List String → List String
normalize_images images = sort leb_text images
