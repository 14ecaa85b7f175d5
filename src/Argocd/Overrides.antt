-- ===== src/Argocd/Overrides.antt =====
-- internal/argocd/git_writeback.go: the override file of a task. Go walks a map in no order; the
-- managed images are walked in the order of their aliases in the annotation.
pub mod Exact
use argo_watcher.Common.{
  String, Bool, true, false, List, [], ◌∷◌, ◌++◌, Option, none, some, str_eq, ◌⧺◌, is_some, not,
  if◌then◌else◌,
}
use argo_watcher.Common.Split.{split, trim_space}
use argo_watcher.Models.Task.{Image, contains_text}

abbrev pub managed_images_annotation : String
managed_images_annotation = "argo-watcher/managed-images"

-- `ArgoParameterOverride`.
pub record ParameterOverride : Type 0 where
  pub name : String
  pub value : String
  pub force_string : Bool

-- The errors of `generateOverrideFileContent`.
pub data OverrideError : Type 0 where
  invalid_format : OverrideError
  missing_tag_annotation : String → String → OverrideError

-- `annotations[key]` with its second result.
unfoldable pub find_annotation : String → List (String × String) → Option String
find_annotation key [] = none
find_annotation key ((k, v) ∷ rest) = if str_eq k key then some v else find_annotation key rest

-- `m[key] = value`.
unfoldable pub put : String → String → List (String × String) → List (String × String)
put key value [] = (key, value) ∷ []
put key value ((k, v) ∷ rest) =
    let put_later = (k, v) ∷ put key value rest in
    if str_eq k key then (k, value) ∷ rest else put_later

abbrev alias_and_image : List String → String × String
alias_and_image [] = ("", "")
alias_and_image (alias ∷ []) = (alias, "")
alias_and_image (alias ∷ image ∷ _) = (alias, image)

-- The loop over the parts of the annotation's value.
unfoldable pub managed_images_of :
    List String → List (String × String) → Option (List (String × String))
managed_images_of [] found = some found
managed_images_of (part ∷ rest) found =
    let (alias, image) = alias_and_image (split b'=' (trim_space part)) in
    let later = managed_images_of rest (put alias image found) in
    if not (contains_text part "=") then none else later

-- `extractManagedImages`; `none` is its error.
unfoldable pub extract_managed_images : List (String × String) → Option (List (String × String))
extract_managed_images annotations = elim (find_annotation managed_images_annotation annotations) [
  | none ↦ some []
  | some value ↦ managed_images_of (split b',' value) []
]

abbrev pub tag_annotation : String → String
tag_annotation alias = "argo-watcher/" ⧺ alias ⧺ ".helm.image-tag"

pub data Overrides : Type 0 where
  failed : OverrideError → Overrides
  parameters : List ParameterOverride → Overrides

abbrev prepend : List ParameterOverride → Overrides → Overrides
prepend found (failed e) = failed e
prepend found (parameters more) = parameters (found ++ more)

-- The inner loop, over the managed images.
unfoldable pub overrides_of : List (String × String) → Image → List (String × String) → Overrides
overrides_of annotations image [] = parameters []
overrides_of annotations image ((alias, app_image) ∷ rest) =
    let later = overrides_of annotations image rest in
    let here : Overrides = elim (find_annotation (tag_annotation alias) annotations) [
      | none ↦ failed (missing_tag_annotation app_image alias)
      | some path ↦
          prepend (record { name = path; value = image.tag; force_string = true } ∷ []) later
    ] in
    if str_eq image.image app_image then here else later

abbrev and_then : Overrides → Overrides → Overrides
and_then (failed e) more = failed e
and_then (parameters found) more = prepend found more

-- The outer loop, over the task's images.
unfoldable pub all_overrides :
    List (String × String) → List (String × String) → List Image → Overrides
all_overrides annotations managed [] = parameters []
all_overrides annotations managed (image ∷ rest) =
    and_then (overrides_of annotations image managed) (all_overrides annotations managed rest)

abbrev pub file_of :
    List (String × String) → List Image → Option (List (String × String)) → Option Overrides
file_of annotations images none = some (failed invalid_format)
file_of annotations images (some []) = none
file_of annotations images (some (m ∷ ms)) = some (all_overrides annotations (m ∷ ms) images)

-- `generateOverrideFileContent`; `none` is a nil file.
unfoldable pub generate_override_file_content :
    List (String × String) → List Image → Option Overrides
generate_override_file_content annotations images =
    file_of annotations images (extract_managed_images annotations)
