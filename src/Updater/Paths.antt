-- ===== src/Updater/Paths.antt =====
-- internal/updater/updater.go: where an override file is, and whether that is inside the clone. The
-- functions of path/filepath are those for Unix, which only look at the text. A cleaned path is kept as
-- its elements, `.` as none; to clean it again changes nothing.
pub mod Inside
use argo_watcher.Common.{
  String, Bool, true, false, not, ◌&&◌, ◌||◌, List, [], ◌∷◌, ◌++◌, Option, none, some, map, str_eq,
  code, ◌==◌, ◌⧺◌, if◌then◌else◌,
}
use argo_watcher.Common.Split.{split}

pub record CleanPath : Type 0 where
  pub rooted : Bool
  pub elements : List String

-- What `..` does to the elements kept so far, the last first.
abbrev pub up : Bool → List String → List String
up true [] = []
up false [] = ".." ∷ []
up rooted (k ∷ kept) = if str_eq k ".." then ".." ∷ k ∷ kept else kept

abbrev pub clean_part : Bool → List String → String → List String
clean_part rooted kept part =
    if str_eq part "" || str_eq part "."
    then kept
    else if str_eq part ".."
    then up rooted kept
    else part ∷ kept

-- `filepath.Clean`, over the parts between the slashes.
unfoldable pub clean_parts : Bool → List String → List String → List String
clean_parts rooted kept [] = kept
clean_parts rooted kept (part ∷ rest) = clean_parts rooted (clean_part rooted kept part) rest

unfoldable pub reverse_onto : List String → List String → List String
reverse_onto [] ys = ys
reverse_onto (x ∷ xs) ys = reverse_onto xs (x ∷ ys)

-- `filepath.Join(root, name)`, for a name that is not empty.
unfoldable pub join_path : CleanPath → String → CleanPath
join_path root name = record {
  rooted = root.rooted;
  elements =
      reverse_onto (clean_parts root.rooted (reverse_onto root.elements []) (split b'/' name)) [];
}

abbrev pub slashed : List String → String
slashed [] = ""
slashed (e ∷ rest) = "/" ⧺ e ⧺ slashed rest

-- The text of a cleaned path.
unfoldable pub text_of : CleanPath → String
text_of p = if p.rooted then rooted_text p.elements else relative_text p.elements
  where
    rooted_text : List String → String
    rooted_text [] = "/"
    rooted_text (e ∷ rest) = slashed (e ∷ rest)

    relative_text : List String → String
    relative_text [] = "."
    relative_text (e ∷ rest) = e ⧺ slashed rest

-- The elements past the common ones.
unfoldable pub past_common : List String → List String → List String × List String
past_common [] ts = ([], ts)
past_common (b ∷ bs) [] = (b ∷ bs, [])
past_common (b ∷ bs) (t ∷ ts) =
    let further = past_common bs ts in if str_eq b t then further else (b ∷ bs, t ∷ ts)

abbrev pub rel_of : List String × List String → Option (List String)
rel_of ([], ts) = some ts
rel_of (b ∷ bs, ts) = if str_eq b ".." then none else some (map (λ e. "..") (b ∷ bs) ++ ts)

-- `filepath.Rel`; `none` is its error.
unfoldable pub rel : CleanPath → CleanPath → Option (List String)
rel base target =
    if not (base.rooted && target.rooted || not base.rooted && not target.rooted)
    then none
    else rel_of (past_common base.elements target.elements)

abbrev pub is_below : Option (List String) → Bool
is_below none = false
is_below (some []) = false
is_below (some (e ∷ rest)) = not (str_eq e "..")

-- `assertInsideRoot`; `true` is no error.
unfoldable pub assert_inside_root : CleanPath → CleanPath → Bool
assert_inside_root root path = is_below (rel root path)

-- `generateOverrideFileNameForApp`.
unfoldable pub generate_override_file_name_for_app : String → String → String → String
generate_override_file_name_for_app path file_name app_name =
    if str_eq file_name ""
    then path ⧺ "/.argocd-source-" ⧺ app_name ⧺ ".yaml"
    else path ⧺ "/" ⧺ file_name
