-- ===== src/Common/Split.antt =====
-- `strings.Split` at a separator of one character, and `strings.TrimSpace`.
pub mod Separator
use argo_watcher.Common.{
  ℕ, String, Bool, ◌&&◌, ◌||◌, List, [], ◌∷◌, str_eq, code, ◌⧺◌, if◌then◌else◌, ◌==◌, leb,
}

abbrev to_first : String → List String → List String
to_first c [] = c ∷ []
to_first c (s ∷ rest) = (c ⧺ s) ∷ rest

-- The parts between the separators: one more than there are separators.
unfoldable pub split : ℕ → String → List String
split b String.[] = "" ∷ []
split b (String.◌∷◌ c s) =
    let rest = split b s in
    if code c == b then "" ∷ rest else to_first (String.◌∷◌ c String.[]) rest

-- `unicode.IsSpace`.
abbrev pub is_space : ℕ → Bool
is_space c =
    (leb 9 c && leb c 13)
    || c == 32
    || c == 133
    || c == 160
    || c == 5760
    || (leb 8192 c && leb c 8202)
    || c == 8232
    || c == 8233
    || c == 8239
    || c == 8287
    || c == 12288

unfoldable pub trim_left : String → String
trim_left String.[] = ""
trim_left (String.◌∷◌ c s) =
    let rest = trim_left s in if is_space (code c) then rest else String.◌∷◌ c s

unfoldable pub trim_right : String → String
trim_right String.[] = ""
trim_right (String.◌∷◌ c s) =
    let rest = trim_right s in if is_space (code c) && str_eq rest "" then "" else String.◌∷◌ c rest

-- `strings.TrimSpace`.
abbrev pub trim_space : String → String
trim_space s = trim_left (trim_right s)
