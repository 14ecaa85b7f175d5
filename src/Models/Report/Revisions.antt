-- ===== src/Models/Report/Revisions.antt =====
-- internal/models/argo.go: revision reports and how they are named.
use Prim.Native.String.{len}
use argo_watcher.Common.{
  ℕ, String, code, Bool, true, ◌&&◌, ◌||◌, not, List, map, length, str_eq, ◌⧺◌, join, leb, ltb,
  ◌==◌, if◌then◌else◌,
}
use argo_watcher.Helpers.Images.{take_text}

pub record Revisions : Type 0 where
  pub key : String
  pub phrase : String

abbrev is_hex : ℕ → Bool
is_hex c = (leb b'0' c && leb c b'9') || (leb b'a' c && leb c b'f') || (leb b'A' c && leb c b'F')

unfoldable pub all_hex : String → Bool
all_hex String.[] = true
all_hex (String.◌∷◌ c s) = is_hex (code c) && all_hex s

-- `shortRevision`.
unfoldable pub short_revision : String → String
unfolding all_hex take_text
short_revision revision =
    if not (len revision == 40)
    then revision
    else if not (all_hex revision)
    then revision
    else take_text 7 revision

-- `newRevisions`.
unfoldable pub new_revisions : String → List String → Revisions
unfolding join
new_revisions revision list =
    if not (str_eq revision "") && leb (length list) 1
    then record { key = revision; phrase = "revision " ⧺ short_revision revision }
    else if length list == 0
    then record { key = ""; phrase = "" }
    else record {
      key = join list ",";
      phrase =
          (if ltb 1 (length list) then "revisions " else "revision ")
          ⧺ join (map short_revision list) ", ";
    }
