-- ===== src/Models/Managed.antt =====
-- internal/models/managed_resources.go: the images of an application's desired state. A manifest is
-- the tree that `json.Unmarshal` reads; `none` is a text that it does not read.
use argo_watcher.Common.{
  ℕ, String, Bool, ◌&&◌, not, List, [], ◌∷◌, ◌++◌, Option, none, some, str_eq, contains, leb_text,
  if◌then◌else◌,
}
use argo_watcher.Common.Sort.{sort}
use argo_watcher.Helpers.Images.{image_name}

mutual
  pub data Json : Type 0 where
    null : Json
    boolean : Bool → Json
    number : ℕ → Json
    text : String → Json
    array : Items → Json
    object : Fields → Json

  pub data Items : Type 0 where
    no_items : Items
    item : Json → Items → Items

  pub data Fields : Type 0 where
    no_fields : Fields
    field : String → Json → Fields → Fields

-- What a field of a map adds by itself: a text under "image".
abbrev pub image_of_field : String → Json → List String
image_of_field key (text image) =
    if str_eq key "image" && not (str_eq image "") then image_name image ∷ [] else []
image_of_field key _ = []

-- `collectImages`: the names in the order they are met.
unfoldable mutual
  pub collect_images : Json → List String
  collect_images null = []
  collect_images (boolean b) = []
  collect_images (number n) = []
  collect_images (text s) = []
  collect_images (array items) = collect_items items
  collect_images (object fields) = collect_fields fields

  pub collect_items : Items → List String
  collect_items no_items = []
  collect_items (item node rest) = collect_images node ++ collect_items rest

  pub collect_fields : Fields → List String
  collect_fields no_fields = []
  collect_fields (field key child rest) =
      image_of_field key child ++ (collect_images child ++ collect_fields rest)

-- A managed resource's `TargetState`: whether it is the empty text, and its manifest.
pub data TargetState : Type 0 where
  empty_state : TargetState
  manifest : Option Json → TargetState

abbrev pub images_of_state : TargetState → List String
images_of_state empty_state = []
images_of_state (manifest none) = []
images_of_state (manifest (some json)) = collect_images json

unfoldable pub collect_states : List TargetState → List String
collect_states [] = []
collect_states (state ∷ rest) = images_of_state state ++ collect_states rest

-- The keys of the map `found`: each name once.
unfoldable pub distinct : List String → List String
distinct [] = []
distinct (name ∷ rest) = if contains rest name then distinct rest else name ∷ distinct rest

-- `DesiredImageNames`.
unfoldable pub desired_image_names : List TargetState → List String
unfolding collect_states distinct
desired_image_names items = sort leb_text (distinct (collect_states items))
