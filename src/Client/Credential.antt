-- ===== src/Client/Credential.antt =====
-- internal/client/client.go, config.go and utility.go: the client's configuration, the credential that it
-- presents, and the task that it submits. A header's value is the empty text where it is not set.
use argo_watcher.Common.{
  ℕ, String, Bool, not, ◌&&◌, List, Option, map, str_eq, code, ◌==◌, if◌then◌else◌,
}
use argo_watcher.Common.Int.{ℤ}
use argo_watcher.Models.Task.{Task, Image}
use argo_watcher.Auth.{without_bearer}

pub record Config : Type 0 where
  pub url : String
  pub images : List String
  pub tag : String
  pub app : String
  pub author : String
  pub project : String
  pub token : String
  pub json_web_token : String
  pub task_timeout : ℤ
  pub refresh : Option Bool
  pub retry_interval : ℕ
  pub expected_deployment_time : ℕ

pub record Credential : Type 0 where
  pub header : String
  pub value : String

abbrev pub jwt_header : String
jwt_header = "Authorization"

abbrev pub deploy_token_header : String
deploy_token_header = "ARGO_WATCHER_DEPLOY_TOKEN"

-- `credentialFrom`.
unfoldable pub credential_from : Config → Credential
credential_from config =
    if not (str_eq config.json_web_token "")
    then record { header = jwt_header; value = without_bearer config.json_web_token }
    else if not (str_eq config.token "")
    then record { header = deploy_token_header; value = config.token }
    else record { header = ""; value = "" }

-- `credential.isSet`.
unfoldable pub is_set : Credential → Bool
is_set c = not (str_eq c.header "") && not (str_eq c.value "")

-- A request's headers, with `Get`, `Set` and `Del` of a header that is named in its canonical spelling.
abbrev pub Headers : Type 0
Headers = String → String

abbrev pub set_header : String → String → Headers → Headers
set_header name value headers = λ other. if str_eq name other then value else headers other

abbrev pub del_header : String → Headers → Headers
del_header name = set_header name ""

-- `credential.apply`.
unfoldable pub apply_credential : Credential → Headers → Headers
apply_credential c headers = if not (is_set c) then headers else set_header c.header c.value headers

-- `getImagesList`.
unfoldable pub get_images_list : List String → String → List Image
get_images_list list tag = map (λ image. record { image = image; tag = tag }) list

-- `createTask`; the fields that the client leaves out are zero.
unfoldable pub create_task : Config → Task
unfolding get_images_list
create_task config = record {
  id = "";
  created = 0;
  updated = 0;
  app = config.app;
  author = config.author;
  project = config.project;
  images = get_images_list config.images config.tag;
  status = "";
  status_reason = "";
  validated = Bool.false;
  timeout = config.task_timeout;
  is_rollback = Bool.false;
  refresh = config.refresh;
  rollback_target_id = "";
  saved_app_status = record { app_status = ""; images_hash = "" };
}

-- `strings.TrimSuffix(s, "/")`.
unfoldable pub trim_slash : String → String
trim_slash String.[] = ""
trim_slash (String.◌∷◌ c s) =
    let rest = trim_slash s in if str_eq s "" && code c == b'/' then "" else String.◌∷◌ c rest
