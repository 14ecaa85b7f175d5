-- ===== src/Tests/Batches.antt =====
-- An example for the batcher of internal/argocd.
use argo_watcher.Common.{ℕ, ◌≤◌, String, [], ◌∷◌, ◌++◌, some, none, length, ◌≡◌, refl}
use argo_watcher.Argocd.Batcher.{
  Running, started, submit, new_batcher, enqueue, after_submit, after_next, next_batch, Reaches,
  start, then_step, submits, takes,
}
use argo_watcher.Argocd.Batcher.Order.{concat, AllShort, answered}
use argo_watcher.Argocd.Batcher.Delivery.{accepted_answered}
use argo_watcher.Common.{Has, inl, false, true}
use argo_watcher.Common.Split.{split, trim_left, trim_right}
use argo_watcher.Argocd.Overrides.{
  ParameterOverride, parameters, generate_override_file_content, extract_managed_images,
  find_annotation, managed_images_of, put, all_overrides, overrides_of,
}
use argo_watcher.Argocd.Overrides.Exact.{AllExact, generate_override_file_content-AllExact}
use argo_watcher.Argocd.BatchWrite.{
  WriteRequest, Attempt, committed, waited, Entry, run_batch_write_back, attempts,
  run_batch_attempt, record_attempt, apply_request,
}
use argo_watcher.Argocd.BatchWrite.Truthful.{Wrote, run_batch_write_back-Wrote}

abbrev queued : Running String String
queued =
    after_submit String String "main" "api" (started String String)
      (enqueue String String "main" "api" (new_batcher String String))

abbrev flushed : Running String String
flushed =
    after_next String String "main" 0 queued (next_batch String String 20 "main" queued.batcher)

reached : Reaches String String 20 flushed
unfolding submit new_batcher
reached =
    then_step queued flushed
      (then_step (started String String) queued start (
        submits (started String String) "main" "api"
          (enqueue String String "main" "api" (new_batcher String String)) refl))
      (takes queued "main" 0 refl)

batch_example :
    (flushed.accepted "main"
      ≡ answered String String (flushed.answers "main")
        ++ (concat String String (flushed.flushing "main") ++ flushed.batcher.pending "main"))
    × (length (flushed.flushing "main") ≤ 1)
    × AllShort String String 20 (flushed.flushing "main")
    × (flushed.loops "main" ≡ 0
        → flushed.flushing "main" ≡ []
        → flushed.accepted "main" ≡ answered String String (flushed.answers "main"))
batch_example = accepted_answered String String 20 flushed "main" reached

abbrev api_request : WriteRequest
api_request = record {
  key = 0;
  annotations =
      ("argo-watcher/managed-images", "app=reg/api")
      ∷ ("argo-watcher/app.helm.image-tag", "image.tag")
      ∷ [];
  path = "apps/api";
  images = record { image = "reg/api"; tag = "v2" } ∷ [];
}

abbrev pushed : ℕ → Attempt
pushed i = record {
  clone_error = none;
  is_superseded = λ r. false;
  commit = λ r ps. committed;
  push_error = none;
  wait = waited;
}

abbrev written : Entry
written = record { request = api_request; outcome = some none; commit_error = none }

batch_result : Has written (run_batch_write_back 3 pushed (api_request ∷ []))
unfolding run_batch_write_back attempts run_batch_attempt record_attempt apply_request
    generate_override_file_content extract_managed_images find_annotation managed_images_of split
    trim_left trim_right put all_overrides overrides_of
batch_result = inl refl

batch_write_example : (i : ℕ) × Wrote (pushed i) api_request
batch_write_example =
    run_batch_write_back-Wrote pushed 3 (api_request ∷ []) written batch_result refl

managed : extract_managed_images api_request.annotations ≡ some (("app", "reg/api") ∷ [])
unfolding extract_managed_images find_annotation managed_images_of split trim_left trim_right put
managed = refl

abbrev tag_override : ParameterOverride
tag_override = record { name = "image.tag"; value = "v2"; force_string = true }

generated :
    generate_override_file_content api_request.annotations api_request.images
    ≡ some (parameters (tag_override ∷ []))
unfolding generate_override_file_content extract_managed_images find_annotation managed_images_of
    split trim_left trim_right put all_overrides overrides_of
generated = refl

overrides_example :
    AllExact api_request.annotations api_request.images
      (("app", "reg/api") ∷ [])
      (parameters (tag_override ∷ []))
overrides_example =
    generate_override_file_content-AllExact api_request.annotations (("app", "reg/api") ∷ [])
      api_request.images (parameters (tag_override ∷ [])) managed generated
