-- ===== src/Tests/Deployments.antt =====
-- Examples for the acceptance of deployments in internal/argocd/argo.go.
use mathlib.Core.List.{Perm}
use argo_watcher.Common.{
  String, sym, ◌+◌, true, false, [], ◌∷◌, some, ◌≡◌, ◌≢◌, refl, str_eq, Has, inl, inr, subst, arith,
  ap, join,
}
use argo_watcher.Common.Int.{int64}
use argo_watcher.Common.Sort.{sort, insert}
use argo_watcher.Common.Split.Separator.{Free, AllFree}
use argo_watcher.Helpers.Images.{normalize_images}
use argo_watcher.Models.Status.{status_deployed}
use argo_watcher.Models.Task.{Task, Image, list_images}
use argo_watcher.State.Memory.{get_task, get_tasks, find_task, task_matches_filters, paginate}
use argo_watcher.State.Repository.{memory_repository}
use argo_watcher.Argocd.Argo.{
  Argo, accepted, store_failed, is_available, image_signature, detect_rollback, find_signature,
  add_task, argocd_unavailable,
}
use argo_watcher.Argocd.Argo.Rollback.{NoComma, detect_rollback_sound}
use argo_watcher.Argocd.Argo.Acceptance.{stored, Left, add_task-accepted}
use argo_watcher.Tests.{earlier, api_task, history, ongoing}

abbrev pub reachable : Argo memory_repository
reachable = record {
  availability = record { reason = ""; argo_unavailable = false; state_unavailable = false };
  store = ongoing;
  accepted_deployments = 4;
}

abbrev unreachable : Argo memory_repository
unreachable = record reachable {
  availability = record { reason = "argocd"; argo_unavailable = true; state_unavailable = false };
}

api_named : api_task.app ≢ ""
api_named e = let h : false ≡ true = ap (λ s. str_eq s "") e in ground (arith, h)

not_new : ◌≢◌ {A = String} "1" "2"
not_new e = let h : false ≡ true = ap (λ s. str_eq s "1") (sym e) in cc h

accepted_example :
    ((add_task memory_repository "2" 150 reachable api_task).1
      ≡ accepted (stored "2" 150 reachable api_task))
    × (get_task (add_task memory_repository "2" 150 reachable api_task).0.store "2"
        ≡ some (stored "2" 150 reachable api_task))
    × Left "2" 150 reachable api_task
        (get_task ongoing "1")
        (get_task (add_task memory_repository "2" 150 reachable api_task).0.store "1")
    × ((add_task memory_repository "2" 150 reachable api_task).0.accepted_deployments ≡ 4 + 1)
unfolding is_available get_task find_task
accepted_example = add_task-accepted "2" 150 reachable api_task "1" not_new refl refl api_named refl

rollback_found : detect_rollback memory_repository 50 history api_task ≢ ""
unfolding detect_rollback get_tasks sort task_matches_filters insert paginate image_signature join
    normalize_images list_images find_signature int64
rollback_found e = let h : false ≡ true = ap (λ s. str_eq s "") e in ground (arith, h)

one-Free : (x : String) → Free b',' x → AllFree b',' (x ∷ [])
one-Free x h s (inl e) = subst (Free b',') e h
one-Free x h s (inr k) = absurd k

api_task-NoComma : NoComma api_task
unfolding list_images
api_task-NoComma =
    one-Free "reg/api:v2"
      (refl, (refl, (refl, (refl, (refl, (refl, (refl, (refl, (refl, (refl, tt))))))))))

previous-NoComma : NoComma (earlier "9" "v3" 20)
unfolding list_images
previous-NoComma =
    one-Free "reg/api:v3"
      (refl, (refl, (refl, (refl, (refl, (refl, (refl, (refl, (refl, (refl, tt))))))))))

history-NoComma : (t : Task) → Has t history.tasks → NoComma t
unfolding list_images
history-NoComma t (inl e) = subst NoComma e api_task-NoComma
history-NoComma t (inr (inl e)) = subst NoComma e previous-NoComma
history-NoComma t (inr (inr k)) = absurd k

rollback_example :
    (p : Task) × Has p history.tasks
    × (p.id ≡ detect_rollback memory_repository 50 history api_task)
    × (p.app ≡ api_task.app)
    × (p.status ≡ status_deployed)
    × Perm (list_images p) (list_images api_task)
rollback_example =
    detect_rollback_sound 50 history api_task api_named api_task-NoComma history-NoComma
      rollback_found

not_store_failed : argocd_unavailable ≢ store_failed
not_store_failed e = cc e

abbrev two_images : Image → Image → Task
two_images a b = record api_task { images = a ∷ b ∷ [] }

abbrev api : Image
api = record { image = "reg/api"; tag = "v2" }

abbrev web : Image
web = record { image = "reg/web"; tag = "v7" }
