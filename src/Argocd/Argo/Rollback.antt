-- ===== src/Argocd/Argo/Rollback.antt =====
-- How a deployment is recognised as a rollback.
use mathlib.Core.List.{Perm}
use mathlib.Core.List.Perm
use argo_watcher.Common.{
  ℕ, String, List, [], ◌∷◌, ◌≡◌, refl, sym, subst, ◌∙◌, ◌≢◌, inl, inr, Has, Has-of_map, ◌⧺◌,
  leb_text, false, true, str_eq, eq_iff, arith, Bool-cases,
}
use text.Mathlib.TextLemmas.{append-eq-nil_iff}
use argo_watcher.Common.Sort.{sort, sort-perm}
use argo_watcher.Common.Split.Separator.{AllFree, join_injective}
use argo_watcher.Common.TextOrder.{sort-eq_of_perm}
use argo_watcher.Helpers.Images.{normalize_images}
use argo_watcher.Models.Status.{status_deployed}
use argo_watcher.Models.Task.{Task, list_images}
use argo_watcher.State.Memory.{InMemoryState}
use argo_watcher.State.Memory.Listing.{page-Listed, Has-of_sort}
use argo_watcher.State.Repository.{memory_repository}
use argo_watcher.Argocd.Argo.{
  rollback_history_window, image_signature, find_signature, rollback_target, detect_rollback,
}

-- The order of a task's images does not matter to its signature.
pub image_signature_perm :
    (a b : Task) → Perm (list_images a) (list_images b) → image_signature a ≡ image_signature b
unfolding image_signature normalize_images
image_signature_perm a b p = rw (sort-eq_of_perm _ _ p)

find_signature-Has :
    (target : String) (tasks : List Task)
    → find_signature target tasks ≢ ""
    → (p : Task) × Has p tasks × (p.id ≡ find_signature target tasks) × (image_signature p ≡ target)
unfolding find_signature
find_signature-Has target [] ne = absurd (ne refl)
find_signature-Has target (t ∷ rest) ne = elim (Bool-cases (str_eq (image_signature t) target)) [
  | inl e ↦ (t, inl refl, rw e, (eq_iff _ _).0 e)
  | inr e ↦ let (p, h, i, s) = find_signature-Has target rest (rw e at ne) in (p, inr h, rw e i, s)
]

rollback_target-Has :
    (task : Task) (tasks : List Task)
    → rollback_target task tasks ≢ ""
    → (p : Task) × Has p tasks
      × (p.id ≡ rollback_target task tasks)
      × (image_signature p ≡ image_signature task)
unfolding rollback_target
rollback_target-Has task [] ne = absurd (ne refl)
rollback_target-Has task (current ∷ earlier) ne =
    elim (Bool-cases (str_eq (image_signature current) (image_signature task))) [
      | inl e ↦ absurd (ne (rw e))
      | inr e ↦
          let (p, h, i, s) = find_signature-Has (image_signature task) earlier (rw e at ne) in
          (p, inr h, rw e i, s)
    ]

-- Redeploying what runs is no rollback.
rollback_of_current :
    (task current : Task) (earlier : List Task)
    → image_signature current ≡ image_signature task
    → rollback_target task (current ∷ earlier) ≡ ""
unfolding rollback_target
rollback_of_current task current earlier e =
    ground (arith, eq_iff (image_signature current) (image_signature task))

deployed-named : status_deployed ≢ ""
deployed-named = ground (arith, eq_iff status_deployed "")

-- No image reference holds the separator of the signatures.
abbrev pub NoComma : Task → Type 0
NoComma task = AllFree b',' (list_images task)

reference-not_empty : (a b : String) → a ⧺ ":" ⧺ b ≢ ""
reference-not_empty a b e =
    let q : ◌≡◌ {A = String} ":" "" = (append-eq-nil_iff.0 (append-eq-nil_iff.0 e).1).0 in
    let h : false ≡ true = (eq_iff ":" "").1 q in cc h

list_images-not_empty : (task : Task) (s : String) → Has s (list_images task) → s ≢ ""
unfolding list_images
list_images-not_empty task s h e =
    let (i, _, k) = Has-of_map (λ i. i.image ⧺ ":" ⧺ i.tag) s task.images h in
    reference-not_empty i.image i.tag (k ∙ e)

-- Tasks of one signature name the same images, in some order.
same_images :
    (p task : Task)
    → NoComma p
    → NoComma task
    → image_signature p ≡ image_signature task
    → Perm (list_images p) (list_images task)
unfolding image_signature normalize_images
same_images p task f g e =
    let sorted : Task → List String = λ t. sort leb_text (list_images t) in
    let back : (t : Task) (s : String) → Has s (sorted t) → Has s (list_images t) =
      λ t s. Has-of_sort leb_text s (list_images t) in
    let same : sorted p ≡ sorted task =
      join_injective "," (sorted p) (sorted task) refl (λ s h. f s (back p s h))
        (λ s h. g s (back task s h)) (λ s h. list_images-not_empty p s (back p s h))
        (λ s h. list_images-not_empty task s (back task s h)) e in
    Perm.trans (Perm.symm (sort-perm leb_text (list_images p)))
      (subst (λ xs. Perm xs (list_images task)) (sym same) (sort-perm leb_text (list_images task)))

-- Over the in-memory state: a deployment of a named application that is taken for a rollback names a
-- task of the store that was deployed for this application with the same images and tags, in some
-- order and each as often. No image reference, of this task or a stored one, is to hold a comma.
pub detect_rollback_sound :
    (now : ℕ) (state : InMemoryState) (task : Task)
    → task.app ≢ ""
    → NoComma task
    → ((t : Task) → Has t state.tasks → NoComma t)
    → detect_rollback memory_repository now state task ≢ ""
    → (p : Task) × Has p state.tasks
      × (p.id ≡ detect_rollback memory_repository now state task)
      × (p.app ≡ task.app)
      × (p.status ≡ status_deployed)
      × Perm (list_images p) (list_images task)
unfolding detect_rollback
detect_rollback_sound now state task named free stored_free ne =
    let (p, h, i, s) = rollback_target-Has task _ ne in
    let (held, _, _, app, status) =
      page-Listed state 0 now task.app status_deployed p rollback_history_window h in
    (
      p,
      held,
      i,
      sym (elim app [ inl e ↦ absurd (named e) | inr e ↦ e ]),
      elim status [ inl e ↦ absurd (deployed-named e) | inr e ↦ sym e ],
      same_images p task (stored_free p held) free s,
    )
