-- ===== src/Argocd/Overrides/Exact.antt =====
-- internal/argocd/git_writeback.go: which parameters the override file holds.
use argo_watcher.Common.{
  String, true, false, List, [], ◌∷◌, ◌++◌, some, str_eq, ◌≡◌, refl, sym, ap, subst, ◌∙◌, inl, inr,
  Bool-cases, Option-cases, eq_iff, arith, Has, Has-append_left, Has-append_right, ◌⊎◌,
}
use argo_watcher.Models.Task.{Image}
use argo_watcher.Argocd.Overrides.{
  ParameterOverride, Overrides, failed, parameters, find_annotation, tag_annotation, overrides_of,
  all_overrides, prepend, and_then, extract_managed_images, generate_override_file_content, file_of,
}

Has-of_append : {A : Type 0} (a : A) (xs ys : List A) → Has a (xs ++ ys) → Has a xs ⊎ Has a ys
Has-of_append a [] ys h = inr h
Has-of_append a (x ∷ xs) ys (inl e) = inl (inl e)
Has-of_append a (x ∷ xs) ys (inr h) = elim (Has-of_append a xs ys h) [
  | inl k ↦ inl (inr k)
  | inr k ↦ inr k
]

not_same :
    (image : Image) (app_image : String)
    → str_eq image.image app_image ≡ false
    → ¬ (app_image ≡ image.image)
not_same image app_image s e = ground (arith, eq_iff image.image app_image)

some_injective : {x y : Overrides} → some x ≡ some y → x ≡ y
some_injective e = cc e

module _ (annotations : List (String × String)) where
  -- The parameter sets the image's tag at the path that is annotated for the alias.
  abbrev pub Tagged : String → Image → ParameterOverride → Type 0
  Tagged alias image p =
      (find_annotation (tag_annotation alias) annotations ≡ some p.name) × (p.value ≡ image.tag)

  -- For one image: each parameter is of an alias that manages it, and each such alias has one.
  abbrev Exact : Image → List (String × String) → Overrides → Type 0
  Exact image managed (failed e) = Unit {0}
  Exact image managed (parameters ps) =
      ((p : ParameterOverride)
        → Has p ps
        → (alias : String) × Has (alias, image.image) managed × Tagged alias image p)
      × ((alias : String)
          → Has (alias, image.image) managed
          → (p : ParameterOverride) × Has p ps × Tagged alias image p)

  -- For all images of a task.
  abbrev pub AllExact : List Image → List (String × String) → Overrides → Type 0
  AllExact images managed (failed e) = Unit {0}
  AllExact images managed (parameters ps) =
      ((p : ParameterOverride)
        → Has p ps
        → (image : Image) × (alias : String) × Has image images
          × Has (alias, image.image) managed
          × Tagged alias image p)
      × ((image : Image) (alias : String)
          → Has image images
          → Has (alias, image.image) managed
          → (p : ParameterOverride) × Has p ps × Tagged alias image p)

  Exact-skip :
      (image : Image) (alias app_image : String) (managed : List (String × String))
      (later : Overrides)
      → str_eq image.image app_image ≡ false
      → Exact image managed later
      → Exact image ((alias, app_image) ∷ managed) later
  Exact-skip image alias app_image managed (failed e) s h = tt
  Exact-skip image alias app_image managed (parameters ps) s (h, k) = (
    λ p q. let (a, m, t) = h p q in (a, inr m, t),
    λ a q. elim q [ inl e ↦ absurd (not_same image app_image s (ap (λ x. x.1) e)) | inr m ↦ k a m ],
  )

  Exact-here :
      (image : Image) (alias app_image path : String) (managed : List (String × String))
      (later : Overrides)
      → str_eq image.image app_image ≡ true
      → find_annotation (tag_annotation alias) annotations ≡ some path
      → Exact image managed later
      → Exact image
          ((alias, app_image) ∷ managed)
          (prepend (record { name = path; value = image.tag; force_string = true } ∷ []) later)
  Exact-here image alias app_image path managed (failed e) s f h = tt
  Exact-here image alias app_image path managed (parameters ps) s f (h, k) = (
    λ p q. elim q [
      | inl e ↦ (
        alias,
        inl (ap (λ x. (alias, x)) (sym ((eq_iff image.image app_image).0 s))),
        (f ∙ ap (λ r. some r.name) e, sym (ap (λ r. r.value) e)),
      )
      | inr m ↦ let (a, n, t) = h p m in (a, inr n, t)
    ],
    λ a q. elim q [
      | inl e ↦ (
        record { name = path; value = image.tag; force_string = true },
        inl refl,
        (
          ap (λ x. find_annotation (tag_annotation x) annotations) (sym (ap (λ x. x.0) e)) ∙ f,
          refl,
        ),
      )
      | inr m ↦ let (p, n, t) = k a m in (p, inr n, t)
    ],
  )

  overrides_of-Exact :
      (image : Image) (managed : List (String × String))
      → Exact image managed (overrides_of annotations image managed)
  unfolding overrides_of
  overrides_of-Exact image [] = (λ p h. absurd h, λ a h. absurd h)
  overrides_of-Exact image ((alias, app_image) ∷ rest) =
      let ih = overrides_of-Exact image rest in
      elim (Bool-cases (str_eq image.image app_image)) [
        | inl s ↦ elim (Option-cases (find_annotation (tag_annotation alias) annotations)) [
          | inl f ↦ rw (s, f) tt
          | inr (path, f) ↦
              rw (s, f)
                (Exact-here image alias app_image path rest (overrides_of annotations image rest) s
                  f ih)
        ]
        | inr s ↦
            rw s (Exact-skip image alias app_image rest (overrides_of annotations image rest) s ih)
      ]

  and_then-AllExact :
      (image : Image) (images : List Image) (managed : List (String × String)) (x y : Overrides)
      → Exact image managed x
      → AllExact images managed y
      → AllExact (image ∷ images) managed (and_then x y)
  and_then-AllExact image images managed (failed e) y h k = tt
  and_then-AllExact image images managed (parameters ps) (failed e) h k = tt
  and_then-AllExact image images managed (parameters ps) (parameters qs) (h, h') (k, k') = (
    λ p m. elim (Has-of_append p ps qs m) [
      | inl q ↦ let (a, n, t) = h p q in (image, a, inl refl, n, t)
      | inr q ↦ let (i, a, j, n, t) = k p q in (i, a, inr j, n, t)
    ],
    λ i a j n. elim j [
      | inl e ↦
          let (p, q, t) = h' a (subst (λ x. Has (a, x.image) managed) (sym e) n) in
          (p, Has-append_left p ps qs q, (t.0, t.1 ∙ ap (λ x. x.tag) e))
      | inr l ↦ let (p, q, t) = k' i a l n in (p, Has-append_right p ps qs q, t)
    ],
  )

  all_overrides-AllExact :
      (managed : List (String × String)) (images : List Image)
      → AllExact images managed (all_overrides annotations managed images)
  unfolding all_overrides
  all_overrides-AllExact managed [] = (λ p h. absurd h, λ i a h. absurd h)
  all_overrides-AllExact managed (image ∷ rest) =
      and_then-AllExact image rest managed (overrides_of annotations image managed)
        (all_overrides annotations managed rest) (overrides_of-Exact image managed)
        (all_overrides-AllExact managed rest)

  exact_of :
      (managed : List (String × String)) (images : List Image) (result : Overrides)
      → file_of annotations images (some managed) ≡ some result
      → AllExact images managed result
  exact_of [] images result e = cc e
  exact_of (m ∷ ms) images result e =
      subst (AllExact images (m ∷ ms)) (some_injective e) (all_overrides-AllExact (m ∷ ms) images)

  -- The override file that a task is written back with holds, for each of the task's images and each
  -- alias that manages the image, the image's tag at the path that is annotated for the alias, and it
  -- holds nothing else: a managed image is never skipped, a missing path is an error.
  pub generate_override_file_content-AllExact :
      (managed : List (String × String)) (images : List Image) (result : Overrides)
      → extract_managed_images annotations ≡ some managed
      → generate_override_file_content annotations images ≡ some result
      → AllExact images managed result
  unfolding generate_override_file_content
  generate_override_file_content-AllExact managed images result m e =
      exact_of managed images result (subst (λ x. file_of annotations images x ≡ some result) m e)
