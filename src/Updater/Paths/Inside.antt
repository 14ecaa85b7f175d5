-- ===== src/Updater/Paths/Inside.antt =====
-- internal/updater/updater.go: what the guard of the path lets through.
use argo_watcher.Common.{
  String, Bool, true, false, not, ◌&&◌, ◌||◌, List, [], ◌∷◌, ◌++◌, str_eq, eq_iff, eq_refl, ◌≡◌,
  ◌≢◌, ◌↔◌, refl, sym, ◌∙◌, inl, inr, Bool-cases,
}
use argo_watcher.Updater.Paths.{CleanPath, past_common, rel_of, rel, is_below, assert_inside_root}

-- The second list is the first with at least one element more, which does not lead up.
abbrev pub Extends : List String → List String → Type 0
Extends root elements =
    (e : String) × (rest : List String) × (elements ≡ root ++ e ∷ rest) × (e ≢ "..")

-- A path below a root: of its kind, with its elements first.
abbrev pub Inside : CleanPath → CleanPath → Type 0
Inside root path = (root.rooted ≡ path.rooted) × Extends root.elements path.elements

-- Where elements of the root are left, the way to the path leads up, if there is one.
leads_up : (b : String) (bs ts : List String) → is_below (rel_of (b ∷ bs, ts)) ≡ false
leads_up b bs ts = elim (Bool-cases (str_eq b "..")) [ inl h ↦ rw h refl | inr h ↦ rw h refl ]

is_below-Extends :
    (bs ts : List String) → is_below (rel_of (past_common bs ts)) ≡ true → Extends bs ts
unfolding past_common
is_below-Extends [] [] h = absurd (let q : false ≡ true = h in cc q)
is_below-Extends [] (t ∷ ts) h =
    (t, ts, refl, λ e. let q : not true ≡ true = rw ((eq_iff t "..").1 e) at h in cc q)
is_below-Extends (b ∷ bs) [] h = absurd (let q : false ≡ true = sym (leads_up b bs []) ∙ h in cc q)
is_below-Extends (b ∷ bs) (t ∷ ts) h = elim (Bool-cases (str_eq b t)) [
  | inl k ↦
      let (e, rest, same, fine) = is_below-Extends bs ts (rw k at h) in
      let head : b ≡ t = (eq_iff b t).0 k in (e, rest, cc (head, same), fine)
  | inr k ↦ absurd (let q : false ≡ true = sym (leads_up b bs (t ∷ ts)) ∙ (rw k at h) in cc q)
]

append_below :
    (bs : List String) (e : String) (rest : List String)
    → e ≢ ".."
    → is_below (rel_of (past_common bs (bs ++ e ∷ rest))) ≡ true
unfolding past_common
append_below [] e rest fine = elim (Bool-cases (str_eq e "..")) [
  | inl k ↦ absurd (fine ((eq_iff e "..").0 k))
  | inr k ↦ rw k refl
]
append_below (b ∷ bs) e rest fine = rw (eq_refl b) (append_below bs e rest fine)

same_kind : (x y : Bool) → ((x && y || not x && not y) ≡ true) ↔ (x ≡ y)
same_kind true true = (λ h. refl, λ h. refl)
same_kind true false = (λ h. sym h, λ h. sym h)
same_kind false true = (λ h. h, λ h. h)
same_kind false false = (λ h. refl, λ h. refl)

-- The guard lets a path through exactly if it is below the root: both are rooted or neither is, and the
-- path has the root's elements and then at least one more, the first of which does not lead up.
pub assert_inside_root_iff :
    (root path : CleanPath) → (assert_inside_root root path ≡ true) ↔ Inside root path
unfolding assert_inside_root rel
assert_inside_root_iff root path = (there, back)
  where
    there : assert_inside_root root path ≡ true → Inside root path
    there h = elim (Bool-cases (root.rooted && path.rooted || not root.rooted && not path.rooted)) [
      | inl k ↦ (
        (same_kind root.rooted path.rooted).0 k,
        is_below-Extends root.elements path.elements (rw k at h),
      )
      | inr k ↦ absurd (let q : false ≡ true = rw k at h in cc q)
    ]

    back : Inside root path → assert_inside_root root path ≡ true
    back (kind, (e, rest, same, fine)) =
        rw ((same_kind root.rooted path.rooted).1 kind, same)
          (append_below root.elements e rest fine)
