-- ===== src/Updater/Merge/Again.antt =====
-- internal/updater/updater.go: a merge that is repeated.
use argo_watcher.Common.{
  String, Bool, true, false, List, [], ◌∷◌, some, str_eq, eq_iff, eq_refl, is_some, any, Has, ◌≡◌,
  refl, ap, ◌∙◌, inl, inr, arith, Bool-cases,
}
use argo_watcher.Argocd.Overrides.{ParameterOverride}
use argo_watcher.Updater.Merge.{merge_parameter, merge_parameters}
use argo_watcher.Updater.Merge.Kept.{
  find_parameter, find_parameter-merge_parameter, merge_parameter-found, merge_parameter-same,
  merge_parameter_comm,
}

abbrev pub has_name : String → List ParameterOverride → Bool
has_name name ps = any (λ p. str_eq p.name name) ps

-- No two parameters have one name.
abbrev pub DistinctNames : List ParameterOverride → Type 0
DistinctNames [] = Unit {0}
DistinctNames (p ∷ rest) = (has_name p.name rest ≡ false) × DistinctNames rest

found_after :
    (name : String) (x : List ParameterOverride) (p : ParameterOverride)
    → is_some (find_parameter name x) ≡ true
    → is_some (find_parameter name (merge_parameter x p)) ≡ true
found_after name x p h = rw (find_parameter-merge_parameter name x p) (ground (arith, h))

found_after_all :
    (name : String) (x ps : List ParameterOverride)
    → is_some (find_parameter name x) ≡ true
    → is_some (find_parameter name (merge_parameters x ps)) ≡ true
unfolding merge_parameters
found_after_all name x [] h = h
found_after_all name x (p ∷ rest) h =
    found_after_all name (merge_parameter x p) rest (found_after name x p h)

-- A name that is not merged again stands for what it stood for.
untouched :
    (name : String) (x ps : List ParameterOverride)
    → has_name name ps ≡ false
    → find_parameter name (merge_parameters x ps) ≡ find_parameter name x
unfolding merge_parameters
untouched name x [] h = refl
untouched name x (p ∷ rest) h =
    untouched name (merge_parameter x p) rest (ground (arith, h))
    ∙ find_parameter-merge_parameter name x p
    ∙ ground (arith, h)

-- A parameter whose name is merged again later leaves no trace.
overwritten :
    (v : List ParameterOverride) (p : ParameterOverride) (ps : List ParameterOverride)
    → is_some (find_parameter p.name v) ≡ true
    → has_name p.name ps ≡ true
    → merge_parameters (merge_parameter v p) ps ≡ merge_parameters v ps
unfolding merge_parameters
overwritten v p [] k h = cc h
overwritten v p (q ∷ rest) k h = elim (Bool-cases (str_eq p.name q.name)) [
  | inl b ↦ ap (λ l. merge_parameters l rest) (merge_parameter-same v p q b)
  | inr b ↦
      ap (λ l. merge_parameters l rest) (merge_parameter_comm v p q b k)
      ∙ overwritten (merge_parameter v q) p rest (found_after p.name v q k)
          (ground (arith, h, b, eq_iff p.name q.name, eq_iff q.name p.name))
]

found_at_once :
    (x : List ParameterOverride) (p : ParameterOverride)
    → find_parameter p.name (merge_parameter x p) ≡ some p
found_at_once x p = find_parameter-merge_parameter p.name x p ∙ rw (eq_refl p.name) refl

-- A merge that is repeated changes nothing.
pub merge_parameters_idem :
    (existing new : List ParameterOverride)
    → merge_parameters (merge_parameters existing new) new ≡ merge_parameters existing new
unfolding merge_parameters
merge_parameters_idem existing [] = refl
merge_parameters_idem existing (p ∷ rest) =
    let w = merge_parameter existing p in
    let v = merge_parameters w rest in
    let once = found_at_once existing p in
    let there : is_some (find_parameter p.name w) ≡ true = ap is_some once in
    (elim (Bool-cases (has_name p.name rest)) [
      | inl b ↦ overwritten v p rest (found_after_all p.name w rest there) b
      | inr b ↦
          ap (λ l. merge_parameters l rest)
            (merge_parameter-found v p (untouched p.name w rest b ∙ once))
    ])
    ∙ merge_parameters_idem w rest

all_found :
    (x ps : List ParameterOverride)
    → ((p : ParameterOverride) → Has p ps → find_parameter p.name x ≡ some p)
    → merge_parameters x ps ≡ x
unfolding merge_parameters
all_found x [] h = refl
all_found x (p ∷ rest) h =
    ap (λ l. merge_parameters l rest) (merge_parameter-found x p (h p (inl refl)))
    ∙ all_found x rest (λ q k. h q (inr k))

named_differently :
    (p q : ParameterOverride) (rest : List ParameterOverride)
    → has_name q.name rest ≡ false
    → Has p rest
    → str_eq q.name p.name ≡ false
named_differently p q [] h k = absurd k
named_differently p q (r ∷ rest) h (inl e) =
    let same : r.name ≡ p.name = ap (λ x. x.name) e in
    ground (arith, h, same, eq_iff r.name q.name, eq_iff q.name p.name)
named_differently p q (r ∷ rest) h (inr k) = named_differently p q rest (ground (arith, h)) k

distinct_found :
    (ps : List ParameterOverride) (p : ParameterOverride)
    → DistinctNames ps
    → Has p ps
    → find_parameter p.name ps ≡ some p
unfolding find_parameter
distinct_found [] p d k = absurd k
distinct_found (q ∷ rest) p (fresh, d) (inl e) =
    rw ((eq_iff q.name p.name).1 (ap (λ x. x.name) e)) (ap (λ x. some x) e)
distinct_found (q ∷ rest) p (fresh, d) (inr k) =
    rw (named_differently p q rest fresh k) (distinct_found rest p d k)

-- Parameters of distinct names are not changed by a merge into themselves.
pub merge_parameters_self :
    (ps : List ParameterOverride) → DistinctNames ps → merge_parameters ps ps ≡ ps
merge_parameters_self ps d = all_found ps ps (λ p k. distinct_found ps p d k)
