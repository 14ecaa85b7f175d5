-- ===== src/Updater/Merge/Kept.antt =====
-- internal/updater/updater.go: what an override file holds after a merge.
use argo_watcher.Common.{
  String, true, false, List, [], ◌∷◌, Option, none, some, str_eq, eq_iff, is_some, if◌then◌else◌,
  ◌≡◌, refl, ap, ◌∙◌, inl, inr, arith, Bool-cases,
}
use argo_watcher.Argocd.Overrides.{ParameterOverride}
use argo_watcher.Updater.Merge.{merge_parameter, merge_parameters}

-- The first parameter of a name.
unfoldable pub find_parameter : String → List ParameterOverride → Option ParameterOverride
find_parameter name [] = none
find_parameter name (p ∷ rest) = if str_eq p.name name then some p else find_parameter name rest

-- The last parameter of a name, or else `x`.
unfoldable pub last_parameter :
    String → List ParameterOverride → Option ParameterOverride → Option ParameterOverride
last_parameter name [] x = x
last_parameter name (p ∷ rest) x =
    last_parameter name rest (if str_eq p.name name then some p else x)

pub find_parameter-merge_parameter :
    (name : String) (x : List ParameterOverride) (p : ParameterOverride)
    → find_parameter name (merge_parameter x p)
      ≡ (if str_eq p.name name then some p else find_parameter name x)
unfolding find_parameter merge_parameter
find_parameter-merge_parameter name [] p = refl
find_parameter-merge_parameter name (q ∷ rest) p = ground (
  arith,
  find_parameter-merge_parameter name rest p,
  eq_iff q.name p.name,
  eq_iff q.name name,
  eq_iff p.name name,
)

-- After a merge, a name that the new parameters have stands for the last of them of that name; every
-- other name stands for what it stood for before.
pub find_parameter-merge_parameters :
    (name : String) (existing new : List ParameterOverride)
    → find_parameter name (merge_parameters existing new)
      ≡ last_parameter name new (find_parameter name existing)
unfolding merge_parameters last_parameter
find_parameter-merge_parameters name existing [] = refl
find_parameter-merge_parameters name existing (p ∷ rest) =
    find_parameter-merge_parameters name (merge_parameter existing p) rest
    ∙ ap (last_parameter name rest) (find_parameter-merge_parameter name existing p)

-- A parameter that is found there is merged without effect.
pub merge_parameter-found :
    (x : List ParameterOverride) (p : ParameterOverride)
    → find_parameter p.name x ≡ some p
    → merge_parameter x p ≡ x
unfolding find_parameter merge_parameter
merge_parameter-found [] p h = cc h
merge_parameter-found (q ∷ rest) p h = elim (Bool-cases (str_eq q.name p.name)) [
  | inl b ↦ let e : some q ≡ some p = rw b at h in rw b (cc e)
  | inr b ↦ rw b (ap (λ l. q ∷ l) (merge_parameter-found rest p (rw b at h)))
]

pub merge_parameter-same :
    (x : List ParameterOverride) (p q : ParameterOverride)
    → str_eq p.name q.name ≡ true
    → merge_parameter (merge_parameter x p) q ≡ merge_parameter x q
unfolding merge_parameter
merge_parameter-same [] p q h = rw h refl
merge_parameter-same (r ∷ rest) p q h = ground (
  arith,
  h,
  merge_parameter-same rest p q h,
  eq_iff r.name p.name,
  eq_iff r.name q.name,
  eq_iff p.name q.name,
)

pub merge_parameter_comm :
    (x : List ParameterOverride) (p q : ParameterOverride)
    → str_eq p.name q.name ≡ false
    → is_some (find_parameter p.name x) ≡ true
    → merge_parameter (merge_parameter x p) q ≡ merge_parameter (merge_parameter x q) p
unfolding merge_parameter find_parameter
merge_parameter_comm [] p q h k = cc k
merge_parameter_comm (r ∷ rest) p q h k = ground (
  arith,
  h,
  k,
  merge_parameter_comm rest p q h,
  eq_iff r.name p.name,
  eq_iff r.name q.name,
  eq_iff p.name q.name,
)
