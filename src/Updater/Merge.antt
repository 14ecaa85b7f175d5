-- ===== src/Updater/Merge.antt =====
-- internal/updater/updater.go: how new parameters are merged into those of an override file.
pub mod Kept
pub mod Again
use argo_watcher.Common.{String, List, [], ◌∷◌, Option, none, some, str_eq, if◌then◌else◌}
use argo_watcher.Argocd.Overrides.{ParameterOverride}

-- The inner loop of `mergeParameters`, and the append after it.
unfoldable pub merge_parameter : List ParameterOverride → ParameterOverride → List ParameterOverride
merge_parameter [] new = new ∷ []
merge_parameter (p ∷ rest) new =
    let later = p ∷ merge_parameter rest new in if str_eq p.name new.name then new ∷ rest else later

-- `mergeParameters`.
unfoldable pub merge_parameters :
    List ParameterOverride → List ParameterOverride → List ParameterOverride
merge_parameters existing [] = existing
merge_parameters existing (new ∷ rest) = merge_parameters (merge_parameter existing new) rest
