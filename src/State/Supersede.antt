-- ===== src/State/Supersede.antt =====
-- internal/state/state.go: when a new deployment supersedes one in flight.
use argo_watcher.Common.{Bool, not, ◌||◌, List, map, any, contains}
use argo_watcher.Models.Task.{Image}

-- `maySupersede`.
unfoldable pub may_supersede : Bool → Bool → Bool
may_supersede new_task_validated in_flight_validated = new_task_validated || not in_flight_validated

-- `imageNamesOverlap`; the map of names is read for membership alone.
unfoldable pub image_names_overlap : List Image → List Image → Bool
unfolding contains
image_names_overlap a b = let names = map (λ i. i.image) a in any (λ i. contains names i.image) b
