-- ===== src/Placement.antt =====
-- internal/webhook/v1/pod_placement.go: how the webhook changes a Pod so that it runs on Spot or on
-- On-Demand nodes.
pub mod Nodes
pub mod Terms
pub mod Targets
use workload_class.Prelude.{
  ℕ, Bool, true, false, not, ◌&&◌, ◌||◌, Option, none, some, List, [], ◌∷◌, ◌++◌, map, any, filter,
  ◌==◌, str_eq, Str, lit, lookup, insert, delete, if◌then◌else◌,
}
use workload_class.Kube.Objects.{
  Pod, Toleration, toleration_equal, no_schedule, NodeRequirement, node_in, node_does_not_exist,
  NodeTerm, PreferredTerm, NodeAffinity,
}
use workload_class.Api.{
  FallbackAction, unset_action, fail, fallback_to_on_demand, other_action, SpotPlacementPolicy,
}
use workload_class.SpotPod.{spot_label_key, spot_label_value, is_spot_toleration, is_unset}

abbrev pub machine_family_label_key : Str
machine_family_label_key = lit "cloud.google.com/machine-family"

abbrev pub compute_class_label_key : Str
compute_class_label_key = lit "cloud.google.com/compute-class"

-- spotIn
abbrev pub spot_in : NodeRequirement
spot_in = record { key = spot_label_key; operator = node_in; values = spot_label_value ∷ [] }

-- spotDoesNotExist
abbrev pub spot_does_not_exist : NodeRequirement
spot_does_not_exist = record { key = spot_label_key; operator = node_does_not_exist; values = [] }

abbrev pub expressions : List NodeRequirement → NodeTerm
expressions rs = record { match_expressions = rs; match_fields = [] }

-- setNodeSelector
unfoldable pub set_node_selector : Pod → Str → Str → Pod
set_node_selector pod key value = record pod { node_selector = insert key value pod.node_selector }

abbrev pub spot_toleration : Toleration
spot_toleration = record {
  key = spot_label_key;
  operator = toleration_equal;
  value = spot_label_value;
  effect = no_schedule;
}

-- ensureSpotToleration
unfoldable pub ensure_spot_toleration : Pod → Pod
ensure_spot_toleration pod =
    if any is_spot_toleration pod.tolerations
    then pod
    else record pod { tolerations = pod.tolerations ++ spot_toleration ∷ [] }

-- removeSpotToleration
unfoldable pub remove_spot_toleration : Pod → Pod
remove_spot_toleration pod = record pod {
  tolerations = filter (λ t. not (is_spot_toleration t)) pod.tolerations;
}

-- ensureNodeAffinity
abbrev pub or_new_affinity : Option NodeAffinity → NodeAffinity
or_new_affinity none = record { required = none; preferred = [] }
or_new_affinity (some na) = na

-- The body of the inner loop of requireNodeSelectorTerms; concatRequirements is `++`, since nil and the
-- empty slice are the same to its readers.
abbrev pub merge : NodeTerm → NodeTerm → NodeTerm
merge e t = record {
  match_expressions = e.match_expressions ++ t.match_expressions;
  match_fields = e.match_fields ++ t.match_fields;
}

unfoldable pub cross : List NodeTerm → List NodeTerm → List NodeTerm
cross [] terms = []
cross (e ∷ es) terms = map (merge e) terms ++ cross es terms

-- The early return for a selector that is nil or has no terms.
abbrev pub combine_terms : Option (List NodeTerm) → List NodeTerm → List NodeTerm
combine_terms none terms = terms
combine_terms (some []) terms = terms
combine_terms (some (e ∷ es)) terms = cross (e ∷ es) terms

-- requireNodeSelectorTerms
unfoldable pub require_node_selector_terms : Pod → List NodeTerm → Pod
require_node_selector_terms pod terms =
    let na = or_new_affinity pod.node_affinity in
    record pod {
      node_affinity = some (record na { required = some (combine_terms na.required terms) });
    }

-- addPreferredSchedulingTerm
unfoldable pub add_preferred_scheduling_term : Pod → PreferredTerm → Pod
add_preferred_scheduling_term pod term =
    let na = or_new_affinity pod.node_affinity in
    record pod { node_affinity = some (record na { preferred = na.preferred ++ term ∷ [] }) }

abbrev pub on_demand_terms : List NodeTerm
on_demand_terms = expressions (spot_does_not_exist ∷ []) ∷ []

-- mutateForOnDemand
unfoldable pub mutate_for_on_demand : Pod → Pod
mutate_for_on_demand pod =
    require_node_selector_terms
      (remove_spot_toleration
        (record pod { node_selector = delete spot_label_key pod.node_selector }))
      on_demand_terms

abbrev pub family_requirement : List Str → NodeRequirement
family_requirement families = record {
  key = machine_family_label_key;
  operator = node_in;
  values = families;
}

abbrev pub family_terms : List Str → List NodeTerm
family_terms families =
    expressions (spot_in ∷ [])
    ∷ expressions (spot_does_not_exist ∷ family_requirement families ∷ [])
    ∷ []

abbrev pub set_compute_class : Pod → Str → Pod
set_compute_class pod [] = pod
set_compute_class pod (c ∷ cs) =
    if is_unset (lookup compute_class_label_key pod.node_selector)
    then set_node_selector pod compute_class_label_key (c ∷ cs)
    else pod

abbrev pub require_families : Pod → List Str → Pod
require_families pod [] = pod
require_families pod (f ∷ fs) = require_node_selector_terms pod (family_terms (f ∷ fs))

abbrev pub compute_class_of : Option SpotPlacementPolicy → Str
compute_class_of none = []
compute_class_of (some policy) = policy.custom_compute_class

abbrev pub families_of : Option SpotPlacementPolicy → List Str
families_of none = []
families_of (some policy) = policy.fallback_allowed_machine_families

abbrev pub is_fail : FallbackAction → Bool
is_fail fail = true
is_fail _ = false

abbrev pub prefer_spot : PreferredTerm
prefer_spot = record { weight = 100; preference = expressions (spot_in ∷ []) }

-- mutateForSpot
unfoldable pub mutate_for_spot : Pod → FallbackAction → Option SpotPlacementPolicy → Pod
mutate_for_spot pod action policy =
    let targeted = set_compute_class (ensure_spot_toleration pod) (compute_class_of policy) in
    if is_fail action
    then set_node_selector targeted spot_label_key spot_label_value
    else require_families (add_preferred_scheduling_term targeted prefer_spot) (families_of policy)
