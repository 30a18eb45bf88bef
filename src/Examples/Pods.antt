-- ===== src/Examples/Pods.antt =====
-- Where the changed sample Pod may run.
use workload_class.Prelude.{
  ◌≡◌, refl, ◌&&◌, ◌||◌, true, false, none, some, [], ◌∷◌, any, str_eq, lit, lookup, insert, delete,
  str_beq,
}
use workload_class.Kube.Labels.{Labels}
use workload_class.Kube.Objects.{Pod}
use workload_class.Api.{fail, fallback_to_on_demand}
use workload_class.SpotPod.{spot_label_key, spot_label_value, is_pod_targeted_for_spot}
use workload_class.Placement.{
  on_demand_terms, require_node_selector_terms, mutate_for_on_demand, mutate_for_spot,
  machine_family_label_key, set_node_selector, ensure_spot_toleration,
}
use workload_class.Placement.Nodes.{
  term_matches, affinity_allows, selector_allows, schedulable, absent, present_in,
}
use workload_class.Placement.Terms.{empty_term, require-empty_term}
use workload_class.Placement.Targets.{mutate_for_on_demand-schedulable, for_spot_fallback-nodes}
use workload_class.Examples.Samples.{node_lib, pod, spot_policy}

-- An On-Demand node of the family n2.
abbrev node : Labels
node = (lit "cloud.google.com/machine-family", lit "n2") ∷ []

abbrev spot_node : Labels
spot_node = (spot_label_key, spot_label_value) ∷ []

abbrev picky : Pod
picky = record pod {
  node_affinity = some (record { required = some (empty_term ∷ []); preferred = [] });
}

require-empty_term_example :
    (affinity_allows node_lib node picky ≡ false)
    × (affinity_allows node_lib node (require_node_selector_terms picky on_demand_terms)
        ≡ any (term_matches node_lib node) on_demand_terms)
require-empty_term_example = require-empty_term node_lib node picky on_demand_terms refl

mutate_for_on_demand-schedulable_example :
    (schedulable node_lib node (mutate_for_on_demand pod) ≡ (
      selector_allows node_lib node (delete spot_label_key pod.node_selector)
      && (affinity_allows node_lib node pod && absent (lookup spot_label_key node))))
    × (is_pod_targeted_for_spot (some (mutate_for_on_demand pod)) ≡ false)
mutate_for_on_demand-schedulable_example = mutate_for_on_demand-schedulable node_lib node pod tt

runs_on_spot : schedulable node_lib spot_node (mutate_for_spot pod fail none) ≡ true
unfolding schedulable mutate_for_spot set_node_selector ensure_spot_toleration affinity_allows
    selector_allows insert lookup lit str_beq
runs_on_spot = refl

for_spot_fallback-nodes_example :
    affinity_allows node_lib node (mutate_for_spot pod fallback_to_on_demand (some spot_policy)) ≡ (
      affinity_allows node_lib node pod
      && (present_in (spot_label_value ∷ []) (lookup spot_label_key node)
          || (absent (lookup spot_label_key node)
              && present_in (lit "n2" ∷ []) (lookup machine_family_label_key node))))
for_spot_fallback-nodes_example =
    for_spot_fallback-nodes node_lib node pod fallback_to_on_demand spot_policy (lit "n2") [] refl
      refl tt
