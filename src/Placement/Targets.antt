-- ===== src/Placement/Targets.antt =====
-- Where the two changes send a Pod: On-Demand to nodes that are not Spot, and Spot to Spot nodes or,
-- as a fallback, to the allowed On-Demand nodes.
use workload_class.Prelude.{
  ◌≡◌, refl, ap, ap₂, ◌∙◌, sym, arith, Bool, true, false, not, ◌&&◌, ◌||◌, Option, some, List, [],
  ◌∷◌, any, any-append, filter, Str, str_eq, lookup, insert, delete, lookup-delete, ==_refl, subst,
}
use workload_class.Kube.Labels.{Labels}
use workload_class.Kube.Objects.{Pod, Toleration}
use workload_class.Api.{FallbackAction, fail, SpotPlacementPolicy}
use workload_class.SpotPod.{
  spot_label_key, spot_label_value, holds, is_spot_toleration, is_pod_targeted_for_spot,
}
use workload_class.Placement.{
  is_fail, spot_in, family_requirement, or_new_affinity, on_demand_terms, spot_does_not_exist,
  family_terms, families_of, compute_class_of, spot_toleration, machine_family_label_key,
  remove_spot_toleration, ensure_spot_toleration, set_node_selector, set_compute_class,
  require_families, require_node_selector_terms, add_preferred_scheduling_term, prefer_spot,
  mutate_for_on_demand, mutate_for_spot,
}
use workload_class.Placement.Nodes.{
  NodeLib, present_in, absent, term_matches, affinity_allows, selector_allows, schedulable,
}
use workload_class.Placement.Terms.{IsProper, require_node_selector_terms-allows}

any-filter-not :
    (f : Toleration → Bool) (ts : List Toleration) → any f (filter (λ t. not (f t)) ts) ≡ false
any-filter-not f [] = refl
any-filter-not f (t ∷ ts) = ground (arith, any-filter-not f ts)

-- mutateForOnDemand leaves nothing that targets Spot.
pub on_demand-targeted :
    (pod : Pod) → is_pod_targeted_for_spot (some (mutate_for_on_demand pod)) ≡ false
unfolding mutate_for_on_demand is_pod_targeted_for_spot remove_spot_toleration
    require_node_selector_terms
on_demand-targeted pod = ground (
  arith,
  any-filter-not is_spot_toleration pod.tolerations,
  lookup-delete spot_label_key spot_label_key pod.node_selector,
  ==_refl spot_label_key,
)

spot_toleration_is : is_spot_toleration spot_toleration ≡ true
unfolding is_spot_toleration
spot_toleration_is = ground (arith, ==_refl spot_label_key, ==_refl spot_label_value)

ensure-targets :
    (pod : Pod) → any is_spot_toleration (ensure_spot_toleration pod).tolerations ≡ true
unfolding ensure_spot_toleration
ensure-targets pod = ground (
  arith,
  spot_toleration_is,
  any-append is_spot_toleration pod.tolerations (spot_toleration ∷ []),
)

set_compute_class-tolerations :
    (pod : Pod) (c : Str) → (set_compute_class pod c).tolerations ≡ pod.tolerations
unfolding set_node_selector
set_compute_class-tolerations pod [] = refl
set_compute_class-tolerations pod (c ∷ cs) = ground arith

require_families-tolerations :
    (pod : Pod) (fs : List Str) → (require_families pod fs).tolerations ≡ pod.tolerations
unfolding require_node_selector_terms
require_families-tolerations pod [] = refl
require_families-tolerations pod (f ∷ fs) = refl

for_spot-tolerations :
    (pod : Pod) (action : FallbackAction) (policy : Option SpotPlacementPolicy)
    → (mutate_for_spot pod action policy).tolerations ≡ (ensure_spot_toleration pod).tolerations
unfolding mutate_for_spot add_preferred_scheduling_term set_node_selector
for_spot-tolerations pod action policy =
    let targeted = set_compute_class (ensure_spot_toleration pod) (compute_class_of policy) in
    ground (
      arith,
      set_compute_class-tolerations (ensure_spot_toleration pod) (compute_class_of policy),
      require_families-tolerations (add_preferred_scheduling_term targeted prefer_spot)
          (families_of policy),
    )

-- mutateForSpot always leaves a Pod that targets Spot.
pub for_spot-targeted :
    (pod : Pod) (action : FallbackAction) (policy : Option SpotPlacementPolicy)
    → is_pod_targeted_for_spot (some (mutate_for_spot pod action policy)) ≡ true
unfolding is_pod_targeted_for_spot
for_spot-targeted pod action policy = ground (
  arith,
  ap (any is_spot_toleration) (for_spot-tolerations pod action policy),
  ensure-targets pod,
)

module _ (lib : NodeLib) (node : Labels) where
  on_demand-terms_match :
      any (term_matches lib node) on_demand_terms ≡ absent (lookup spot_label_key node)
  unfolding term_matches
  on_demand-terms_match = ground (arith, lib.matches-does_not_exist node spot_does_not_exist refl)

  cleared-affinity :
      (pod : Pod)
      → affinity_allows lib node (
          remove_spot_toleration
            (record pod { node_selector = delete spot_label_key pod.node_selector }))
        ≡ affinity_allows lib node pod
  unfolding affinity_allows remove_spot_toleration
  cleared-affinity pod = refl

  on_demand-affinity :
      (pod : Pod)
      → IsProper (or_new_affinity pod.node_affinity).required
      → affinity_allows lib node (mutate_for_on_demand pod)
        ≡ (affinity_allows lib node pod && absent (lookup spot_label_key node))
  unfolding mutate_for_on_demand remove_spot_toleration
  on_demand-affinity pod h =
      require_node_selector_terms-allows lib node _ on_demand_terms h (refl, tt)
      ∙ ap₂ ◌&&◌ (cleared-affinity pod) on_demand-terms_match

  -- A Pod that mutateForOnDemand changed may run on exactly those nodes without the Spot label that the
  -- Pod's affinity, of which no term is empty, and its node selector, but for an entry of the Spot label,
  -- allow; and it is not targeted for Spot.
  pub mutate_for_on_demand-schedulable :
      (pod : Pod)
      → IsProper (or_new_affinity pod.node_affinity).required
      → (schedulable lib node (mutate_for_on_demand pod) ≡ (
          selector_allows lib node (delete spot_label_key pod.node_selector)
          && (affinity_allows lib node pod && absent (lookup spot_label_key node))))
        × (is_pod_targeted_for_spot (some (mutate_for_on_demand pod)) ≡ false)
  unfolding schedulable
  mutate_for_on_demand-schedulable pod h =
      (ap₂ ◌&&◌ (on_demand-selector pod) (on_demand-affinity pod h), on_demand-targeted pod)
    where
      on_demand-selector :
          (p : Pod)
          → selector_allows lib node (mutate_for_on_demand p).node_selector
            ≡ selector_allows lib node (delete spot_label_key p.node_selector)
      on_demand-selector p =
          unfold mutate_for_on_demand remove_spot_toleration require_node_selector_terms in refl

  selector_allows-insert :
      (k v : Str) (m : Labels)
      → selector_allows lib node (insert k v m) ≡ true
      → holds (lookup k node) v ≡ true
  unfolding selector_allows insert
  selector_allows-insert k v [] h = ground arith
  selector_allows-insert k v ((j, w) ∷ m) h = ground (arith, selector_allows-insert k v m)

  family-terms_match :
      (fs : List Str)
      → any (term_matches lib node) (family_terms fs) ≡ (
          present_in (spot_label_value ∷ []) (lookup spot_label_key node)
          || (absent (lookup spot_label_key node)
              && present_in fs (lookup machine_family_label_key node)))
  unfolding term_matches
  family-terms_match fs = ground (
    arith,
    lib.matches-does_not_exist node spot_does_not_exist refl,
    lib.matches-in node spot_in refl,
    lib.matches-in node (family_requirement fs) refl,
  )

  -- When the fallback action is Fail, a Pod that mutateForSpot changed may be scheduled only on a node
  -- whose Spot label is set to Spot's value.
  pub for_spot_fail-only_spot :
      (pod : Pod) (policy : Option SpotPlacementPolicy)
      → schedulable lib node (mutate_for_spot pod fail policy) ≡ true
      → holds (lookup spot_label_key node) spot_label_value ≡ true
  unfolding schedulable mutate_for_spot set_node_selector
  for_spot_fail-only_spot pod policy h =
      let targeted = set_compute_class (ensure_spot_toleration pod) (compute_class_of policy) in
      selector_allows-insert spot_label_key spot_label_value targeted.node_selector (ground arith)

  prepared : Pod → Option SpotPlacementPolicy → Pod
  prepared pod policy =
      add_preferred_scheduling_term
        (set_compute_class (ensure_spot_toleration pod) (compute_class_of policy)) prefer_spot

  ensure-affinity : (pod : Pod) → (ensure_spot_toleration pod).node_affinity ≡ pod.node_affinity
  unfolding ensure_spot_toleration
  ensure-affinity pod = ground arith

  set_compute_class-affinity :
      (pod : Pod) (c : Str) → (set_compute_class pod c).node_affinity ≡ pod.node_affinity
  unfolding set_node_selector
  set_compute_class-affinity pod [] = refl
  set_compute_class-affinity pod (c ∷ cs) = ground arith

  prepared-required :
      (pod : Pod) (policy : Option SpotPlacementPolicy)
      → (or_new_affinity (prepared pod policy).node_affinity).required
        ≡ (or_new_affinity pod.node_affinity).required
  unfolding prepared add_preferred_scheduling_term
  prepared-required pod policy =
      ap (λ a. (or_new_affinity a).required)
        (set_compute_class-affinity (ensure_spot_toleration pod) (compute_class_of policy)
          ∙ ensure-affinity pod)

  prepared-allows :
      (pod : Pod) (policy : Option SpotPlacementPolicy)
      → affinity_allows lib node (prepared pod policy) ≡ affinity_allows lib node pod
  unfolding affinity_allows
  prepared-allows pod policy = rw (prepared-required pod policy)

  fallback-is :
      (pod : Pod) (action : FallbackAction) (policy : SpotPlacementPolicy) (f : Str) (fs : List Str)
      → is_fail action ≡ false
      → policy.fallback_allowed_machine_families ≡ f ∷ fs
      → mutate_for_spot pod action (some policy)
        ≡ require_node_selector_terms (prepared pod (some policy)) (family_terms (f ∷ fs))
  unfolding mutate_for_spot prepared
  fallback-is pod action policy f fs not_fail families = rw (not_fail, families)

  -- When the action is not Fail and the policy names machine families, the node affinity of a Pod that
  -- mutateForSpot changed allows exactly those nodes that the Pod's own affinity, of which no term is
  -- empty, allows and that are Spot, or have no Spot label and are of one of the families.
  pub for_spot_fallback-nodes :
      (pod : Pod) (action : FallbackAction) (policy : SpotPlacementPolicy) (f : Str) (fs : List Str)
      → is_fail action ≡ false
      → policy.fallback_allowed_machine_families ≡ f ∷ fs
      → IsProper (or_new_affinity pod.node_affinity).required
      → affinity_allows lib node (mutate_for_spot pod action (some policy)) ≡ (
          affinity_allows lib node pod
          && (present_in (spot_label_value ∷ []) (lookup spot_label_key node)
              || (absent (lookup spot_label_key node)
                  && present_in (f ∷ fs) (lookup machine_family_label_key node))))
  for_spot_fallback-nodes pod action policy f fs not_fail families h =
      ap (affinity_allows lib node) (fallback-is pod action policy f fs not_fail families)
      ∙ require_node_selector_terms-allows lib node (prepared pod (some policy))
          (family_terms (f ∷ fs)) (subst IsProper (sym (prepared-required pod (some policy))) h)
          (refl, (refl, tt))
      ∙ ap₂ ◌&&◌ (prepared-allows pod (some policy)) (family-terms_match (f ∷ fs))
