-- ===== src/Examples/Spot.antt =====
-- A Pod that has fallen back from Spot, and its reversion.
use workload_class.PodWebhook.Handler.{or_none_reversion}
use workload_class.Spot.Managed.{expected_fallback, reconcile_placement-fallback}
use workload_class.Spot.Reconcile.{policy_for, classified, reconcile_placement}
use workload_class.Spot.Attach.{PolicyFaults}
use workload_class.Spot.PolicyAllowed.{reverts_within, valid_policy-reverts}
use workload_class.Spot.Policy.{
  PolicyViolation, validate_spot_policy, validate_against_all,
  validate_against_placement_constraints, validate_constraint, validate_reversion_constraints,
  check_action, check_limit,
}
use workload_class.Spot.Capacity.{Cluster, StatusLib}
use workload_class.Prelude.{
  Str, Result, ok, err, ◌==◌, str_eq, ◌+◌, ◌*◌, ◌≡◌, ◌<◌, ◌⊎◌, refl, arith, contains, true, false,
  none, some, [], ◌∷◌, length, str_beq, lit, lookup, ok,
}
use workload_class.Prelude.Int.{pos}
use workload_class.Kube.Objects.{NamespacedName, Pod, Node, Condition, condition_true}
use workload_class.Kube.Client.{not_found, Client}
use workload_class.Api.{
  active, GuardrailParameters, Guardrail, SpotPlacementPolicy, WorkloadClass, spot,
  fallback_to_on_demand,
}
use workload_class.Api.ConditionType.{in_fallback}
use workload_class.Resolve.{
  workload_class_pod_selector, find_best_match_workload_class, namespace_enforced_workload_class,
  named_enforced,
}
use workload_class.SpotRatio.{
  targets_spot, spot_ratio_percent, parse_percentage, before_percent, atoi, unsigned_value,
  digits_value,
}
use workload_class.SpotPod.{
  is_pod_targeted_for_spot, spot_label_key, spot_label_value, is_spot_node, is_pod_active,
}
use workload_class.PodWebhook.Counts.{is_node_spot, keep_pods, belongs}
use workload_class.PodWebhook.Budgets.{is_in_fallback}
use workload_class.Spot.Fallback.{
  add_pod, sort_pods, insert_pod, attached_policy, classify_workload_pods, list_spot_node_names,
  WorkloadPods, tracks_fallback, pod_fallback_start_time, classify_pods,
}
use workload_class.Spot.Agreement.{IsKnown, Agrees, classify_pods-Agrees}
use workload_class.Spot.Latch.{observe, observe-latched}
use workload_class.Spot.Reversion.{
  strictest_duration, placement_duration, constraint_duration, Answered, evicted, Limits, share_met,
  revert_pods,
}
use workload_class.Spot.Evicted.{
  AllDue, IsReady, revert_pods-AllDue, revert_pods-bounded, revert_pods-progress,
}
use workload_class.Examples.Samples.{
  quarter, guardrail, spot_policy, selector_lib, client, pod, web_class, times,
}

abbrev n1 : Node
n1 = record { name = lit "n1"; labels = []; unschedulable = false; conditions = [] }

abbrev node_client : Client
node_client = record client { get_node = λ name. ok n1 }

abbrev unnamed : Pod
unnamed = record pod { name = [] }

on_demand_node : is_node_spot node_client (lit "n1") ≡ some false
unfolding is_node_spot is_spot_node lookup lit str_beq
on_demand_node = refl

known : IsKnown node_client [] pod
unfolding str_beq lit contains
known = on_demand_node

keeps_pod : keep_pods selector_lib node_client unnamed web_class true (pod ∷ []) ≡ ok (pod ∷ [])
unfolding keep_pods belongs find_best_match_workload_class namespace_enforced_workload_class
    named_enforced is_pod_active lookup lit str_beq
keeps_pod = refl

classify_pods-Agrees_example :
    (p : WorkloadPods) × (classify_pods selector_lib node_client web_class [] true (pod ∷ [])
      ≡ ok p)
    × Agrees node_client p (pod ∷ [])
classify_pods-Agrees_example =
    classify_pods-Agrees selector_lib node_client web_class [] unnamed refl true (pod ∷ [])
      (pod ∷ []) (known, tt) keeps_pod

abbrev fallen_back : Condition
fallen_back = record {
  status = condition_true;
  reason = [];
  message = [];
  observed_generation = pos 1;
}

abbrev spot_class : WorkloadClass
spot_class = record web_class {
  capacity_strategy =
      some
        (record { type = spot; spot_ratio = lit "50%"; fallback_action = fallback_to_on_demand });
  conditions = (in_fallback, fallen_back) ∷ [];
}

abbrev two_pods : WorkloadPods
two_pods = record { active = 2; spot = 2; pending_spot = 0; fallback = [] }

tracks : tracks_fallback spot_class ≡ true
unfolding tracks_fallback targets_spot lit spot_ratio_percent parse_percentage before_percent atoi
    unsigned_value digits_value
tracks = refl

falls : is_in_fallback spot_class ≡ true
unfolding is_in_fallback lookup lit str_beq
falls = refl

observe-latched_example : is_in_fallback (observe spot_class (two_pods ∷ two_pods ∷ [])) ≡ true
observe-latched_example =
    observe-latched spot_class (two_pods ∷ two_pods ∷ []) tracks falls
      (omega arith, (omega arith, tt))

abbrev controlled : Pod
controlled = record pod {
  controller = some (record { kind = lit "ReplicaSet"; name = lit "web"; uid = lit "r1" });
}

-- The ratio asks for half of two Pods.
abbrev limits : Limits
limits = record {
  is_active = true;
  max_duration = none;
  min_duration = pos 300;
  spot_ratio = 50;
  total = 2;
}

abbrev grant : Pod → Answered
grant p = evicted

revert_pods-AllDue_example :
    AllDue times spot_class grant limits 1000 0
      (revert_pods times spot_class grant limits 1000 (controlled ∷ []) 0 (pos 0)).evicted_pods
revert_pods-AllDue_example =
    revert_pods-AllDue times spot_class grant limits 1000 (controlled ∷ []) 0 (pos 0)

revert_pods-bounded_example :
    let gone =
      (revert_pods times spot_class grant limits 1000 (controlled ∷ []) 0 (pos 0)).evicted_pods in
    (gone ≡ []) ⊎ ((0 + length gone) * 100 < 2 * 50 + 100)
revert_pods-bounded_example =
    revert_pods-bounded times spot_class grant limits 1000 (controlled ∷ []) 0 (pos 0) refl

old_enough : IsReady times spot_class grant limits 1000 controlled
unfolding pod_fallback_start_time
old_enough = (refl, refl, refl)

revert_pods-progress_example :
    let gone =
      (revert_pods times spot_class grant limits 1000 (controlled ∷ []) 0 (pos 0)).evicted_pods in
    (length gone ≡ 1) ⊎ (share_met limits (0 + length gone) ≡ true)
revert_pods-progress_example =
    revert_pods-progress times spot_class grant limits 1000 (controlled ∷ []) 0 (pos 0) refl
      (old_enough, tt)

-- A guardrail that limits the time on fallback to 600, and a policy that reverts within it.
abbrev limited : GuardrailParameters
limited = record quarter {
  reversion =
      some (record { required_reversion_action = none; max_fallback_duration = some (pos 600) });
}

abbrev decode_limited : Str → Result Str GuardrailParameters
decode_limited raw = ok limited

abbrev limiting : Guardrail
limiting = record guardrail {
  placement =
      some (record { name = lit "gke-spot-placement"; parameters = some (lit "limited") } ∷ []);
}

abbrev active_policy : SpotPlacementPolicy
active_policy = record spot_policy {
  reversion_action = active;
  min_duration_on_fallback = some (pos 300);
}

abbrev policy_text : PolicyViolation → Str
policy_text v = lit "not allowed"

policy_valid : validate_spot_policy policy_text decode_limited active_policy (limiting ∷ []) ≡ []
unfolding validate_spot_policy validate_against_all validate_against_placement_constraints
    validate_constraint validate_reversion_constraints check_action check_limit lit str_beq
policy_valid = refl

limit_found : strictest_duration decode_limited none (limiting ∷ []) ≡ some (pos 600)
unfolding strictest_duration placement_duration constraint_duration lit str_beq
limit_found = refl

valid_policy-reverts_example :
    reverts_within active_policy (or_none_reversion active_policy.reversion_action) (pos 600) ≡ true
valid_policy-reverts_example =
    valid_policy-reverts policy_text decode_limited active_policy (limiting ∷ []) (pos 600)
      policy_valid limit_found

-- A Pod that asked for Spot, on an On-Demand node.
abbrev spot_pod : Pod
spot_pod = record pod { node_selector = (spot_label_key, spot_label_value) ∷ [] }

abbrev policy_client : Client
policy_client = record node_client {
  get_spot_policy = λ name. ok active_policy;
  list_guardrails = ok (limiting ∷ []);
  list_pods = λ ns. ok (spot_pod ∷ []);
  get_workload_class = λ ns name. ok spot_class;
}

abbrev no_policy_faults : PolicyFaults
no_policy_faults = record { list_classes = none; update_policy = none; update_class = λ wc. none }

-- A cluster without nodes, and texts that are read as they are.
abbrev empty_cluster : Cluster
empty_cluster = record { list_nodes = ok []; autoscaler_status = err not_found }

abbrev status_lib : StatusLib
status_lib = record {
  trim_space = λ s. s;
  to_lower = λ s. s;
  equal_fold = λ s t. s == t;
  unmarshal = λ s. none;
}

no_policy :
    policy_for selector_lib times status_lib decode_limited policy_client empty_cluster grant none 9
      spot_class
    ≡ ok none
unfolding policy_for attached_policy
no_policy = rw tracks refl

abbrev spot_key : NamespacedName
spot_key = record { namespace = lit "shop"; name = lit "web" }

abbrev fallen : WorkloadPods
fallen = record { active = 1; spot = 0; pending_spot = 0; fallback = spot_pod ∷ [] }

counts_fallen :
    classified selector_lib times status_lib decode_limited policy_client empty_cluster grant none 9
      spot_class
    ≡ ok fallen
unfolding classified list_spot_node_names classify_workload_pods workload_class_pod_selector
    classify_pods is_pod_active belongs find_best_match_workload_class
    namespace_enforced_workload_class add_pod sort_pods contains is_pod_targeted_for_spot insert_pod
    lookup str_beq lit
counts_fallen = rw tracks refl

reconcile_placement-fallback_example :
    (new : WorkloadClass) × ((reconcile_placement selector_lib times status_lib decode_limited
        policy_client empty_cluster grant none 9 spot_key).class
      ≡ some new)
    × (is_in_fallback new
        ≡ expected_fallback selector_lib times status_lib decode_limited policy_client empty_cluster
            grant 9 spot_class fallen none)
reconcile_placement-fallback_example =
    reconcile_placement-fallback selector_lib times status_lib decode_limited policy_client
      empty_cluster grant 9 spot_key spot_class none fallen refl no_policy counts_fallen
