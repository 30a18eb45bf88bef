-- ===== src/Spot/Fallback.antt =====
-- internal/controller/spot_fallback.go: the Pods of a WorkloadClass by where they run, and the InFallback
-- condition.
use workload_class.Prelude.{
  ℕ, suc, ◌+◌, Bool, true, false, not, ◌&&◌, ◌||◌, Option, none, some, List, [], ◌∷◌, length, map,
  filter, contains, ltb, nat_beq, ◌==◌, str_eq, Str, lit, lookup, insert, delete, if◌then◌else◌,
  Result, ok, err, ◌>>=◌,
}
use workload_class.Kube.Labels.{SelectorLib}
use workload_class.Kube.Objects.{
  Pod, Node, ObjectCondition, Condition, condition_true, condition_false,
}
use workload_class.Kube.Client.{Client, GetError, not_found, get_failed}
use workload_class.Api.{
  WorkloadClass, CapacityStrategy, InfrastructureProfileReference, ReversionAction,
  SpotPlacementPolicy,
}
use workload_class.Api.ConditionType
use workload_class.Api.Reason
use workload_class.Resolve.{is_true, workload_class_pod_selector}
use workload_class.LeaseTracker.{str_lt}
use workload_class.SpotPod.{is_spot_node, is_pod_targeted_for_spot, is_pod_active}
use workload_class.SpotRatio.{targets_spot, references_spot_placement_policy}
use workload_class.PodWebhook.Counts.{CountError, resolved, listed, belongs, is_selected}
use workload_class.PodWebhook.Budgets.{condition_is_true, is_in_fallback}
use workload_class.PodWebhook.Handler.{is_fallback, is_none_reversion, reversion_of}
use workload_class.Spot.Capacity.{Cluster}

abbrev pub strategy_falls_back : Option CapacityStrategy → Bool
strategy_falls_back none = false
strategy_falls_back (some cs) = is_fallback cs.fallback_action

-- tracksFallback
unfoldable pub tracks_fallback : WorkloadClass → Bool
tracks_fallback wc = targets_spot (some wc) && strategy_falls_back wc.capacity_strategy

-- workloadPods
pub record WorkloadPods : Type 0 where
  pub active : ℕ
  pub spot : ℕ
  pub pending_spot : ℕ
  pub fallback : List Pod

abbrev pub no_pods : WorkloadPods
no_pods = record { active = 0; spot = 0; pending_spot = 0; fallback = [] }

-- effectiveSpot
abbrev pub effective_spot : WorkloadPods → ℕ
effective_spot p = p.spot + p.pending_spot

abbrev pub or_scheduled : Pod → List ObjectCondition → ℕ
or_scheduled pod [] = pod.creation_timestamp
or_scheduled pod (c ∷ cs) =
    let rest = or_scheduled pod cs in
    if (c.type == lit "PodScheduled") && is_true c.status
    then elim c.last_transition [ none ↦ rest | some t ↦ t ]
    else rest

-- podFallbackStartTime
unfoldable pub pod_fallback_start_time : Pod → ℕ
pod_fallback_start_time pod = elim pod.start_time [
  | none ↦ or_scheduled pod pod.conditions
  | some t ↦ t
]

-- The comparison of the sort: oldest first, ties by name.
unfoldable pub falls_back_before : Pod → Pod → Bool
falls_back_before a b =
    ltb (pod_fallback_start_time a) (pod_fallback_start_time b)
    || (nat_beq (pod_fallback_start_time a) (pod_fallback_start_time b) && str_lt a.name b.name)

-- slices.SortFunc: the names of Pods are different, so any correct sort returns this list.
unfoldable pub insert_pod : Pod → List Pod → List Pod
insert_pod p [] = p ∷ []
insert_pod p (q ∷ qs) = if falls_back_before q p then q ∷ insert_pod p qs else p ∷ q ∷ qs

unfoldable pub sort_pods : List Pod → List Pod
sort_pods [] = []
sort_pods (p ∷ ps) = insert_pod p (sort_pods ps)

-- The switch of the loop: on an empty node name, on whether the node is Spot, and on the Pod's target.
abbrev pub place_pod : Bool → Bool → Bool → Pod → WorkloadPods → WorkloadPods
place_pod true on_spot true pod p = record p { pending_spot = suc p.pending_spot }
place_pod true on_spot false pod p = p
place_pod false true targeted pod p = record p { spot = suc p.spot }
place_pod false false true pod p = record p { fallback = pod ∷ p.fallback }
place_pod false false false pod p = p

-- One Pod behind the checks, added to those that come after it in the list.
unfoldable pub add_pod : List Str → Pod → WorkloadPods → WorkloadPods
add_pod spot_nodes pod p =
    place_pod (pod.node_name == []) (contains spot_nodes pod.node_name)
      (is_pod_targeted_for_spot (some pod)) pod (record p { active = suc p.active })

abbrev pub add_if : Bool → List Str → Pod → WorkloadPods → WorkloadPods
add_if b spot_nodes pod p = if b then add_pod spot_nodes pod p else p

abbrev pub sorted : WorkloadPods → WorkloadPods
sorted p = record p { fallback = sort_pods p.fallback }

-- reversionActionFor
abbrev pub reversion_action_for : Option SpotPlacementPolicy → ReversionAction
reversion_action_for policy = reversion_of policy

abbrev pub names_of : Result Str (List Node) → Result CountError (List Str)
names_of nodes =
    listed nodes >>= λ ns. ok (map (λ n. n.name) (filter (λ n. is_spot_node (some n)) ns))

-- listSpotNodeNames
unfoldable pub list_spot_node_names : Cluster → Result CountError (List Str)
list_spot_node_names cluster = names_of cluster.list_nodes

module _ (lib : SelectorLib) (client : Client) (wc : WorkloadClass) where
  -- The loop of classifyWorkloadPods.
  unfoldable pub classify_pods : List Str → Bool → List Pod → Result CountError WorkloadPods
  classify_pods spot_nodes check [] = ok no_pods
  classify_pods spot_nodes check (pod ∷ pods) =
      let rest = classify_pods spot_nodes check pods in
      if not (is_pod_active (some pod))
      then rest
      else belongs lib client wc check pod >>= λ b. rest >>= λ p. ok (add_if b spot_nodes pod p)

  -- classifyWorkloadPods
  unfoldable pub classify_workload_pods : List Str → Result CountError WorkloadPods
  classify_workload_pods spot_nodes =
      resolved (workload_class_pod_selector lib client wc) >>= λ selector.
      listed (client.list_pods wc.namespace) >>= λ pods.
      listed (client.list_workload_classes wc.namespace) >>= λ wcs.
      classify_pods spot_nodes (ltb 1 (length wcs)) (filter (is_selected lib selector) pods)
      >>= λ p. ok (sorted p)

abbrev pub fallback_active_msg : Str
fallback_active_msg = lit "One or more Spot-targeted Pods are running on On-Demand fallback nodes"

abbrev pub spot_target_met_msg : Str
spot_target_met_msg = lit "No Spot-targeted Pods are running on On-Demand fallback nodes"

abbrev pub scaled_to_zero_msg : Str
scaled_to_zero_msg = lit "The workload has no active Pods"

-- What is to become of the condition.
pub data Desired : Type 0 where
  absent keep : Desired
  set : Condition → Desired

abbrev pub in_fallback_condition : WorkloadClass → Condition
in_fallback_condition wc = record {
  status = condition_true;
  reason = Reason.fallback_active;
  message = fallback_active_msg;
  observed_generation = wc.generation;
}

abbrev pub target_met_condition : WorkloadClass → Str → Condition
target_met_condition wc text = record {
  status = condition_false;
  reason = Reason.spot_target_met;
  message = text;
  observed_generation = wc.generation;
}

abbrev pub is_empty_list {ℓ} : {A : Type ℓ} → List A → Bool
is_empty_list [] = true
is_empty_list (x ∷ xs) = false

-- desiredFallbackCondition
unfoldable pub desired_fallback_condition : WorkloadClass → WorkloadPods → ReversionAction → Desired
desired_fallback_condition wc pods reversion =
    if not (tracks_fallback wc)
    then absent
    else if not (is_empty_list pods.fallback)
    then set (in_fallback_condition wc)
    else if is_in_fallback wc && (is_none_reversion reversion && ltb 0 pods.active)
    then keep
    else if nat_beq pods.active 0
    then set (target_met_condition wc scaled_to_zero_msg)
    else set (target_met_condition wc spot_target_met_msg)

-- setFallbackCondition on the latest WorkloadClass; a conflict is retried and changes nothing.
unfoldable pub set_fallback_condition : WorkloadClass → Desired → WorkloadClass
set_fallback_condition wc absent = record wc {
  conditions = delete ConditionType.in_fallback wc.conditions;
}
set_fallback_condition wc keep = wc
set_fallback_condition wc (set c) = record wc {
  conditions = insert ConditionType.in_fallback c wc.conditions;
}

abbrev pub policy_if_found :
    Result GetError SpotPlacementPolicy → Result GetError (Option SpotPlacementPolicy)
policy_if_found (ok policy) = ok (some policy)
policy_if_found (err not_found) = ok none
policy_if_found (err (get_failed e)) = err (get_failed e)

abbrev pub policy_at :
    Client
    → Bool
    → Option InfrastructureProfileReference
    → Result GetError (Option SpotPlacementPolicy)
policy_at client attached none = ok none
policy_at client attached (some ref) =
    if not (references_spot_placement_policy (some ref)) || not attached
    then ok none
    else policy_if_found (client.get_spot_policy ref.name)

-- attachedPolicy
unfoldable pub attached_policy :
    Client → WorkloadClass → Result GetError (Option SpotPlacementPolicy)
attached_policy client wc =
    policy_at client
      (condition_is_true (lookup ConditionType.placement_plugin_attached wc.conditions))
      wc.infrastructure_profile_ref
