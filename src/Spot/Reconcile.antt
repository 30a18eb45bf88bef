-- ===== src/Spot/Reconcile.antt =====
-- internal/controller/gkespotplacement_controller.go: Reconcile, and the steps of spot_fallback.go that it calls. The
-- status is written on the latest WorkloadClass, which is the one that was read.
use workload_class.Prelude.{
  ℕ, Bool, true, false, not, ◌&&◌, ◌||◌, Option, none, some, List, [], ◌==◌, str_eq, Str, lookup,
  if◌then◌else◌, Result, ok, err, ◌>>=◌,
}
use workload_class.Prelude.Int.{ℤ, pos}
use workload_class.Kube.Labels.{SelectorLib}
use workload_class.Kube.Objects.{Pod, Condition, NamespacedName}
use workload_class.Kube.Client.{Client, GetError, not_found, get_failed}
use workload_class.Api.{WorkloadClass, GuardrailParameters, SpotPlacementPolicy}
use workload_class.Api.ConditionType
use workload_class.Api.Reason
use workload_class.Resolve.{is_validated}
use workload_class.SpotRatio.{references_spot_placement_policy, is_gke_spot_managed}
use workload_class.Temporal.{TimeLib}
use workload_class.PodWebhook.Counts.{CountError}
use workload_class.PodWebhook.Budgets.{condition_is_true}
use workload_class.Controller.Validation.{is_false_status}
use workload_class.Controller.Status.{same_condition, is_there}
use workload_class.Spot.Capacity.{StatusLib, Cluster}
use workload_class.Spot.Fallback.{
  WorkloadPods, no_pods, tracks_fallback, list_spot_node_names, classify_workload_pods,
  reversion_action_for, Desired, absent, keep, set, desired_fallback_condition,
  set_fallback_condition, attached_policy,
}
use workload_class.Spot.Reversion.{
  Answered, ReversionError, Choice, Reverted, reconcile_spot_reversion,
}

-- isReady
unfoldable pub is_ready_for_spot : WorkloadClass → Bool
is_ready_for_spot wc =
    is_validated (lookup ConditionType.validated wc.conditions)
    && (not (references_spot_placement_policy wc.infrastructure_profile_ref)
        || condition_is_true (lookup ConditionType.placement_plugin_attached wc.conditions))

abbrev pub is_pending : Option Condition → Bool
is_pending none = false
is_pending (some c) = is_false_status c.status && (c.reason == Reason.plugin_pending)

-- isPlacementPluginPending
unfoldable pub is_placement_plugin_pending : WorkloadClass → Bool
is_placement_plugin_pending wc =
    is_pending (lookup ConditionType.placement_plugin_attached wc.conditions)

-- The Update, which only a change needs.
abbrev pub updated_if : Bool → Option Str → WorkloadClass → WorkloadClass → Result Str WorkloadClass
updated_if false fault old new = ok old
updated_if true none old new = ok new
updated_if true (some e) old new = err e

-- setFallbackCondition, where an Update may fail.
unfoldable pub persist_fallback : Option Str → WorkloadClass → Desired → Result Str WorkloadClass
persist_fallback fault wc keep = ok wc
persist_fallback fault wc absent =
    updated_if (is_there (lookup ConditionType.in_fallback wc.conditions)) fault wc
      (set_fallback_condition wc absent)
persist_fallback fault wc (set c) =
    updated_if (not (same_condition c (lookup ConditionType.in_fallback wc.conditions))) fault wc
      (set_fallback_condition wc (set c))

pub data SpotError : Type 0 where
  class_unread : Str → SpotError
  policy_unread : GetError → SpotError
  pods_uncounted : CountError → SpotError
  status_unwritten : Str → SpotError
  not_reverted : ReversionError → SpotError

-- How Reconcile ends: its result, the WorkloadClass with its status, and the Pods that it evicted.
pub record SpotReconciled : Type 0 where
  pub result : Result SpotError ℤ
  pub class : Option WorkloadClass
  pub evicted_pods : List (Pod × Choice)

abbrev pub failed_on : WorkloadClass → SpotError → SpotReconciled
failed_on wc e = record { result = err e; class = some wc; evicted_pods = [] }

abbrev pub done_with : WorkloadClass → SpotReconciled
done_with wc = record { result = ok (pos 0); class = some wc; evicted_pods = [] }

abbrev pub cleared : WorkloadClass → Result Str WorkloadClass → SpotReconciled
cleared wc (err e) = failed_on wc (status_unwritten e)
cleared wc (ok new) = done_with new

-- clearFallbackState
unfoldable pub clear_fallback_state : Option Str → WorkloadClass → SpotReconciled
clear_fallback_state fault wc = cleared wc (persist_fallback fault wc absent)

abbrev pub reversion_result : Result ReversionError ℤ → Result SpotError ℤ
reversion_result (ok d) = ok d
reversion_result (err e) = err (not_reverted e)

abbrev pub with_reversion : WorkloadClass → Reverted → SpotReconciled
with_reversion wc r = record {
  result = reversion_result r.result;
  class = some wc;
  evicted_pods = r.evicted_pods;
}

module _ (lib : SelectorLib) (times : TimeLib) (status : StatusLib)
    (decode : Str → Result Str GuardrailParameters) (client : Client) (cluster : Cluster)
    (answer : Pod → Answered) (fault : Option Str) (now : ℕ) where
  -- The Pods that reconcileFallbackState reads.
  unfoldable pub classified : WorkloadClass → Result CountError WorkloadPods
  classified wc =
      if tracks_fallback wc
      then (list_spot_node_names cluster >>= λ nodes. classify_workload_pods lib client wc nodes)
      else ok no_pods

  -- The policy that Reconcile reads.
  unfoldable pub policy_for : WorkloadClass → Result GetError (Option SpotPlacementPolicy)
  policy_for wc = if tracks_fallback wc then attached_policy client wc else ok none

  abbrev pub revert_after :
      WorkloadClass
      → Option SpotPlacementPolicy
      → WorkloadPods
      → Result Str WorkloadClass
      → SpotReconciled
  revert_after wc policy pods (err e) = failed_on wc (status_unwritten e)
  revert_after wc policy pods (ok new) =
      with_reversion new
        (reconcile_spot_reversion times status decode client cluster answer now new policy pods)

  abbrev pub with_pods :
      WorkloadClass → Option SpotPlacementPolicy → Result CountError WorkloadPods → SpotReconciled
  with_pods wc policy (err e) = failed_on wc (pods_uncounted e)
  with_pods wc policy (ok pods) =
      revert_after wc policy pods (
        persist_fallback fault wc
          (desired_fallback_condition wc pods (reversion_action_for policy)))

  abbrev pub with_policy :
      WorkloadClass → Result GetError (Option SpotPlacementPolicy) → SpotReconciled
  with_policy wc (err e) = failed_on wc (policy_unread e)
  with_policy wc (ok policy) = with_pods wc policy (classified wc)

  unfoldable pub reconcile_class : WorkloadClass → SpotReconciled
  reconcile_class wc =
      if not (is_gke_spot_managed (some wc))
      then clear_fallback_state fault wc
      else if not (is_ready_for_spot wc)
      then (if is_placement_plugin_pending wc then done_with wc else clear_fallback_state fault wc)
      else with_policy wc (policy_for wc)

  abbrev pub reconcile_got : Result GetError WorkloadClass → SpotReconciled
  reconcile_got (err not_found) = record { result = ok (pos 0); class = none; evicted_pods = [] }
  reconcile_got (err (get_failed e)) = record {
    result = err (class_unread e);
    class = none;
    evicted_pods = [];
  }
  reconcile_got (ok wc) = reconcile_class wc

  -- Reconcile
  unfoldable pub reconcile_placement : NamespacedName → SpotReconciled
  reconcile_placement key = reconcile_got (client.get_workload_class key.namespace key.name)
