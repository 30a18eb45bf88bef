-- ===== src/Spot/Managed.antt =====
-- The InFallback condition that Reconcile leaves, and when it evicts Pods.
use workload_class.Prelude.{
  ℕ, ◌≡◌, refl, sym, ◌∙◌, arith, Bool, false, not, ◌&&◌, Option, none, some, Str, str_eq, lookup,
  if◌then◌else◌, Result, ok, Bool-cases, inl, inr,
}
use workload_class.Kube.Labels.{SelectorLib}
use workload_class.Kube.Objects.{Pod, Condition, NamespacedName}
use workload_class.Kube.Client.{Client}
use workload_class.Api.{WorkloadClass, GuardrailParameters, SpotPlacementPolicy}
use workload_class.Api.ConditionType
use workload_class.SpotRatio.{is_gke_spot_managed}
use workload_class.Temporal.{TimeLib}
use workload_class.PodWebhook.Budgets.{is_in_fallback, condition_is_true}
use workload_class.Controller.Status.{same_condition, is_there}
use workload_class.Spot.Attached.{same-true}
use workload_class.Spot.Capacity.{StatusLib, Cluster}
use workload_class.Spot.Fallback.{
  WorkloadPods, reversion_action_for, Desired, absent, keep, set, desired_fallback_condition,
  set_fallback_condition,
}
use workload_class.Spot.Latch.{
  falls_back, in_fallback-after, set-in_fallback, absent-in_fallback, keep-in_fallback,
}
use workload_class.Spot.Reversion.{Answered}
use workload_class.Spot.Reconcile.{
  is_ready_for_spot, is_placement_plugin_pending, persist_fallback, SpotReconciled,
  clear_fallback_state, classified, policy_for, revert_after, reconcile_class, reconcile_placement,
}

there-false : (o : Option Condition) → is_there o ≡ false → condition_is_true o ≡ false
there-false none h = refl
there-false (some c) h = ground arith

-- The write leaves the condition that was asked for.
persist-in_fallback :
    (wc : WorkloadClass) (d : Desired)
    → (new : WorkloadClass) × (persist_fallback none wc d ≡ ok new)
      × (is_in_fallback new ≡ is_in_fallback (set_fallback_condition wc d))
unfolding persist_fallback
persist-in_fallback wc keep = (wc, refl, sym (keep-in_fallback wc))
persist-in_fallback wc absent =
    elim (Bool-cases (is_there (lookup ConditionType.in_fallback wc.conditions))) [
      | inl e ↦ (set_fallback_condition wc absent, rw e refl, refl)
      | inr e ↦ (wc, rw e refl, was_false (there-false _ e) ∙ sym (absent-in_fallback wc))
    ]
  where
    was_false :
        condition_is_true (lookup ConditionType.in_fallback wc.conditions) ≡ false
        → is_in_fallback wc ≡ false
    was_false h = unfold is_in_fallback in h
persist-in_fallback wc (set c) =
    elim (Bool-cases (same_condition c (lookup ConditionType.in_fallback wc.conditions))) [
      | inl e ↦ (wc, rw e refl, was_same (same-true c _ e) ∙ sym (set-in_fallback wc c))
      | inr e ↦ (set_fallback_condition wc (set c), rw e refl, refl)
    ]
  where
    was_same :
        condition_is_true (lookup ConditionType.in_fallback wc.conditions)
          ≡ condition_is_true (some c)
        → is_in_fallback wc ≡ condition_is_true (some c)
    was_same h = unfold is_in_fallback in h

module _ (lib : SelectorLib) (times : TimeLib) (status : StatusLib)
    (decode : Str → Result Str GuardrailParameters) (client : Client) (cluster : Cluster)
    (answer : Pod → Answered) (now : ℕ) where
  abbrev Reports : SpotReconciled → Bool → Type 0
  Reports r b = (new : WorkloadClass) × (r.class ≡ some new) × (is_in_fallback new ≡ b)

  clear-Reports : (wc : WorkloadClass) → Reports (clear_fallback_state none wc) false
  unfolding clear_fallback_state
  clear-Reports wc =
      let (new, e, h) = persist-in_fallback wc absent in (new, rw e refl, h ∙ absent-in_fallback wc)

  ready-Reports :
      (wc : WorkloadClass) (policy : Option SpotPlacementPolicy) (pods : WorkloadPods)
      → Reports
          (revert_after lib times status decode client cluster answer none now wc policy pods (
            persist_fallback none wc
              (desired_fallback_condition wc pods (reversion_action_for policy))))
          (falls_back wc pods (reversion_action_for policy))
  ready-Reports wc policy pods =
      let (new, e, h) =
        persist-in_fallback wc (desired_fallback_condition wc pods (reversion_action_for policy)) in
      (new, rw e refl, h ∙ in_fallback-after wc pods (reversion_action_for policy))

  -- The condition that is reported: none out of the plugin's scope, the former one while the plugin is
  -- pending, and else whether the workload falls back.
  abbrev pub expected_fallback : WorkloadClass → WorkloadPods → Option SpotPlacementPolicy → Bool
  expected_fallback wc pods policy =
      if not (is_gke_spot_managed (some wc))
      then false
      else if not (is_ready_for_spot wc)
      then is_placement_plugin_pending wc && is_in_fallback wc
      else falls_back wc pods (reversion_action_for policy)

  -- If a WorkloadClass, its policy and its Pods can be read and its status be written, then Reconcile leaves
  -- it in fallback exactly as expected: never out of the plugin's scope or while it is not ready, but as it
  -- was while the plugin is pending, and else if a Pod has fallen back or the fallback is latched.
  pub reconcile_placement-fallback :
      (key : NamespacedName) (wc : WorkloadClass) (policy : Option SpotPlacementPolicy)
      (pods : WorkloadPods)
      → client.get_workload_class key.namespace key.name ≡ ok wc
      → policy_for lib times status decode client cluster answer none now wc ≡ ok policy
      → classified lib times status decode client cluster answer none now wc ≡ ok pods
      → (new : WorkloadClass) × ((reconcile_placement lib times status decode client cluster answer
            none now key).class
          ≡ some new)
        × (is_in_fallback new ≡ expected_fallback wc pods policy)
  unfolding reconcile_placement reconcile_class
  reconcile_placement-fallback key wc policy pods reads p c =
      elim (Bool-cases (is_gke_spot_managed (some wc))) [
        | inr m ↦ rw (reads, m) (clear-Reports wc)
        | inl m ↦ elim (Bool-cases (is_ready_for_spot wc)) [
          | inl r ↦ rw (reads, m, r, p, c) (ready-Reports wc policy pods)
          | inr r ↦ elim (Bool-cases (is_placement_plugin_pending wc)) [
            | inl q ↦ rw (reads, m, r, q) (wc, refl, refl)
            | inr q ↦ rw (reads, m, r, q) (clear-Reports wc)
          ]
        ]
      ]
