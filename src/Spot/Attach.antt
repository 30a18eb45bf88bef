-- ===== src/Spot/Attach.antt =====
-- internal/controller/gkespotplacementpolicy_controller.go: Reconcile, with the WorkloadClasses of all
-- namespaces as its state. A conflict is retried and changes nothing.
use workload_class.Prelude.{
  Bool, true, false, not, ◌&&◌, Option, none, some, List, [], ◌∷◌, ◌++◌, ◌==◌, str_eq, Str, lit,
  if◌then◌else◌, Result, ok, err,
}
use workload_class.Kube.Objects.{Condition, ConditionStatus, condition_true, condition_false}
use workload_class.Kube.Client.{Client, GetError, not_found, get_failed}
use workload_class.Api.{
  WorkloadClass, Guardrail, GuardrailParameters, InfrastructureProfileReference,
  SpotPlacementPolicy,
}
use workload_class.Api.ConditionType
use workload_class.Api.Reason
use workload_class.SpotRatio.{references_spot_placement_policy}
use workload_class.Resolve.{is_true}
use workload_class.Controller.Status.{set_status_condition}
use workload_class.Spot.Policy.{PolicyViolation, policy_condition}

pub record StatusOptions : Type 0 where
  pub status : ConditionStatus
  pub reason : Str
  pub message : Str

abbrev pub quoted : Str → Str → Str
quoted name what = lit "GKESpotPlacementPolicy '" ++ (name ++ (lit "' " ++ what))

abbrev pub not_found_options : Str → StatusOptions
not_found_options name = record {
  status = condition_false;
  reason = Reason.plugin_resolution_failed;
  message = quoted name (lit "not found");
}

unfoldable pub options_for : Str → Condition → StatusOptions
options_for name c =
    if is_true c.status
    then record {
      status = condition_true;
      reason = Reason.profile_resolved;
      message = quoted name (lit "attached");
    }
    else record {
      status = condition_false;
      reason = Reason.plugin_resolution_failed;
      message = quoted name (lit "is invalid: " ++ c.message);
    }

abbrev pub attachment : StatusOptions → WorkloadClass → Condition
attachment options wc = record {
  status = options.status;
  reason = options.reason;
  message = options.message;
  observed_generation = wc.generation;
}

-- The Update, which only a change needs.
abbrev pub written_if {ℓ} : {A : Type ℓ} → Bool → Option Str → A → A → List Str × A
written_if false fault old new = ([], old)
written_if true none old new = ([], new)
written_if true (some e) old new = (e ∷ [], old)

-- updateWorkloadClassStatus
unfoldable pub update_workload_class_status :
    Option Str → StatusOptions → WorkloadClass → List Str × WorkloadClass
update_workload_class_status fault options wc =
    let set =
      set_status_condition ConditionType.placement_plugin_attached (attachment options wc)
        wc.conditions in
    written_if set.1 fault wc (record wc { conditions = set.0 })

unfoldable pub references_policy : Str → Option InfrastructureProfileReference → Bool
references_policy name none = false
references_policy name (some ref) =
    references_spot_placement_policy (some ref) && (ref.name == name)

-- The loop of updateReferencingWorkloadClasses, for which Updates fail.
unfoldable pub update_referencing :
    (WorkloadClass → Option Str)
    → Str
    → StatusOptions
    → List WorkloadClass
    → List Str × List WorkloadClass
update_referencing faults name options [] = ([], [])
update_referencing faults name options (wc ∷ wcs) =
    let one =
      (if not (references_policy name wc.infrastructure_profile_ref)
        then ([], wc)
        else update_workload_class_status (faults wc) options wc) in
    let rest = update_referencing faults name options wcs in (one.0 ++ rest.0, one.1 ∷ rest.1)

-- How Reconcile ends; the policy is the one whose status was written.
pub record PolicyReconciled : Type 0 where
  pub errors : List Str
  pub policy : Option SpotPlacementPolicy
  pub classes : List WorkloadClass

-- The calls that fail, with their texts.
pub record PolicyFaults : Type 0 where
  pub list_classes : Option Str
  pub update_policy : Option Str
  pub update_class : WorkloadClass → Option Str

module _ (text : PolicyViolation → Str) (decode : Str → Result Str GuardrailParameters)
    (client : Client) (faults : PolicyFaults) where
  -- updateReferencingWorkloadClasses
  unfoldable pub update_referencing_workload_classes :
      Option Str
      → Str
      → StatusOptions
      → Option SpotPlacementPolicy
      → List WorkloadClass
      → PolicyReconciled
  update_referencing_workload_classes (some e) name options policy wcs = record {
    errors = e ∷ [];
    policy = policy;
    classes = wcs;
  }
  update_referencing_workload_classes none name options policy wcs =
      let updated = update_referencing faults.update_class name options wcs in
      record { errors = updated.0; policy = policy; classes = updated.1 }

  abbrev pub policy_written :
      Str
      → Condition
      → Option SpotPlacementPolicy
      → List Str
      → List WorkloadClass
      → PolicyReconciled
  policy_written name c policy (e ∷ es) wcs = record {
    errors = e ∷ es;
    policy = none;
    classes = wcs;
  }
  policy_written name c policy [] wcs =
      update_referencing_workload_classes faults.list_classes name (options_for name c) policy wcs

  unfoldable pub reconcile_found :
      SpotPlacementPolicy → Result Str (List Guardrail) → List WorkloadClass → PolicyReconciled
  reconcile_found policy (err e) wcs = record { errors = e ∷ []; policy = none; classes = wcs }
  reconcile_found policy (ok gs) wcs =
      let c = policy_condition text decode policy gs in
      let set = set_status_condition ConditionType.validated c policy.conditions in
      let wrote =
        written_if set.1 faults.update_policy none (some (record policy { conditions = set.0 })) in
      policy_written policy.name c wrote.1 wrote.0 wcs

  abbrev pub reconcile_read :
      Str → Result GetError SpotPlacementPolicy → List WorkloadClass → PolicyReconciled
  reconcile_read name (err not_found) wcs =
      update_referencing_workload_classes faults.list_classes name (not_found_options name) none wcs
  reconcile_read name (err (get_failed e)) wcs = record {
    errors = e ∷ [];
    policy = none;
    classes = wcs;
  }
  reconcile_read name (ok policy) wcs = reconcile_found policy client.list_guardrails wcs

  -- Reconcile
  unfoldable pub reconcile_policy : Str → List WorkloadClass → PolicyReconciled
  reconcile_policy name wcs = reconcile_read name (client.get_spot_policy name) wcs
