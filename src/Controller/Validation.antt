-- ===== src/Controller/Validation.antt =====
-- internal/controller/workloadclass_controller.go: the Validated and PlacementPluginAttached conditions. The
-- text of a violation is an argument; joining and truncating the texts is modelled.
use workload_class.Prelude.{
  Bool, true, false, not, ◌&&◌, ◌||◌, Option, none, some, List, [], ◌∷◌, ◌++◌, map, ◌==◌, str_eq,
  Str, lit, lookup, if◌then◌else◌, Result, ok, err,
}
use workload_class.Prelude.Int.{ℤ, eqb_ℤ}
use workload_class.Kube.Labels.{LabelSelector, SelectorLib}
use workload_class.Kube.Objects.{Condition, ConditionStatus, condition_true, condition_false}
use workload_class.Kube.Client.{Client}
use workload_class.Api.{
  WorkloadClass, DisruptionWindow, Guardrail, GuardrailParameters, InfrastructureProfileReference,
}
use workload_class.Api.ConditionType
use workload_class.Api.Reason
use workload_class.Selector.{SelectorError, selectors_overlap}
use workload_class.BestMatch.{is_none}
use workload_class.Resolve.{ResolveError, is_true, namespace_enforced_workload_class}
use workload_class.Guardrail.{Violation, is_nil, invalid_weekdays, validate_against_guardrails}
use workload_class.Temporal.{TimeLib, time_zone_valid}
use workload_class.Controller.Messages.{
  Listed, list_overlapping, join, truncate_message, max_condition_message_len,
}
use workload_class.Controller.Capacity.{CapacityViolation, validate_capacity_strategy}

-- What the Validated condition reports.
pub data ClassViolation : Type 0 where
  invalid_selector : ClassViolation
  unknown_weekdays : Str → List Str → ClassViolation
  unknown_time_zone : Str → Str → ClassViolation
  against_guardrails : Violation → ClassViolation
  against_capacity : CapacityViolation → ClassViolation
  overlaps : Listed → ClassViolation

abbrev pub selector_violations : SelectorLib → Option LabelSelector → List ClassViolation
selector_violations lib none = []
selector_violations lib (some s) = if lib.valid s then [] else invalid_selector ∷ []

abbrev pub weekday_violations : Str → List Str → List ClassViolation
weekday_violations name [] = []
weekday_violations name (d ∷ ds) = unknown_weekdays name (d ∷ ds) ∷ []

abbrev pub zone_violations : TimeLib → Str → Str → List ClassViolation
zone_violations times name [] = []
zone_violations times name (c ∷ cs) =
    if time_zone_valid times (c ∷ cs) then [] else unknown_time_zone name (c ∷ cs) ∷ []

-- The loop of validateSpec.
unfoldable pub window_spec_violations : TimeLib → List DisruptionWindow → List ClassViolation
window_spec_violations times [] = []
window_spec_violations times (w ∷ ws) =
    weekday_violations w.name (invalid_weekdays w.days_of_week)
    ++ (zone_violations times w.name w.time_zone ++ window_spec_violations times ws)

-- validateSpec
unfoldable pub validate_spec : SelectorLib → TimeLib → WorkloadClass → List ClassViolation
validate_spec lib times wc =
    selector_violations lib wc.pod_selector
    ++ window_spec_violations times wc.disruption_policy.allowed_disruption_windows

-- selectorOverlapMessage, for the names of the overlapping WorkloadClasses; [] is "".
unfoldable pub selector_overlap_message : List Str → List ClassViolation
selector_overlap_message [] = []
selector_overlap_message (n ∷ ns) = overlaps (list_overlapping (n ∷ ns)) ∷ []

abbrev pub validation_passed_msg : Str
validation_passed_msg = lit "WorkloadClass adheres to all Guardrail constraints"

abbrev pub no_guardrails_msg : Str
no_guardrails_msg = lit "No Guardrails found to validate against"

abbrev pub placement_unattached_msg : Str
placement_unattached_msg =
    lit "WorkloadClass references an infrastructure profile, but the plugin has not attached"

module _ (text : ClassViolation → Str) where
  abbrev pub message_of : List ClassViolation → Str
  message_of violations =
      truncate_message (join (map text violations) (lit "; ")) max_condition_message_len

  -- The switch of validatedCondition, on the violations, the overlap message and whether there are guardrails.
  unfoldable pub condition_for : ℤ → List ClassViolation → List ClassViolation → Bool → Condition
  condition_for generation (v ∷ vs) overlap guarded = record {
    status = condition_false;
    reason = Reason.validation_failed;
    message = message_of (v ∷ vs ++ overlap);
    observed_generation = generation;
  }
  condition_for generation [] (o ∷ os) guarded = record {
    status = condition_false;
    reason = Reason.selector_overlap;
    message = message_of (o ∷ os);
    observed_generation = generation;
  }
  condition_for generation [] [] true = record {
    status = condition_true;
    reason = Reason.validation_passed;
    message = validation_passed_msg;
    observed_generation = generation;
  }
  condition_for generation [] [] false = record {
    status = condition_true;
    reason = Reason.no_guardrails;
    message = no_guardrails_msg;
    observed_generation = generation;
  }

  -- The violations that validatedCondition collects before the overlap.
  unfoldable pub class_violations :
      SelectorLib
      → TimeLib
      → (Str → Result Str GuardrailParameters)
      → WorkloadClass
      → List Guardrail
      → List ClassViolation
  class_violations lib times decode wc gs =
      validate_spec lib times wc
      ++ (map against_guardrails (validate_against_guardrails wc gs)
          ++ map against_capacity (validate_capacity_strategy decode wc gs))

  -- validatedCondition, for the names of the overlapping WorkloadClasses.
  unfoldable pub validated_condition :
      SelectorLib
      → TimeLib
      → (Str → Result Str GuardrailParameters)
      → WorkloadClass
      → List Guardrail
      → List Str
      → Condition
  validated_condition lib times decode wc gs overlapping =
      condition_for wc.generation (class_violations lib times decode wc gs)
        (selector_overlap_message overlapping) (not (is_nil gs))

-- condition, for the texts of the violations.
unfoldable pub condition : ℤ → List Str → Condition
condition generation [] = record {
  status = condition_true;
  reason = Reason.validation_passed;
  message = validation_passed_msg;
  observed_generation = generation;
}
condition generation (v ∷ vs) = record {
  status = condition_false;
  reason = Reason.validation_failed;
  message = truncate_message (join (v ∷ vs) (lit "; ")) max_condition_message_len;
  observed_generation = generation;
}

-- The text of addPlacementViolation.
abbrev pub violation_message : Str → Str
violation_message [] = placement_unattached_msg
violation_message (c ∷ cs) = placement_unattached_msg ++ (lit ": " ++ (c ∷ cs))

abbrev pub is_false_status : ConditionStatus → Bool
is_false_status condition_false = true
is_false_status _ = false

-- addPlacementViolation
unfoldable pub add_placement_violation : Condition → Condition → Condition
add_placement_violation validation placement = record validation {
  status = condition_false;
  reason = Reason.validation_failed;
  message =
      truncate_message
        (if is_false_status validation.status
          then validation.message ++ (lit "; " ++ violation_message placement.message)
          else violation_message placement.message)
        max_condition_message_len;
}

-- reconcileConditions
unfoldable pub reconcile_conditions : Condition → Option Condition → Condition
reconcile_conditions validation none = validation
reconcile_conditions validation (some p) =
    if is_true p.status then validation else add_placement_violation validation p

-- The condition for a plugin that has not attached for the current generation.
abbrev pub pending_condition : WorkloadClass → Str → Condition
pending_condition wc kind = record {
  status = condition_false;
  reason = Reason.plugin_pending;
  message = lit "Waiting for plugin controller to reconcile " ++ kind;
  observed_generation = wc.generation;
}

abbrev pub current_or_pending : WorkloadClass → Str → Option Condition → Condition
current_or_pending wc kind none = pending_condition wc kind
current_or_pending wc kind (some c) =
    if eqb_ℤ c.observed_generation wc.generation then c else pending_condition wc kind

abbrev pub plugin_condition_for :
    WorkloadClass → Option InfrastructureProfileReference → Option Condition
plugin_condition_for wc none = none
plugin_condition_for wc (some ref) =
    some (
      current_or_pending wc ref.kind (lookup ConditionType.placement_plugin_attached wc.conditions))

-- placementPluginCondition
unfoldable pub placement_plugin_condition : WorkloadClass → Option Condition
placement_plugin_condition wc = plugin_condition_for wc wc.infrastructure_profile_ref

-- protectsPods
unfoldable pub protects_pods : Str → Bool → Bool
protects_pods reason has_guardrails =
    (reason == Reason.validation_passed) || ((reason == Reason.selector_overlap) && has_guardrails)

abbrev pub protects_by : Option Condition → Bool → Bool
protects_by none has_guardrails = false
protects_by (some c) has_guardrails = protects_pods c.reason has_guardrails

-- passedValidation
unfoldable pub passed_validation : WorkloadClass → Bool → Bool
passed_validation wc has_guardrails =
    protects_by (lookup ConditionType.validated wc.conditions) has_guardrails

module _ (lib : SelectorLib) where
  abbrev pub overlap_or_skip : Result SelectorError Bool → Bool
  overlap_or_skip (err e) = false
  overlap_or_skip (ok b) = b

  -- The test of the loop of overlappingWorkloadClasses.
  unfoldable pub overlaps_with : WorkloadClass → WorkloadClass → Bool
  overlaps_with wc other =
      if (other.name == wc.name) || not (is_none other.deletion_timestamp)
      then false
      else overlap_or_skip (selectors_overlap lib wc.pod_selector other.pod_selector)

  -- The names of the matches, in the order of the list: selectorOverlapMessage sorts them again.
  unfoldable pub overlapping_names : WorkloadClass → List WorkloadClass → List Str
  overlapping_names wc [] = []
  overlapping_names wc (o ∷ os) =
      let rest = overlapping_names wc os in if overlaps_with wc o then o.name ∷ rest else rest

  abbrev pub names_listed :
      WorkloadClass → Result Str (List WorkloadClass) → Result ResolveError (List Str)
  names_listed wc (err e) = err (ResolveError.list_classes_failed e)
  names_listed wc (ok wcs) = ok (overlapping_names wc wcs)

  abbrev pub unless_enforced :
      Client → WorkloadClass → Option WorkloadClass → Result ResolveError (List Str)
  unless_enforced client wc (some enforced) = ok []
  unless_enforced client wc none = names_listed wc (client.list_workload_classes wc.namespace)

  abbrev pub then_overlapping :
      Client
      → WorkloadClass
      → Result ResolveError (Option WorkloadClass)
      → Result ResolveError (List Str)
  then_overlapping client wc (err e) = err e
  then_overlapping client wc (ok enforced) = unless_enforced client wc enforced

  -- overlappingWorkloadClasses
  unfoldable pub overlapping_workload_classes :
      Client → WorkloadClass → Result ResolveError (List Str)
  overlapping_workload_classes client wc =
      then_overlapping client wc (namespace_enforced_workload_class client wc.namespace)
