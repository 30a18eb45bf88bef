-- ===== src/Admission.antt =====
-- internal/webhook/v1/workloadclassguardrail_webhook.go and
-- internal/controller/workloadclassguardrail_controller.go: which guardrails are admitted, and what their status
-- reports, with ValidatePluginConstraints of internal/utils/gkespotguardrail_validation.go, which both call.
pub mod Admitted
pub mod Readable
pub mod Permitted
use workload_class.Prelude.{
  Bool, true, false, not, Option, none, some, List, [], ◌∷◌, ◌++◌, map, ◌==◌, str_eq, Str, lookup,
  if◌then◌else◌, Result, ok, err, ◌>>=◌,
}
use workload_class.Kube.Objects.{Condition, NamespacedName}
use workload_class.Kube.Client.{GetError, not_found, get_failed}
use workload_class.Api.{WorkloadClass, Guardrail, GuardrailParameters, PluginConstraint}
use workload_class.Api.ConditionType
use workload_class.LeaseTracker.{key_of}
use workload_class.Guardrail.{Violation, invalid_weekdays, guardrail_violations}
use workload_class.Parameters.{ParameterViolation, validate_parameters}
use workload_class.PodWebhook.Budgets.{spot_plugin_name, raw_of}
use workload_class.Controller.Validation.{condition}
use workload_class.Controller.Status.{set_status_condition}

-- strings.TrimSpace, and json.Unmarshal into a map: false is a null.
pub record JsonLib : Type 0 where
  pub trim_space : Str → Str
  pub is_object : Str → Result Str Bool

-- What is wrong with a guardrail.
pub data SpecViolation : Type 0 where
  unknown_days : List Str → SpecViolation
  empty_name : SpecViolation
  stray_whitespace : Str → SpecViolation
  not_an_object : Str → Str → SpecViolation
  null_object : Str → SpecViolation
  undecodable : Str → SpecViolation
  in_parameters : ParameterViolation → SpecViolation

abbrev pub day_violations : List Str → List SpecViolation
day_violations [] = []
day_violations (d ∷ ds) = unknown_days (d ∷ ds) ∷ []

-- validateGKESpotGuardrailParameters
abbrev pub decoded_violations : Result Str GuardrailParameters → List SpecViolation
decoded_violations (err e) = undecodable e ∷ []
decoded_violations (ok p) = map in_parameters (validate_parameters p)

module _ (json : JsonLib) (decode : Str → Result Str GuardrailParameters) where
  abbrev pub object_violations : Str → Str → Result Str Bool → List SpecViolation
  object_violations name raw (err e) = not_an_object name e ∷ []
  object_violations name raw (ok false) = null_object name ∷ []
  object_violations name raw (ok true) =
      if name == spot_plugin_name then decoded_violations (decode raw) else []

  -- validatePlacementPluginConstraint
  unfoldable pub validate_placement_plugin_constraint : PluginConstraint → List SpecViolation
  validate_placement_plugin_constraint c =
      if json.trim_space c.name == []
      then empty_name ∷ []
      else if not (json.trim_space c.name == c.name)
      then stray_whitespace c.name ∷ []
      else if raw_of c.parameters == []
      then []
      else object_violations c.name (raw_of c.parameters) (json.is_object (raw_of c.parameters))

  unfoldable pub validate_placement : List PluginConstraint → List SpecViolation
  validate_placement [] = []
  validate_placement (c ∷ cs) = validate_placement_plugin_constraint c ++ validate_placement cs

  -- ValidatePluginConstraints
  unfoldable pub validate_plugin_constraints : Option (List PluginConstraint) → List SpecViolation
  validate_plugin_constraints none = []
  validate_plugin_constraints (some placement) = validate_placement placement

  -- validate of the controller, for the texts of the violations.
  unfoldable pub guardrail_condition : (SpecViolation → Str) → Guardrail → Condition
  guardrail_condition text g = condition g.generation (
      map text (
        day_violations (invalid_weekdays g.disruption.days_of_week)
        ++ validate_plugin_constraints g.placement))

  abbrev pub status_written :
      Option Str → Guardrail → Bool → Guardrail → Result Str (Unit {0}) × Option Guardrail
  status_written fault g false new = (ok tt, some g)
  status_written none g true new = (ok tt, some new)
  status_written (some e) g true new = (err e, some g)

  -- Reconcile of the controller: its result and the guardrail with its status.
  unfoldable pub reconcile_guardrail :
      (SpecViolation → Str)
      → Option Str
      → Result GetError Guardrail
      → Result Str (Unit {0}) × Option Guardrail
  reconcile_guardrail text fault (err not_found) = (ok tt, none)
  reconcile_guardrail text fault (err (get_failed e)) = (err e, none)
  reconcile_guardrail text fault (ok g) =
      let set =
        set_status_condition ConditionType.validated (guardrail_condition text g) g.conditions in
      status_written fault g set.1 (record g { conditions = set.0 })

-- Why a guardrail is rejected.
pub data Rejection : Type 0 where
  invalid_days : List Str → Rejection
  invalid_constraints : List SpecViolation → Rejection
  list_failed : Str → Rejection

-- A WorkloadClass that does not comply, with its violations.
abbrev pub Warning : Type 0
Warning = NamespacedName × List Violation

abbrev pub days_checked : List Str → Result Rejection (Unit {0})
days_checked [] = ok tt
days_checked (d ∷ ds) = err (invalid_days (d ∷ ds))

abbrev pub constraints_checked : List SpecViolation → Result Rejection (Unit {0})
constraints_checked [] = ok tt
constraints_checked (v ∷ vs) = err (invalid_constraints (v ∷ vs))

abbrev pub warning_of : WorkloadClass → List Violation → List Warning
warning_of wc [] = []
warning_of wc (v ∷ vs) = (key_of wc, v ∷ vs) ∷ []

-- The loop of validateAgainstWorkloadClasses.
unfoldable pub warnings_for : Guardrail → List WorkloadClass → List Warning
warnings_for g [] = []
warnings_for g (wc ∷ wcs) =
    warning_of wc (guardrail_violations wc g.disruption) ++ warnings_for g wcs

-- validateAgainstWorkloadClasses, for the WorkloadClasses of all namespaces.
unfoldable pub validate_against_workload_classes :
    Result Str (List WorkloadClass) → Guardrail → Result Rejection (List Warning)
validate_against_workload_classes (err e) g = err (list_failed e)
validate_against_workload_classes (ok wcs) g = ok (warnings_for g wcs)

module _ (json : JsonLib) (decode : Str → Result Str GuardrailParameters) where
  -- validateGuardrailSpec
  unfoldable pub validate_guardrail_spec : Guardrail → Result Rejection (Unit {0})
  validate_guardrail_spec g = days_checked (invalid_weekdays g.disruption.days_of_week) >>= λ u.
      constraints_checked (validate_plugin_constraints json decode g.placement)

  -- ValidateCreate; ValidateUpdate does the same with the new guardrail. The warnings, where it is admitted.
  unfoldable pub validate_create :
      Result Str (List WorkloadClass) → Guardrail → Result Rejection (List Warning)
  validate_create wcs g = validate_guardrail_spec g >>= λ u. validate_against_workload_classes wcs g
