-- ===== src/Api.antt =====
-- api/v1: the types of WorkloadClass, WorkloadClassGuardrail and GKESpotPlacementPolicy.
pub mod ConditionType
pub mod Reason
use workload_class.Prelude.{ℕ, Bool, true, false, Option, none, some, List, [], ◌∷◌, Str, lit}
use workload_class.Prelude.Int.{ℤ}
use workload_class.Kube.Labels.{LabelSelector}
use workload_class.Kube.Objects.{Conditions, IntOrString}

-- The string types of the API are data types: "" is `unset`, and any other text is kept.
pub data SpotPlacementType : Type 0 where
  unset_type spot on_demand : SpotPlacementType
  other_type : Str → SpotPlacementType

pub data FallbackAction : Type 0 where
  unset_action fail fallback_to_on_demand : FallbackAction
  other_action : Str → FallbackAction

pub record DisruptionWindow : Type 0 where
  pub name : Str
  pub days_of_week : List Str
  pub time_zone : Str
  pub start_time : Str
  pub end_time : Str

pub record Subject : Type 0 where
  pub kind : Str
  pub name : Str
  pub namespace : Str

pub record DisruptionPolicy : Type 0 where
  pub allowed_disruption_windows : List DisruptionWindow
  pub allowed_disruptions_outside_of_window : List Subject
  pub max_non_disruption_duration_days : ℤ
  pub min_initial_run_duration_days : ℤ
  pub grace_termination_duration_seconds : ℤ
  pub emergency_override : Bool

pub record CapacityStrategy : Type 0 where
  pub type : SpotPlacementType
  pub spot_ratio : Str
  pub fallback_action : FallbackAction

pub record InfrastructureProfileReference : Type 0 where
  pub group : Str
  pub kind : Str
  pub name : Str

pub data MaintenanceReadiness : Type 0 where
  unset_readiness ready not_ready overdue : MaintenanceReadiness
  other_readiness : Str → MaintenanceReadiness

-- The metadata, Spec and Status of a WorkloadClass in one record.
pub record WorkloadClass : Type 0 where
  pub name : Str
  pub namespace : Str
  pub uid : Str
  pub generation : ℤ
  pub creation_timestamp : ℕ
  pub deletion_timestamp : Option ℕ
  pub pod_selector : Option LabelSelector
  pub disruption_policy : DisruptionPolicy
  pub capacity_strategy : Option CapacityStrategy
  pub infrastructure_profile_ref : Option InfrastructureProfileReference
  pub maintenance_readiness : MaintenanceReadiness
  pub last_disruption_time : Option ℕ
  pub conditions : Conditions

pub record Disruption : Type 0 where
  pub days_of_week : List Str
  pub max_allowed_windows : ℤ
  pub max_non_disruption_duration_days : ℤ

pub data EnforcementMode : Type 0 where
  unset_mode allowed required forbidden : EnforcementMode
  other_mode : Str → EnforcementMode

pub data ReversionAction : Type 0 where
  unset_reversion active lazy none_reversion : ReversionAction
  other_reversion : Str → ReversionAction

pub record FallbackConstraints : Type 0 where
  pub allow_fallback_to_on_demand : Option Bool
  pub max_fallback_ratio : Option IntOrString

-- `max_fallback_duration` is a number of nanoseconds.
pub record ReversionConstraints : Type 0 where
  pub required_reversion_action : Option ReversionAction
  pub max_fallback_duration : Option ℤ

pub record GuardrailParameters : Type 0 where
  pub enforcement_mode : EnforcementMode
  pub min_spot_ratio : Option Str
  pub fallback : Option FallbackConstraints
  pub reversion : Option ReversionConstraints

-- `parameters` is Parameters.Raw: none where the pointer is nil.
pub record PluginConstraint : Type 0 where
  pub name : Str
  pub parameters : Option Str

-- `placement` is PluginConstraints.Placement: none where PluginConstraints is nil.
pub record Guardrail : Type 0 where
  pub name : Str
  pub generation : ℤ
  pub conditions : Conditions
  pub disruption : Disruption
  pub placement : Option (List PluginConstraint)

pub record SpotPlacementPolicy : Type 0 where
  pub name : Str
  pub generation : ℤ
  pub conditions : Conditions
  pub custom_compute_class : Str
  pub fallback_allowed_machine_families : List Str
  pub reversion_action : ReversionAction
  pub min_duration_on_fallback : Option ℤ

abbrev pub enforced_class_label : Str
enforced_class_label = lit "workloads.gke.io/enforced-class"

abbrev pub pod_uid_label : Str
pod_uid_label = lit "workloads.gke.io/pod-uid"
