-- ===== src/Kube/Objects.antt =====
-- The Kubernetes API objects, with the fields that the program reads or writes. A time is a number
-- of nanoseconds, an int32 or int64 an integer, a nil pointer `none`, and a map an association list.
use workload_class.Prelude.{
  Comparable, ◌==◌, ==_iff, str_eq, ◌&&◌, ◌≡◌, ◌↔◌, arith, ℕ, Bool, true, Option, List, Str,
}
use workload_class.Prelude.Int.{ℤ}
use workload_class.Kube.Labels.{Labels, LabelSelector}

-- types.NamespacedName
pub record NamespacedName : Type 0 where
  pub namespace : Str
  pub name : Str

unfoldable pub key_beq : NamespacedName → NamespacedName → Bool
key_beq a b = (a.namespace == b.namespace) && (a.name == b.name)

pub key_beq_iff : (a b : NamespacedName) → (key_beq a b ≡ true) ↔ (a ≡ b)
unfolding key_beq
key_beq_iff a b = ground (arith, ==_iff a.namespace b.namespace, ==_iff a.name b.name)

instance abbrev pub key_eq : Comparable NamespacedName
key_eq = record { equal = key_beq; equal_iff = key_beq_iff }

pub data ConditionStatus : Type 0 where
  condition_true condition_false condition_unknown : ConditionStatus

-- metav1.Condition. A list of conditions is a map by their type, which is the key of its list type.
pub record Condition : Type 0 where
  pub status : ConditionStatus
  pub reason : Str
  pub message : Str
  pub observed_generation : ℤ

abbrev pub Conditions : Type 0
Conditions = List (Str × Condition)

-- intstr.IntOrString
pub data IntOrString : Type 0 where
  int_val : ℤ → IntOrString
  str_val : Str → IntOrString

pub record Namespace : Type 0 where
  pub name : Str
  pub labels : Labels

pub data PodPhase : Type 0 where
  pending running succeeded failed unknown_phase : PodPhase

pub data TolerationOperator : Type 0 where
  unset_operator toleration_equal toleration_exists : TolerationOperator

pub data TaintEffect : Type 0 where
  unset_effect no_schedule prefer_no_schedule no_execute : TaintEffect

pub record Toleration : Type 0 where
  pub key : Str
  pub operator : TolerationOperator
  pub value : Str
  pub effect : TaintEffect

pub data NodeOperator : Type 0 where
  node_in node_not_in node_exists node_does_not_exist node_gt node_lt : NodeOperator

pub record NodeRequirement : Type 0 where
  pub key : Str
  pub operator : NodeOperator
  pub values : List Str

pub record NodeTerm : Type 0 where
  pub match_expressions : List NodeRequirement
  pub match_fields : List NodeRequirement

pub record PreferredTerm : Type 0 where
  pub weight : ℕ
  pub preference : NodeTerm

-- `required` is RequiredDuringSchedulingIgnoredDuringExecution: nil, or its terms.
pub record NodeAffinity : Type 0 where
  pub required : Option (List NodeTerm)
  pub preferred : List PreferredTerm

pub record OwnerReference : Type 0 where
  pub kind : Str
  pub name : Str
  pub uid : Str

-- A condition of a Pod or a Node; a zero time is none.
pub record ObjectCondition : Type 0 where
  pub type : Str
  pub status : ConditionStatus
  pub last_transition : Option ℕ

-- `node_affinity` is Spec.Affinity.NodeAffinity, and none where one of the two pointers is nil.
pub record Pod : Type 0 where
  pub name : Str
  pub generate_name : Str
  pub namespace : Str
  pub uid : Str
  pub labels : Labels
  pub creation_timestamp : ℕ
  pub deletion_timestamp : Option ℕ
  pub deletion_grace_period_seconds : Option ℤ
  pub termination_grace_period_seconds : Option ℤ
  pub phase : PodPhase
  pub node_name : Str
  pub node_selector : Labels
  pub tolerations : List Toleration
  pub node_affinity : Option NodeAffinity
  pub controller : Option OwnerReference
  pub start_time : Option ℕ
  pub conditions : List ObjectCondition

pub record Node : Type 0 where
  pub name : Str
  pub labels : Labels
  pub unschedulable : Bool
  pub conditions : List ObjectCondition

pub data UnhealthyPolicy : Type 0 where
  if_healthy_budget always_allow : UnhealthyPolicy

-- policyv1.PodDisruptionBudget. `controller` is the owner reference whose Controller is true, which
-- is what metav1.GetControllerOf returns, as it does for a Pod.
pub record Pdb : Type 0 where
  pub name : Str
  pub namespace : Str
  pub labels : Labels
  pub annotations : Labels
  pub controller : Option OwnerReference
  pub selector : Option LabelSelector
  pub unhealthy_policy : Option UnhealthyPolicy
  pub max_unavailable : Option IntOrString

-- authenticationv1.UserInfo
pub record UserInfo : Type 0 where
  pub username : Str
  pub groups : List Str
