-- ===== src/Spot/Attached.antt =====
-- Which WorkloadClasses a policy attaches to.
use workload_class.Prelude.{
  ◌≡◌, sym, arith, Bool, true, false, Option, none, some, List, [], ◌∷◌, Str, str_eq, lookup,
}
use workload_class.Kube.Objects.{Condition, ConditionStatus}
use workload_class.Kube.Client.{Client}
use workload_class.Api.{WorkloadClass, Guardrail}
use workload_class.Api.ConditionType
use workload_class.Resolve.{is_true}
use workload_class.PodWebhook.Budgets.{condition_is_true}
use workload_class.Controller.Status.{status_beq, same_condition}
use workload_class.Spot.Attach.{references_policy}

same_status : (s t : ConditionStatus) → status_beq s t ≡ true → is_true s ≡ is_true t
unfolding status_beq
same_status s t h = ground arith

pub same-true :
    (c : Condition) (o : Option Condition)
    → same_condition c o ≡ true
    → condition_is_true o ≡ is_true c.status
same-true c none h = ground arith
same-true c (some d) h = sym (same_status c.status d.status (ground arith))

-- What becomes of one WorkloadClass: without the policy it stays as it is, and else reports the attachment.
abbrev pub IsUpdated : Str → Bool → WorkloadClass → WorkloadClass → Type 0
IsUpdated name attached wc new =
    (references_policy name wc.infrastructure_profile_ref ≡ false → new ≡ wc)
    × (references_policy name wc.infrastructure_profile_ref ≡ true
        → condition_is_true (lookup ConditionType.placement_plugin_attached new.conditions)
          ≡ attached)

abbrev pub AllUpdated : Str → Bool → List WorkloadClass → List WorkloadClass → Type 0
AllUpdated name attached [] [] = Unit
AllUpdated name attached [] (n ∷ ns) = ⊥
AllUpdated name attached (wc ∷ wcs) [] = ⊥
AllUpdated name attached (wc ∷ wcs) (n ∷ ns) =
    IsUpdated name attached wc n × AllUpdated name attached wcs ns
