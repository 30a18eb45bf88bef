-- ===== src/SpotPod.antt =====
-- internal/utils/spotpod.go: what marks a node as Spot, a Pod as targeted for Spot, and an active Pod.
use workload_class.Prelude.{
  Bool, true, false, not, ◌&&◌, ◌||◌, Option, none, some, any, ◌==◌, str_eq, Str, lit, lookup,
}
use workload_class.Kube.Objects.{
  Pod, PodPhase, succeeded, failed, Node, Toleration, TolerationOperator, unset_operator,
  toleration_equal, toleration_exists, TaintEffect, no_schedule,
}

abbrev pub spot_label_key : Str
spot_label_key = lit "cloud.google.com/gke-spot"

abbrev pub spot_label_value : Str
spot_label_value = lit "true"

-- m[key] == value, for a value that is not "".
abbrev pub holds : Option Str → Str → Bool
holds none value = false
holds (some v) value = v == value

-- IsSpotNode
unfoldable pub is_spot_node : Option Node → Bool
is_spot_node none = false
is_spot_node (some node) = holds (lookup spot_label_key node.labels) spot_label_value

abbrev pub equal_or_unset : TolerationOperator → Bool
equal_or_unset unset_operator = true
equal_or_unset toleration_equal = true
equal_or_unset toleration_exists = false

abbrev pub is_no_schedule : TaintEffect → Bool
is_no_schedule no_schedule = true
is_no_schedule _ = false

-- IsSpotToleration
unfoldable pub is_spot_toleration : Toleration → Bool
is_spot_toleration t =
    (t.key == spot_label_key)
    && (equal_or_unset t.operator && ((t.value == spot_label_value) && is_no_schedule t.effect))

-- IsPodTargetedForSpot
unfoldable pub is_pod_targeted_for_spot : Option Pod → Bool
is_pod_targeted_for_spot none = false
is_pod_targeted_for_spot (some pod) =
    holds (lookup spot_label_key pod.node_selector) spot_label_value
    || any is_spot_toleration pod.tolerations

abbrev pub is_terminal : PodPhase → Bool
is_terminal succeeded = true
is_terminal failed = true
is_terminal _ = false

abbrev pub is_unset {ℓ} : {A : Type ℓ} → Option A → Bool
is_unset none = true
is_unset (some a) = false

-- IsPodActive
unfoldable pub is_pod_active : Option Pod → Bool
is_pod_active none = false
is_pod_active (some pod) = is_unset pod.deletion_timestamp && not (is_terminal pod.phase)
