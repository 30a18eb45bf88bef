-- ===== src/Spot/Capacity.antt =====
-- internal/controller/spot_capacity.go: whether Spot nodes can be had. YAML and Unicode cases are parameters.
use workload_class.Prelude.{
  Bool, true, false, not, ◌&&◌, ◌||◌, Option, none, some, List, [], ◌∷◌, any, filter, nat_beq, ◌==◌,
  str_eq, Str, lit, if◌then◌else◌, Result, ok, err,
}
use workload_class.Kube.Objects.{Node, ObjectCondition}
use workload_class.Kube.Client.{GetError, not_found, get_failed}
use workload_class.Resolve.{is_true}
use workload_class.SpotPod.{is_spot_node}

-- clusterAutoscalerNodeGroup; `backoff_code` is BackoffInfo.ErrorCode, and none where BackoffInfo is nil.
pub record NodeGroup : Type 0 where
  pub name : Str
  pub health : Str
  pub scale_up : Str
  pub backoff_code : Option Str

-- strings.TrimSpace, strings.ToLower, strings.EqualFold, and yaml.Unmarshal into clusterAutoscalerStatus.
pub record StatusLib : Type 0 where
  pub trim_space : Str → Str
  pub to_lower : Str → Str
  pub equal_fold : Str → Str → Bool
  pub unmarshal : Str → Option (List NodeGroup)

-- What the controller reads of the cluster: the nodes, and the text under the key status of the ConfigMap
-- kube-system/cluster-autoscaler-status, "" without that key.
pub record Cluster : Type 0 where
  pub list_nodes : Result Str (List Node)
  pub autoscaler_status : Result GetError Str

abbrev pub starts_with : Str → Str → Bool
starts_with s [] = true
starts_with [] (c ∷ cs) = false
starts_with (d ∷ s) (c ∷ cs) = nat_beq d c && starts_with s cs

-- strings.Contains
unfoldable pub has_substring : Str → Str → Bool
has_substring [] sub = starts_with [] sub
has_substring (c ∷ s) sub = starts_with (c ∷ s) sub || has_substring s sub

abbrev pub no_error : Option Str → Bool
no_error none = true
no_error (some code) = code == []

-- available, and found.
pub record Found : Type 0 where
  pub available : Bool
  pub found : Bool

abbrev pub has_node_ready : ObjectCondition → Bool
has_node_ready c = (c.type == lit "Ready") && is_true c.status

-- isReadySpotNode
unfoldable pub is_ready_spot_node : Node → Bool
is_ready_spot_node node =
    if not (is_spot_node (some node)) || node.unschedulable
    then false
    else any has_node_ready node.conditions

abbrev pub any_ready : Result Str (List Node) → Result Str Bool
any_ready (err e) = err e
any_ready (ok nodes) = ok (any is_ready_spot_node (filter (λ n. is_spot_node (some n)) nodes))

-- hasReadySpotNodes; the List is filtered by the label.
unfoldable pub has_ready_spot_nodes : Cluster → Result Str Bool
has_ready_spot_nodes cluster = any_ready cluster.list_nodes

module _ (lib : StatusLib) where
  -- isSpotNodeGroupAvailable
  unfoldable pub is_spot_node_group_available : NodeGroup → Bool
  is_spot_node_group_available g =
      if not (lib.equal_fold g.health (lit "Healthy"))
      then false
      else if lib.equal_fold g.scale_up (lit "Backoff")
      then false
      else no_error g.backoff_code

  abbrev pub is_spot_group : NodeGroup → Bool
  is_spot_group g = has_substring (lib.to_lower g.name) (lit "spot")

  -- The loop: it ends at the first Spot group that is available.
  unfoldable pub search_groups : Bool → List NodeGroup → Found
  search_groups found [] = record { available = false; found = found }
  search_groups found (g ∷ gs) =
      let skipped = search_groups found gs in
      let unavailable = search_groups true gs in
      if not (is_spot_group g)
      then skipped
      else if is_spot_node_group_available g
      then record { available = true; found = true }
      else unavailable

  abbrev pub found_in : Option (List NodeGroup) → Option Found
  found_in none = none
  found_in (some gs) = some (search_groups false gs)

  -- spotCapacityFromAutoscalerStatus; none is an error.
  unfoldable pub spot_capacity_from_status : Str → Option Found
  spot_capacity_from_status raw =
      if lib.trim_space raw == []
      then some (record { available = false; found = false })
      else found_in (lib.unmarshal raw)

  abbrev pub or_ready_nodes : Cluster → Option Found → Result Str Bool
  or_ready_nodes cluster none = has_ready_spot_nodes cluster
  or_ready_nodes cluster (some f) = if f.found then ok f.available else has_ready_spot_nodes cluster

  abbrev pub by_status : Cluster → Result GetError Str → Result Str Bool
  by_status cluster (err not_found) = has_ready_spot_nodes cluster
  by_status cluster (err (get_failed e)) = err e
  by_status cluster (ok raw) = or_ready_nodes cluster (spot_capacity_from_status raw)

  -- checkSpotCapacity
  unfoldable pub check_spot_capacity : Cluster → Result Str Bool
  check_spot_capacity cluster = by_status cluster cluster.autoscaler_status

  abbrev pub differs : Bool → Bool → Bool
  differs true b = not b
  differs false b = b

  -- spotAvailabilityChanged, for two ConfigMaps.
  unfoldable pub spot_availability_changed : Str → Str → Bool
  spot_availability_changed old new =
      let before = spot_capacity_from_status old in
      let after = spot_capacity_from_status new in changed before after
    where
      changed : Option Found → Option Found → Bool
      changed none none = false
      changed none (some g) = true
      changed (some f) none = true
      changed (some f) (some g) = differs f.available g.available || differs f.found g.found
