-- ===== src/PodWebhook/Counts.antt =====
-- internal/webhook/v1/pod_placement.go: the active Pods of a WorkloadClass, counted by where they run.
use workload_class.Prelude.{
  ℕ, suc, Bool, true, false, not, ◌&&◌, Option, none, some, List, [], ◌∷◌, length, filter, ltb,
  ◌==◌, str_eq, Str, lookup, if◌then◌else◌, Result, ok, err, ◌>>=◌,
}
use workload_class.Kube.Labels.{SelectorLib}
use workload_class.Kube.Objects.{Pod, Node}
use workload_class.Kube.Client.{Client, GetError}
use workload_class.Api.{WorkloadClass}
use workload_class.Resolve.{
  ResolveError, PodSelector, everything, by_selector, find_best_match_workload_class,
  workload_class_pod_selector,
}
use workload_class.SpotPod.{is_spot_node, is_pod_targeted_for_spot, is_pod_active}

-- existingPodCounts
pub record PodCounts : Type 0 where
  pub total : ℕ
  pub effective_spot : ℕ
  pub fallback : ℕ

abbrev pub zero_counts : PodCounts
zero_counts = record { total = 0; effective_spot = 0; fallback = 0 }

pub data CountError : Type 0 where
  unresolved : ResolveError → CountError
  list_failed : Str → CountError

abbrev pub resolved {ℓ} : {A : Type ℓ} → Result ResolveError A → Result CountError A
resolved (ok a) = ok a
resolved (err e) = err (unresolved e)

abbrev pub listed {ℓ} : {A : Type ℓ} → Result Str A → Result CountError A
listed (ok a) = ok a
listed (err e) = err (list_failed e)

abbrev pub spot_if_known : Result GetError Node → Option Bool
spot_if_known (err e) = none
spot_if_known (ok node) = some (is_spot_node (some node))

-- isNodeSpot; none is known = false.
unfoldable pub is_node_spot : Client → Str → Option Bool
is_node_spot client [] = none
is_node_spot client (c ∷ cs) = spot_if_known (client.get_node (c ∷ cs))

-- The map of the nodes that were looked up before.
abbrev pub Nodes : Type 0
Nodes = List (Str × Option Bool)

abbrev pub cached : Client → Str → Nodes → Option (Option Bool) → Option Bool × Nodes
cached client name nodes (some n) = (n, nodes)
cached client name nodes none = let n = is_node_spot client name in (n, (name, n) ∷ nodes)

-- lookupNode: the entry that it adds is new, so it may stand in front.
unfoldable pub lookup_node : Client → Str → Nodes → Option Bool × Nodes
lookup_node client name nodes = cached client name nodes (lookup name nodes)

abbrev pub add_spot : PodCounts → PodCounts
add_spot c = record c { effective_spot = suc c.effective_spot }

abbrev pub add_fallback : PodCounts → PodCounts
add_fallback c = record c { fallback = suc c.fallback }

-- The switch of the loop, on the node and on whether the Pod is targeted for Spot.
abbrev pub classify : Option Bool → Bool → PodCounts → PodCounts
classify (some true) targeted c = add_spot c
classify (some false) true c = add_fallback c
classify (some false) false c = c
classify none true c = add_spot c
classify none false c = c

-- The body of the loop.
unfoldable pub count_pod : Client → Pod → Nodes → PodCounts → Nodes × PodCounts
count_pod client pod nodes c =
    let counted = record c { total = suc c.total } in
    let targeted = is_pod_targeted_for_spot (some pod) in
    let found = lookup_node client pod.node_name nodes in
    if pod.node_name == []
    then (nodes, if targeted then add_spot counted else counted)
    else (found.1, classify found.0 targeted counted)

unfoldable pub count_pods : Client → List Pod → Nodes → PodCounts → PodCounts
count_pods client [] nodes c = c
count_pods client (pod ∷ pods) nodes c =
    let next = count_pod client pod nodes c in count_pods client pods next.0 next.1

abbrev pub has_name : Option WorkloadClass → Str → Bool
has_name none name = false
has_name (some wc) name = wc.name == name

module _ (lib : SelectorLib) where
  -- The server's part of a List with MatchingLabelsSelector.
  abbrev pub is_selected : PodSelector → Pod → Bool
  is_selected everything pod = true
  is_selected (by_selector s) pod = lib.matches s pod.labels

  -- The check of the best match, made only where it can differ.
  unfoldable pub belongs : Client → WorkloadClass → Bool → Pod → Result CountError Bool
  belongs client wc false pod = ok true
  belongs client wc true pod =
      resolved (find_best_match_workload_class lib client (some pod)) >>= λ m.
      ok (has_name m.best wc.name)

  abbrev pub is_same_pod : Pod → Pod → Bool
  is_same_pod incoming existing = not (incoming.name == []) && (existing.name == incoming.name)

  abbrev pub prepend_if : Pod → List Pod → Bool → List Pod
  prepend_if pod pods b = if b then pod ∷ pods else pods

  -- The loop of listWorkloadClassPods.
  unfoldable pub keep_pods :
      Client → Pod → WorkloadClass → Bool → List Pod → Result CountError (List Pod)
  keep_pods client incoming wc check [] = ok []
  keep_pods client incoming wc check (pod ∷ pods) =
      let rest = keep_pods client incoming wc check pods in
      if not (is_pod_active (some pod))
      then rest
      else if is_same_pod incoming pod
      then rest
      else belongs client wc check pod >>= λ b. rest >>= λ kept. ok (prepend_if pod kept b)

  -- listWorkloadClassPods
  unfoldable pub list_workload_class_pods :
      Client → Pod → WorkloadClass → Result CountError (List Pod)
  list_workload_class_pods client incoming wc =
      resolved (workload_class_pod_selector lib client wc) >>= λ selector.
      listed (client.list_pods incoming.namespace) >>= λ pods.
      listed (client.list_workload_classes incoming.namespace) >>= λ wcs.
      keep_pods client incoming wc (ltb 1 (length wcs)) (filter (is_selected selector) pods)

  -- countWorkloadClassPods
  unfoldable pub count_workload_class_pods :
      Client → Pod → WorkloadClass → Result CountError PodCounts
  count_workload_class_pods client incoming wc =
      list_workload_class_pods client incoming wc >>= λ pods.
      ok (count_pods client pods [] zero_counts)
