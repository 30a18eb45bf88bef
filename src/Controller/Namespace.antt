-- ===== src/Controller/Namespace.antt =====
-- internal/controller/workloadclass_controller.go: reconcilePDBs, over all budgets of a WorkloadClass. An
-- error of one Pod does not stop the loop, so that the errors are a list; none is success.
use workload_class.Prelude.{
  ℕ, Bool, true, false, not, ◌&&◌, Option, none, some, List, [], ◌∷◌, ◌++◌, length, filter, ltb,
  ◌==◌, str_eq, Str, if◌then◌else◌, Result, ok, err, ◌>>=◌,
}
use workload_class.Prelude.Int.{ℤ}
use workload_class.Kube.Labels.{LabelSelector, SelectorLib}
use workload_class.Kube.Objects.{Pod, unknown_phase, Pdb}
use workload_class.Api.{WorkloadClass}
use workload_class.Resolve.{
  ResolveError, PodSelector, everything, by_selector, best_match_workload_class_for_pod,
}
use workload_class.SpotPod.{is_pod_active}
use workload_class.LeaseTracker.{PendingLease, Tracker, enqueue_lease}
use workload_class.PdbName.{pdb_name, pod_name_from_pdb_name, max_pdb_name_length}
use workload_class.Pdb.{TimeFormat, is_workload_class_managed_pdb, is_pod_covered_by_user_pdb}
use workload_class.PodWebhook.Counts.{has_name, is_selected}
use workload_class.Controller.Store.{
  Store, Faults, PdbError, call_failed, objects, fetch_pod, is_controlled_by, delete_pdb,
}
use workload_class.Controller.Pdbs.{sync_pod_pdb}

-- The errors that reconcilePDBs returns.
pub data NamespaceError : Type 0 where
  list_failed : Str → NamespaceError
  unresolved : ResolveError → NamespaceError
  invalid_selector : NamespaceError
  of_pdb : PdbError → NamespaceError

pub record Outcome : Type 0 where
  pub requeue : ℤ
  pub errors : List NamespaceError
  pub store : Store

-- The Pod that reenqueueLeases makes: its name, namespace and UID.
abbrev pub pod_for : WorkloadClass → PendingLease → Pod
pod_for wc l = record {
  name = l.pod_name;
  generate_name = [];
  namespace = wc.namespace;
  uid = l.pod_uid;
  labels = [];
  creation_timestamp = 0;
  deletion_timestamp = none;
  deletion_grace_period_seconds = none;
  termination_grace_period_seconds = none;
  phase = unknown_phase;
  node_name = [];
  node_selector = [];
  tolerations = [];
  node_affinity = none;
  controller = none;
  start_time = none;
  conditions = [];
}

unfoldable pub enqueue_all : Tracker → WorkloadClass → List PendingLease → Tracker
enqueue_all t wc [] = t
enqueue_all t wc (l ∷ ls) = enqueue_all (enqueue_lease t wc (pod_for wc l) l.subject).0 wc ls

abbrev pub tracked : Option Tracker → WorkloadClass → List PendingLease → Option Tracker
tracked none wc ls = none
tracked (some t) wc ls = some (enqueue_all t wc ls)

-- reenqueueLeases
unfoldable pub reenqueue_leases : Store → WorkloadClass → List PendingLease → Store
reenqueue_leases s wc ls = record s { tracker = tracked s.tracker wc ls }

abbrev pub owned_pdbs : WorkloadClass → List Pdb → List Pdb
owned_pdbs wc pdbs = filter (λ pdb. is_controlled_by pdb wc) pdbs

abbrev pub user_pdbs : WorkloadClass → List Pdb → List Pdb
user_pdbs wc pdbs =
    filter (λ pdb. not (is_controlled_by pdb wc) && not (is_workload_class_managed_pdb (some pdb)))
      pdbs

abbrev pub error_of {ℓ} : {A : Type ℓ} → Result PdbError A → List NamespaceError
error_of (ok a) = []
error_of (err e) = of_pdb e ∷ []

abbrev pub first_named : (Str → Str) → Str → List Pod → Option Pod
first_named hash name [] = none
first_named hash name (pod ∷ pods) =
    if pdb_name hash pod.name == name then some pod else first_named hash name pods

abbrev pub search_pods : (Str → Str) → Option Str → Store → Str → Result PdbError (Option Pod)
search_pods hash (some e) s name = err (call_failed e)
search_pods hash none s name = ok (first_named hash name (objects s.pods))

abbrev pub or_search :
    (Str → Str) → Faults → Store → Str → Result PdbError (Option Pod) → Result PdbError (Option Pod)
or_search hash faults s name (err e) = err e
or_search hash faults s name (ok (some pod)) = ok (some pod)
or_search hash faults s name (ok none) =
    if ltb (length name) max_pdb_name_length
    then ok none
    else search_pods hash faults.list_pods s name

-- getPodForPDB
unfoldable pub get_pod_for_pdb : (Str → Str) → Faults → Store → Str → Result PdbError (Option Pod)
get_pod_for_pdb hash faults s name =
    or_search hash faults s name (fetch_pod faults s (pod_name_from_pdb_name name))

module _ (lib : SelectorLib) (hash : Str → Str) (time : TimeFormat) (faults : Faults)
    (wc : WorkloadClass) (now : ℕ) where
  -- The Pod is active and no user-created budget covers it.
  abbrev pub is_governable : List Pdb → Option Pod → Bool
  is_governable users pod = is_pod_active pod && not (is_pod_covered_by_user_pdb lib pod users)

  abbrev pub open_pod : Store → Str → List Pdb → Option Pod → Result PdbError (Unit {0}) × Store
  open_pod s name users none = delete_pdb faults s wc name
  open_pod s name users (some pod) =
      if not (is_governable users (some pod))
      then delete_pdb faults s wc name
      else sync_pod_pdb hash time faults wc now s pod false

  abbrev pub open_found :
      Store → Str → List Pdb → Result PdbError (Option Pod) → Result PdbError (Unit {0}) × Store
  open_found s name users (err e) = (err e, s)
  open_found s name users (ok pod) = open_pod s name users pod

  -- openOwnedPDBs
  unfoldable pub open_owned_pdbs : Store → List Pdb → List Pdb → List NamespaceError × Store
  open_owned_pdbs s [] users = ([], s)
  open_owned_pdbs s (pdb ∷ pdbs) users =
      let one = open_found s pdb.name users (get_pod_for_pdb hash faults s pdb.name) in
      let rest = open_owned_pdbs one.1 pdbs users in (error_of one.0 ++ rest.0, rest.1)

  abbrev pub all_or_matching : Option WorkloadClass → Option LabelSelector → Option PodSelector
  all_or_matching (some enforced) selector = some everything
  all_or_matching none none = none
  all_or_matching none (some s) = some (by_selector s)

  abbrev pub is_valid_selector : PodSelector → Bool
  is_valid_selector everything = true
  is_valid_selector (by_selector s) = lib.valid s

  abbrev pub prepend_governed : Pod → Option WorkloadClass → List Pod → List Pod
  prepend_governed pod best pods = if has_name best wc.name then pod ∷ pods else pods

  -- The loop of governedPods.
  unfoldable pub keep_governed :
      Option WorkloadClass
      → List WorkloadClass
      → List Pdb
      → List Pod
      → Result NamespaceError (List Pod)
  keep_governed enforced wcs users [] = ok []
  keep_governed enforced wcs users (pod ∷ pods) =
      let rest = keep_governed enforced wcs users pods in
      if not (is_governable users (some pod))
      then rest
      else elim (best_match_workload_class_for_pod lib (some pod) enforced wcs) [
        | err e ↦ err (unresolved e)
        | ok best ↦ rest >>= λ others. ok (prepend_governed pod best others)
      ]

  abbrev pub governed_listed :
      Option WorkloadClass
      → List WorkloadClass
      → List Pdb
      → PodSelector
      → Option Str
      → List Pod
      → Result NamespaceError (List Pod)
  governed_listed enforced wcs users selector (some e) pods = err (list_failed e)
  governed_listed enforced wcs users selector none pods =
      keep_governed enforced wcs users (filter (is_selected lib selector) pods)

  abbrev pub governed_by :
      Option WorkloadClass
      → List WorkloadClass
      → List Pdb
      → List Pod
      → Option PodSelector
      → Result NamespaceError (List Pod)
  governed_by enforced wcs users pods none = ok []
  governed_by enforced wcs users pods (some selector) =
      if not (is_valid_selector selector)
      then err invalid_selector
      else governed_listed enforced wcs users selector faults.list_pods pods

  abbrev pub is_enforced_elsewhere : Option WorkloadClass → Bool
  is_enforced_elsewhere none = false
  is_enforced_elsewhere (some enforced) = not (enforced.name == wc.name)

  -- governedPods
  unfoldable pub governed_pods :
      Option WorkloadClass
      → List WorkloadClass
      → List Pdb
      → List Pod
      → Result NamespaceError (List Pod)
  governed_pods enforced wcs users pods =
      if is_enforced_elsewhere enforced
      then ok []
      else governed_by enforced wcs users pods (all_or_matching enforced wc.pod_selector)
