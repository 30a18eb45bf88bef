-- ===== src/Controller/Reconcile.antt =====
-- internal/controller/workloadclass_controller.go: reconcilePDBs and Reconcile.
use workload_class.Prelude.{
  ℕ, Bool, true, false, not, ◌&&◌, Option, none, some, List, [], ◌∷◌, ◌++◌, map, contains, ◌==◌,
  str_eq, Str, if◌then◌else◌, Result, ok, err,
}
use workload_class.Prelude.Int.{ℤ, pos}
use workload_class.Kube.Labels.{SelectorLib}
use workload_class.Kube.Objects.{Pod, Pdb}
use workload_class.Kube.Client.{Client}
use workload_class.Api.{WorkloadClass}
use workload_class.BestMatch.{is_none}
use workload_class.Resolve.{
  ResolveError, namespace_enforced_workload_class, best_match_workload_class_for_pod,
}
use workload_class.LeaseTracker.{PendingLease, Leases}
use workload_class.PdbName.{pdb_name}
use workload_class.Pdb.{TimeFormat}
use workload_class.Controller.Readiness.{min_positive_duration}
use workload_class.Controller.Validation.{protects_pods, passed_validation}
use workload_class.Controller.Store.{Store, Faults, PdbError, objects, delete_pdb}
use workload_class.Controller.Pdbs.{leases_by_pod, lease_of, reconcile_pod_pdb}
use workload_class.Controller.Namespace.{
  NamespaceError, list_failed, unresolved, of_pdb, Outcome, reenqueue_leases, owned_pdbs, user_pdbs,
  error_of, get_pod_for_pdb, is_governable, open_owned_pdbs, governed_pods,
}

-- The request that is handed back to the tracker when its Pod fails.
abbrev pub to_requeue : Option PendingLease → List PendingLease
to_requeue none = []
to_requeue (some l) = l ∷ []

abbrev pub time_of : Result PdbError ℤ → ℤ
time_of (ok d) = d
time_of (err e) = pos 0

abbrev pub failed_with : Result PdbError ℤ → Store → WorkloadClass → Option PendingLease → Store
failed_with (ok d) s wc l = s
failed_with (err e) s wc l = reenqueue_leases s wc (to_requeue l)

abbrev pub governs_other : WorkloadClass → Bool → Option WorkloadClass → Bool
governs_other wc has_guardrails none = false
governs_other wc has_guardrails (some best) =
    not (best.name == wc.name) && passed_validation best has_guardrails

module _ (lib : SelectorLib) (hash : Str → Str) (time : TimeFormat) (faults : Faults)
    (wc : WorkloadClass) (now : ℕ) where
  -- The loop over the governed Pods.
  unfoldable pub reconcile_governed : Leases → List Pod → Outcome → Outcome
  reconcile_governed leases [] o = o
  reconcile_governed leases (pod ∷ pods) o =
      let one = reconcile_pod_pdb hash time faults wc now o.store pod leases in
      reconcile_governed leases pods (record {
        requeue = min_positive_duration o.requeue (time_of one.0);
        errors = o.errors ++ error_of one.0;
        store = failed_with one.0 one.1 wc (lease_of leases pod);
      })

  -- Another valid WorkloadClass governs the Pod and adopts its budget; a panic is an error.
  abbrev pub is_adopted :
      Bool
      → Option WorkloadClass
      → List WorkloadClass
      → List Pdb
      → Option Pod
      → Result NamespaceError Bool
  is_adopted has_guardrails enforced wcs users pod =
      if is_governable lib hash time faults wc now users pod
      then elim (best_match_workload_class_for_pod lib pod enforced wcs) [
        | err e ↦ err (unresolved e)
        | ok best ↦ ok (governs_other wc has_guardrails best)
      ]
      else ok false

  abbrev pub delete_unless : Store → Str → Result NamespaceError Bool → List NamespaceError × Store
  delete_unless s name (err e) = (e ∷ [], s)
  delete_unless s name (ok true) = ([], s)
  delete_unless s name (ok false) =
      let deleted = delete_pdb faults s wc name in (error_of deleted.0, deleted.1)

  abbrev pub delete_stale :
      Bool
      → Option WorkloadClass
      → List WorkloadClass
      → List Pdb
      → Store
      → Str
      → Result PdbError (Option Pod)
      → List NamespaceError × Store
  delete_stale has_guardrails enforced wcs users s name (err e) = (of_pdb e ∷ [], s)
  delete_stale has_guardrails enforced wcs users s name (ok pod) =
      delete_unless s name (is_adopted has_guardrails enforced wcs users pod)

  -- The loop over the owned budgets; `kept` are the names of governedPDBs.
  unfoldable pub clean_owned :
      Bool
      → Option WorkloadClass
      → List WorkloadClass
      → List Pdb
      → List Str
      → Store
      → List Pdb
      → List NamespaceError × Store
  clean_owned has_guardrails enforced wcs users kept s [] = ([], s)
  clean_owned has_guardrails enforced wcs users kept s (pdb ∷ pdbs) =
      let one =
        (if contains kept pdb.name
          then ([], s)
          else delete_stale has_guardrails enforced wcs users s pdb.name
              (get_pod_for_pdb hash faults s pdb.name)) in
      let rest = clean_owned has_guardrails enforced wcs users kept one.1 pdbs in
      (one.0 ++ rest.0, rest.1)

  abbrev pub cleaned : Outcome → List NamespaceError × Store → Outcome
  cleaned o (errors, s) = record o { errors = o.errors ++ errors; store = s }

  -- The two loops.
  unfoldable pub reconcile_loops :
      Bool
      → Option WorkloadClass
      → List WorkloadClass
      → List Pdb
      → List Pdb
      → List PendingLease
      → Store
      → List Pod
      → Outcome
  reconcile_loops has_guardrails enforced wcs owned users pending s governed =
      let o =
        reconcile_governed (leases_by_pod pending []) governed
          (record { requeue = pos 0; errors = []; store = s }) in
      cleaned o (
        clean_owned has_guardrails enforced wcs users (map (λ pod. pdb_name hash pod.name) governed)
          o.store owned)

  -- An early return with an error hands all requests back to the tracker.
  abbrev pub give_up : Store → List PendingLease → NamespaceError → Outcome
  give_up s pending e = record {
    requeue = pos 0;
    errors = e ∷ [];
    store = reenqueue_leases s wc pending;
  }

  abbrev pub with_governed :
      Bool
      → Option WorkloadClass
      → List WorkloadClass
      → List Pdb
      → List PendingLease
      → Store
      → List Pdb
      → Result NamespaceError (List Pod)
      → Outcome
  with_governed has_guardrails enforced wcs users pending s owned (err e) = give_up s pending e
  with_governed has_guardrails enforced wcs users pending s owned (ok pods) =
      reconcile_loops has_guardrails enforced wcs owned users pending s pods

  abbrev pub with_classes :
      Bool
      → List Pdb
      → List PendingLease
      → Store
      → Option WorkloadClass
      → Result Str (List WorkloadClass)
      → Outcome
  with_classes has_guardrails pdbs pending s enforced (err e) = give_up s pending (list_failed e)
  with_classes has_guardrails pdbs pending s enforced (ok wcs) =
      with_governed has_guardrails enforced wcs (user_pdbs wc pdbs) pending s (owned_pdbs wc pdbs) (
        governed_pods lib hash time faults wc now enforced wcs (user_pdbs wc pdbs) (objects s.pods))

  abbrev pub with_enforced :
      Client
      → Bool
      → List Pdb
      → List PendingLease
      → Store
      → Result ResolveError (Option WorkloadClass)
      → Outcome
  with_enforced client has_guardrails pdbs pending s (err e) = give_up s pending (unresolved e)
  with_enforced client has_guardrails pdbs pending s (ok enforced) =
      with_classes has_guardrails pdbs pending s enforced
        (client.list_workload_classes wc.namespace)

  abbrev pub opened : List NamespaceError × Store → Outcome
  opened (errors, s) = record { requeue = pos 0; errors = errors; store = s }

  abbrev pub with_pdbs :
      Client → Str → Bool → List PendingLease → Store → Option Str → List Pdb → Outcome
  with_pdbs client reason has_guardrails pending s (some e) pdbs = give_up s pending (list_failed e)
  with_pdbs client reason has_guardrails pending s none pdbs =
      if not (protects_pods reason has_guardrails)
      then opened
          (open_owned_pdbs lib hash time faults wc now s (owned_pdbs wc pdbs) (user_pdbs wc pdbs))
      else with_enforced client has_guardrails pdbs pending s
          (namespace_enforced_workload_class client wc.namespace)

  -- reconcilePDBs
  unfoldable pub reconcile_pdbs : Client → Str → Bool → List PendingLease → Store → Outcome
  reconcile_pdbs client reason has_guardrails pending s =
      if not (is_none wc.deletion_timestamp)
      then record { requeue = pos 0; errors = []; store = s }
      else with_pdbs client reason has_guardrails pending s faults.list_pdbs (objects s.pdbs)
