-- ===== src/Controller/Foreign.antt =====
-- Whatever calls fail, reconcilePDBs leaves every budget alone that is not managed by a WorkloadClass.
use workload_class.Prelude.{
  ℕ, Bool, true, false, Option, none, some, List, [], ◌∷◌, Str, str_eq, contains, if◌then◌else◌,
  Result, ok, err, Bool-cases, inl, inr,
}
use workload_class.Prelude.Int.{ℤ, pos}
use workload_class.Kube.Labels.{SelectorLib}
use workload_class.Kube.Objects.{Pod, Pdb}
use workload_class.Kube.Client.{Client}
use workload_class.Api.{WorkloadClass}
use workload_class.BestMatch.{is_none}
use workload_class.Resolve.{ResolveError, namespace_enforced_workload_class}
use workload_class.LeaseTracker.{PendingLease, Leases}
use workload_class.Pdb.{TimeFormat}
use workload_class.Controller.Validation.{protects_pods}
use workload_class.Controller.Store.{Store, Faults, PdbError, delete_pdb, objects}
use workload_class.Controller.Pdbs.{reconcile_pod_pdb, lease_of, leases_by_pod}
use workload_class.Controller.Namespace.{
  NamespaceError, Outcome, owned_pdbs, user_pdbs, reenqueue_leases, is_governable, open_pod,
  open_found, open_owned_pdbs, get_pod_for_pdb, governed_pods,
}
use workload_class.Controller.Reconcile.{
  failed_with, reconcile_governed, delete_unless, delete_stale, is_adopted, clean_owned,
  reconcile_loops, with_governed, with_classes, with_enforced, with_pdbs, reconcile_pdbs,
}
use workload_class.Controller.Untouched.{
  IsForeign, Has, delete_pdb-Has, sync_pod_pdb-Has, reconcile_pod_pdb-Has,
}

module _ (lib : SelectorLib) (hash : Str → Str) (time : TimeFormat) (faults : Faults)
    (wc : WorkloadClass) (now : ℕ) (name : Str) (p : Pdb) (foreign : IsForeign wc p) where
  deletes : (s : Store) (key : Str) → Has name p s → Has name p (delete_pdb faults s wc key).1
  deletes s key h = delete_pdb-Has faults wc name p s key foreign h

  open_pod-Has :
      (s : Store) (key : Str) (users : List Pdb) (pod : Option Pod)
      → Has name p s
      → Has name p (open_pod lib hash time faults wc now s key users pod).1
  open_pod-Has s key users none h = deletes s key h
  open_pod-Has s key users (some pod) h =
      elim (Bool-cases (is_governable lib hash time faults wc now users (some pod))) [
        | inl g ↦ rw g (sync_pod_pdb-Has hash time faults wc now name p foreign s pod false h)
        | inr g ↦ rw g (deletes s key h)
      ]

  open_found-Has :
      (s : Store) (key : Str) (users : List Pdb) (r : Result PdbError (Option Pod))
      → Has name p s
      → Has name p (open_found lib hash time faults wc now s key users r).1
  open_found-Has s key users (err e) h = h
  open_found-Has s key users (ok pod) h = open_pod-Has s key users pod h

  open_owned-Has :
      (s : Store) (pdbs users : List Pdb)
      → Has name p s
      → Has name p (open_owned_pdbs lib hash time faults wc now s pdbs users).1
  unfolding open_owned_pdbs
  open_owned-Has s [] users h = h
  open_owned-Has s (pdb ∷ pdbs) users h =
      let found = get_pod_for_pdb hash faults s pdb.name in
      open_owned-Has (open_found lib hash time faults wc now s pdb.name users found).1 pdbs users
        (open_found-Has s pdb.name users found h)

  failed_with-Has :
      (r : Result PdbError ℤ) (s : Store) (l : Option PendingLease)
      → Has name p s
      → Has name p (failed_with r s wc l)
  unfolding reenqueue_leases
  failed_with-Has (ok d) s l h = h
  failed_with-Has (err e) s l h = h

  governed-Has :
      (leases : Leases) (pods : List Pod) (o : Outcome)
      → Has name p o.store
      → Has name p (reconcile_governed lib hash time faults wc now leases pods o).store
  unfolding reconcile_governed
  governed-Has leases [] o h = h
  governed-Has leases (pod ∷ pods) o h =
      let one = reconcile_pod_pdb hash time faults wc now o.store pod leases in
      governed-Has leases pods _ (
        failed_with-Has one.0 one.1 (lease_of leases pod)
          (reconcile_pod_pdb-Has hash time faults wc now name p foreign o.store pod leases h))

  delete_unless-Has :
      (s : Store) (key : Str) (r : Result NamespaceError Bool)
      → Has name p s
      → Has name p (delete_unless lib hash time faults wc now s key r).1
  delete_unless-Has s key (err e) h = h
  delete_unless-Has s key (ok true) h = h
  delete_unless-Has s key (ok false) h = deletes s key h

  delete_stale-Has :
      (g : Bool) (enforced : Option WorkloadClass) (wcs : List WorkloadClass) (users : List Pdb)
      (s : Store) (key : Str) (r : Result PdbError (Option Pod))
      → Has name p s
      → Has name p (delete_stale lib hash time faults wc now g enforced wcs users s key r).1
  delete_stale-Has g enforced wcs users s key (err e) h = h
  delete_stale-Has g enforced wcs users s key (ok pod) h =
      delete_unless-Has s key (is_adopted lib hash time faults wc now g enforced wcs users pod) h

  if-Has :
      (b : Bool) (q r : List NamespaceError × Store)
      → Has name p q.1
      → Has name p r.1
      → Has name p (if b then q else r).1
  if-Has true q r h k = h
  if-Has false q r h k = k

  clean_owned-Has :
      (g : Bool) (enforced : Option WorkloadClass) (wcs : List WorkloadClass) (users : List Pdb)
      (kept : List Str) (s : Store) (pdbs : List Pdb)
      → Has name p s
      → Has name p (clean_owned lib hash time faults wc now g enforced wcs users kept s pdbs).1
  unfolding clean_owned
  clean_owned-Has g enforced wcs users kept s [] h = h
  clean_owned-Has g enforced wcs users kept s (pdb ∷ pdbs) h =
      let found = get_pod_for_pdb hash faults s pdb.name in
      let stale = delete_stale lib hash time faults wc now g enforced wcs users s pdb.name found in
      clean_owned-Has g enforced wcs users kept
        (if contains kept pdb.name then ([], s) else stale).1 pdbs
        (if-Has (contains kept pdb.name) ([], s) stale h
          (delete_stale-Has g enforced wcs users s pdb.name found h))

  loops-Has :
      (g : Bool) (enforced : Option WorkloadClass) (wcs : List WorkloadClass)
      (owned users : List Pdb) (pending : List PendingLease) (s : Store) (pods : List Pod)
      → Has name p s
      → Has name p
          (reconcile_loops lib hash time faults wc now g enforced wcs owned users pending s
            pods).store
  unfolding reconcile_loops
  loops-Has g enforced wcs owned users pending s pods h =
      clean_owned-Has g enforced wcs users _ _ owned (
        governed-Has (leases_by_pod pending []) pods
          (record { requeue = pos 0; errors = []; store = s }) h)

  with_governed-Has :
      (g : Bool) (enforced : Option WorkloadClass) (wcs : List WorkloadClass) (users : List Pdb)
      (pending : List PendingLease) (s : Store) (owned : List Pdb)
      (r : Result NamespaceError (List Pod))
      → Has name p s
      → Has name p
          (with_governed lib hash time faults wc now g enforced wcs users pending s owned r).store
  unfolding reenqueue_leases
  with_governed-Has g enforced wcs users pending s owned (err e) h = h
  with_governed-Has g enforced wcs users pending s owned (ok pods) h =
      loops-Has g enforced wcs owned users pending s pods h

  with_classes-Has :
      (g : Bool) (pdbs : List Pdb) (pending : List PendingLease) (s : Store)
      (enforced : Option WorkloadClass) (r : Result Str (List WorkloadClass))
      → Has name p s
      → Has name p (with_classes lib hash time faults wc now g pdbs pending s enforced r).store
  unfolding reenqueue_leases
  with_classes-Has g pdbs pending s enforced (err e) h = h
  with_classes-Has g pdbs pending s enforced (ok wcs) h =
      with_governed-Has g enforced wcs (user_pdbs wc pdbs) pending s (owned_pdbs wc pdbs)
        (governed_pods lib hash time faults wc now enforced wcs (user_pdbs wc pdbs)
          (objects s.pods))
        h

  with_enforced-Has :
      (client : Client) (g : Bool) (pdbs : List Pdb) (pending : List PendingLease) (s : Store)
      (r : Result ResolveError (Option WorkloadClass))
      → Has name p s
      → Has name p (with_enforced lib hash time faults wc now client g pdbs pending s r).store
  unfolding reenqueue_leases
  with_enforced-Has client g pdbs pending s (err e) h = h
  with_enforced-Has client g pdbs pending s (ok enforced) h =
      with_classes-Has g pdbs pending s enforced (client.list_workload_classes wc.namespace) h

  with_pdbs-Has :
      (client : Client) (reason : Str) (g : Bool) (pending : List PendingLease) (s : Store)
      (fault : Option Str) (pdbs : List Pdb)
      → Has name p s
      → Has name p
          (with_pdbs lib hash time faults wc now client reason g pending s fault pdbs).store
  unfolding reenqueue_leases
  with_pdbs-Has client reason g pending s (some e) pdbs h = h
  with_pdbs-Has client reason g pending s none pdbs h = elim (Bool-cases (protects_pods reason g)) [
    | inl b ↦ rw b (
        with_enforced-Has client g pdbs pending s
          (namespace_enforced_workload_class client wc.namespace) h)
    | inr b ↦ rw b (open_owned-Has s (owned_pdbs wc pdbs) (user_pdbs wc pdbs) h)
  ]

  -- A budget that no WorkloadClass manages and that has another controller, or none, than this WorkloadClass
  -- stays as it is under its name through reconcilePDBs, whatever the reason of the condition, the requests for
  -- leases, and the calls that fail.
  pub reconcile_pdbs-Has :
      (client : Client) (reason : Str) (has_guardrails : Bool) (pending : List PendingLease)
      (s : Store)
      → Has name p s
      → Has name p
          (reconcile_pdbs lib hash time faults wc now client reason has_guardrails pending s).store
  unfolding reconcile_pdbs
  reconcile_pdbs-Has client reason g pending s h =
      elim (Bool-cases (is_none wc.deletion_timestamp)) [
        | inl b ↦ rw b (with_pdbs-Has client reason g pending s faults.list_pdbs (objects s.pdbs) h)
        | inr b ↦ rw b h
      ]
