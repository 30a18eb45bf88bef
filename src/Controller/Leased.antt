-- ===== src/Controller/Leased.antt =====
-- What reconcilePodPDB leaves in the budget of a governed Pod.
use workload_class.Prelude.{
  ℕ, ◌≡◌, ◌<◌, refl, ap, ◌∙◌, arith, Bool, true, false, Option, none, some, ◌==◌, str_eq, Str,
  lookup, lt→ltb, if◌then◌else◌, Result, ok, err, Bool-cases, inl, inr,
}
use workload_class.Prelude.Int.{ℤ}
use workload_class.Kube.Objects.{Pod, Pdb}
use workload_class.Api.{WorkloadClass, pod_uid_label}
use workload_class.LeaseTracker.{PendingLease, Leases}
use workload_class.PdbName.{pdb_name}
use workload_class.Pdb.{
  TimeFormat, get, is_workload_class_managed_pdb, lease_expired, allow_lease,
  subject_already_leasing,
}
use workload_class.Controller.Store.{Store, Faults, PdbError, found_unless, fetch_pdb}
use workload_class.Controller.Pdbs.{
  lease_of, with_uid_label, patched, ensure_pod_uid_label, active_lease_remaining,
  sync_unless_leased, apply_lease, with_existing, with_label, reconcile_pod_pdb,
}

module _ (hash : Str → Str) (time : TimeFormat) (faults : Faults) (wc : WorkloadClass) (now : ℕ)
    (pod : Pod) where
  -- A subject holds a lease on the budget for this instance of the Pod, and it has not run out.
  abbrev pub IsLeased : Pdb → Type 0
  IsLeased pdb =
      (is_workload_class_managed_pdb (some pdb) ≡ true)
      × (0 < active_lease_remaining hash time faults wc now (some pdb) pod)

  leased-allow : (pdb : Pdb) → IsLeased pdb → allow_lease time now (some pdb) (some pod) ≡ false
  unfolding allow_lease active_lease_remaining lease_expired
  leased-allow pdb h = ground (arith, h.0, h.1)

  if-same :
      (s : Store) (a b : Bool) (x y z : Result PdbError ℤ × Store)
      → x.1.pdbs ≡ s.pdbs
      → b ≡ false
      → z.1.pdbs ≡ s.pdbs
      → (if a then x else if b then y else z).1.pdbs ≡ s.pdbs
  if-same s true b x y z h e k = h
  if-same s false b x y z h e k = rw e k

  sync_unless-leased :
      (s : Store) (pdb : Pdb)
      → IsLeased pdb
      → (sync_unless_leased hash time faults wc now s pod (some pdb)).1.pdbs ≡ s.pdbs
  unfolding sync_unless_leased
  sync_unless-leased s pdb h = rw (lt→ltb _ _ h.1) refl

  apply_lease-leased :
      (s : Store) (pdb : Pdb) (l : Option PendingLease)
      → IsLeased pdb
      → (apply_lease hash time faults wc now s pod (some pdb) l).1.pdbs ≡ s.pdbs
  unfolding apply_lease
  apply_lease-leased s pdb none h = sync_unless-leased s pdb h
  apply_lease-leased s pdb (some l) h =
      if-same s (subject_already_leasing time now (some pdb) (some pod) l.subject)
        (allow_lease time now (some pdb) (some pod)) _ _ _ refl (leased-allow pdb h)
        (sync_unless-leased s pdb h)

-- How ensurePodUIDLabel ends.
pub data IsEnsured (s : Store) (pod : Pod) : Result PdbError Pod × Store → Type 0 where
  not_patched : (e : PdbError) → IsEnsured s pod (err e, s)
  had_label : IsEnsured s pod (ok pod, s)
  was_patched : (t : Store) → t.pdbs ≡ s.pdbs → IsEnsured s pod (ok (with_uid_label pod), t)

patched-IsEnsured :
    (fault : Option Str) (s : Store) (pod : Pod) → IsEnsured s pod (patched fault s pod)
patched-IsEnsured none s pod = was_patched _ refl
patched-IsEnsured (some e) s pod = not_patched _

pub ensure-IsEnsured :
    (faults : Faults) (s : Store) (pod : Pod) → IsEnsured s pod (ensure_pod_uid_label faults s pod)
unfolding ensure_pod_uid_label
ensure-IsEnsured faults s pod = elim (Bool-cases (get pod.labels pod_uid_label == pod.uid)) [
  | inl e ↦ rw e had_label
  | inr e ↦ rw e (patched-IsEnsured (faults.patch_pod pod.name) s pod)
]

module _ (hash : Str → Str) (time : TimeFormat) (faults : Faults) (wc : WorkloadClass)
    (now : ℕ) where
  existing-leased :
      (s : Store) (pod : Pod) (pdb : Pdb) (leases : Leases) (fault : Option Str)
      → lookup (pdb_name hash pod.name) s.pdbs ≡ some pdb
      → IsLeased hash time faults wc now pod pdb
      → (with_existing hash time faults wc now s pod leases
          (found_unless fault (lookup (pdb_name hash pod.name) s.pdbs))).1.pdbs
        ≡ s.pdbs
  existing-leased s pod pdb leases (some e) f h = refl
  existing-leased s pod pdb leases none f h =
      rw f (apply_lease-leased hash time faults wc now pod s pdb (lease_of leases pod) h)

  label-leased :
      (s : Store) (pod : Pod) (pdb : Pdb) (leases : Leases) (r : Result PdbError Pod × Store)
      → lookup (pdb_name hash pod.name) s.pdbs ≡ some pdb
      → IsLeased hash time faults wc now pod pdb
      → IsEnsured s pod r
      → (with_label hash time faults wc now leases r).1.pdbs ≡ s.pdbs
  unfolding fetch_pdb active_lease_remaining
  label-leased s pod pdb leases _ f h (not_patched e) = refl
  label-leased s pod pdb leases _ f h had_label = existing-leased s pod pdb leases _ f h
  label-leased s pod pdb leases _ f h (was_patched t e) =
      existing-leased t (with_uid_label pod) pdb leases _
        (ap (lookup (pdb_name hash pod.name)) e ∙ f) h
      ∙ e

  -- While a subject holds a lease on the budget of a Pod, reconciling the Pod changes no budget, whatever
  -- other leases are requested and whichever calls fail.
  pub reconcile_pod_pdb-leased :
      (s : Store) (pod : Pod) (pdb : Pdb) (leases : Leases)
      → lookup (pdb_name hash pod.name) s.pdbs ≡ some pdb
      → IsLeased hash time faults wc now pod pdb
      → (reconcile_pod_pdb hash time faults wc now s pod leases).1.pdbs ≡ s.pdbs
  unfolding reconcile_pod_pdb
  reconcile_pod_pdb-leased s pod pdb leases f h =
      label-leased s pod pdb leases (ensure_pod_uid_label faults s pod) f h
        (ensure-IsEnsured faults s pod)
