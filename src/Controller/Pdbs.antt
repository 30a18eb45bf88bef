-- ===== src/Controller/Pdbs.antt =====
-- internal/controller/workloadclass_controller.go: the budget of one Pod. Each function takes the store and
-- returns it with its result; the time that is returned is until a lease expires.
use workload_class.Prelude.{
  ℕ, Bool, true, not, ◌||◌, Option, none, some, List, [], ◌∷◌, ltb, ◌==◌, str_eq, Str, lookup,
  insert, if◌then◌else◌, Result, ok, err, ◌>>=◌,
}
use workload_class.Prelude.Int.{ℤ, pos}
use workload_class.Kube.Objects.{Pod, Pdb}
use workload_class.Api.{WorkloadClass, Subject, pod_uid_label}
use workload_class.LeaseTracker.{PendingLease, Leases}
use workload_class.PdbName.{pdb_name}
use workload_class.Pdb.{
  TimeFormat, bypass_owner, get, pdb_base, sync_pdb, with_lease, lease_time_remaining, allow_lease,
  subject_already_leasing, lease_duration_for_pod,
}
use workload_class.Controller.Store.{
  Store, Faults, PdbError, call_failed, fetch_pdb, create_or_update, claim_pdb,
}

-- The map of the leases by Pod: a later one replaces an earlier one.
unfoldable pub leases_by_pod : List PendingLease → Leases → Leases
leases_by_pod [] m = m
leases_by_pod (l ∷ ls) m = leases_by_pod ls (insert l.pod_name l m)

abbrev pub if_same_uid : Option PendingLease → Pod → Option PendingLease
if_same_uid none pod = none
if_same_uid (some l) pod = if l.pod_uid == pod.uid then some l else none

-- `lease, ok := leases[pod.Name]; ok && lease.PodUID == pod.UID`
unfoldable pub lease_of : Leases → Pod → Option PendingLease
lease_of leases pod = if_same_uid (lookup pod.name leases) pod

abbrev pub with_uid_label : Pod → Pod
with_uid_label pod = record pod { labels = insert pod_uid_label pod.uid pod.labels }

abbrev pub patched : Option Str → Store → Pod → Result PdbError Pod × Store
patched (some e) s pod = (err (call_failed e), s)
patched none s pod =
    (ok (with_uid_label pod), record s { pods = insert pod.name (with_uid_label pod) s.pods })

-- ensurePodUIDLabel
unfoldable pub ensure_pod_uid_label : Faults → Store → Pod → Result PdbError Pod × Store
ensure_pod_uid_label faults s pod =
    if get pod.labels pod_uid_label == pod.uid
    then (ok pod, s)
    else patched (faults.patch_pod pod.name) s pod

module _ (hash : Str → Str) (time : TimeFormat) (faults : Faults) (wc : WorkloadClass)
    (now : ℕ) where
  -- syncPodPDB
  unfoldable pub sync_pod_pdb : Store → Pod → Bool → Result PdbError (Unit {0}) × Store
  sync_pod_pdb s pod valid =
      create_or_update faults s (pdb_base hash pod)
        (λ exists pdb. claim_pdb wc exists pdb >>= λ p. ok (sync_pdb hash wc pod p valid))

  -- leasePodPDB
  unfoldable pub lease_pod_pdb : Store → Pod → Subject → Result PdbError (Unit {0}) × Store
  lease_pod_pdb s pod subject =
      create_or_update faults s (pdb_base hash pod)
        (λ exists pdb. claim_pdb wc exists pdb >>= λ p. ok (with_lease time hash now p pod subject))

  -- activeLeaseRemaining
  unfoldable pub active_lease_remaining : Option Pdb → Pod → ℕ
  active_lease_remaining none pod = 0
  active_lease_remaining (some pdb) pod =
      if not (get pdb.labels pod_uid_label == pod.uid) || (get pdb.annotations bypass_owner == [])
      then 0
      else lease_time_remaining time now (some pdb)

  abbrev pub with_time {ℓ} :
      {A : Type ℓ} → ℤ → Result PdbError A × Store → Result PdbError ℤ × Store
  with_time d (ok u, s) = (ok d, s)
  with_time d (err e, s) = (err e, s)

  -- The end of reconcilePodPDB: a leased budget is left alone.
  unfoldable pub sync_unless_leased : Store → Pod → Option Pdb → Result PdbError ℤ × Store
  sync_unless_leased s pod existing =
      let remaining = active_lease_remaining existing pod in
      if ltb 0 remaining
      then (ok (pos remaining), s)
      else with_time (pos 0) (sync_pod_pdb s pod true)

  abbrev pub allows_lease : Option Pdb → Pod → Bool
  allows_lease none pod = true
  allows_lease (some pdb) pod = allow_lease time now (some pdb) (some pod)

  -- The switch on a request for a lease.
  unfoldable pub apply_lease :
      Store → Pod → Option Pdb → Option PendingLease → Result PdbError ℤ × Store
  apply_lease s pod existing none = sync_unless_leased s pod existing
  apply_lease s pod existing (some l) =
      if subject_already_leasing time now existing (some pod) l.subject
      then (ok (pos (lease_time_remaining time now existing)), s)
      else if allows_lease existing pod
      then with_time (lease_duration_for_pod (some pod)) (lease_pod_pdb s pod l.subject)
      else sync_unless_leased s pod existing

  abbrev pub with_existing :
      Store → Pod → Leases → Result PdbError (Option Pdb) → Result PdbError ℤ × Store
  with_existing s pod leases (err e) = (err e, s)
  with_existing s pod leases (ok existing) = apply_lease s pod existing (lease_of leases pod)

  abbrev pub with_label : Leases → Result PdbError Pod × Store → Result PdbError ℤ × Store
  with_label leases (err e, s) = (err e, s)
  with_label leases (ok pod, s) =
      with_existing s pod leases (fetch_pdb faults s (pdb_name hash pod.name))

  -- reconcilePodPDB
  unfoldable pub reconcile_pod_pdb : Store → Pod → Leases → Result PdbError ℤ × Store
  reconcile_pod_pdb s pod leases = with_label leases (ensure_pod_uid_label faults s pod)
