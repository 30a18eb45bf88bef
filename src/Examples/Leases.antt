-- ===== src/Examples/Leases.antt =====
-- A lease on the budget of the sample Pod, from its request on.
use mathlib.Core.List.{Mem}
use workload_class.Prelude.{
  lookup, ◌≡◌, refl, arith, ℕ, ◌+◌, ◌*◌, ◌^◌, true, none, some, [], ◌∷◌, ltb, leb, str_eq, ==_refl,
  lit, lookup, inr,
}
use workload_class.Prelude.Int.{pos, negsuc}
use workload_class.Kube.Objects.{Pod, Pdb, key_eq}
use workload_class.LeaseTracker.{
  Tracker, new_pending_lease_tracker, enqueue_lease, drain_leases, key_of, leases_of,
}
use workload_class.LeaseTracker.Requests.{request_of, lease_for}
use workload_class.LeaseTracker.History.{receives, enqueues, run, run-first_wins}
use workload_class.PdbName.{pdb_name, pod_name_from_pdb_name}
use workload_class.PdbName.Laws.{pod_name-pdb_name}
use workload_class.Pdb.{
  is_pdb_open, with_lease, subject_already_leasing, allow_lease, lease_duration_for_pod, seconds,
  is_workload_class_managed_pdb,
}
use workload_class.Pdb.Lease.{with_lease-until_expiry}
use workload_class.Pdb.Owner.{lease_duration_wraps}
use workload_class.Examples.Samples.{time_format, hash, pod, pdb, web_class, a_user, a_group}

abbrev tracker : Tracker
tracker = new_pending_lease_tracker (pos 0)

abbrev filled : Tracker
filled = (enqueue_lease tracker web_class pod a_user).0

no_request : request_of tracker (key_of web_class) pod.name ≡ none
unfolding request_of leases_of new_pending_lease_tracker lookup
no_request = refl

run-first_wins_example :
    Mem
      (lease_for pod a_user)
      (drain_leases
        (run filled (receives ∷ enqueues web_class pod a_group ∷ []))
        (key_of web_class)).1
run-first_wins_example =
    run-first_wins tracker web_class pod a_user (receives ∷ enqueues web_class pod a_group ∷ [])
      no_request (tt, (inr refl, tt))

pod_name-pdb_name_example : pod_name_from_pdb_name (pdb_name hash (lit "web-0")) ≡ lit "web-0"
pod_name-pdb_name_example = pod_name-pdb_name hash (lit "web-0") (unfold lit in omega arith)

lasts_forty : lease_duration_for_pod (some pod) ≡ pos (40 * 10 ^ 9)
unfolding lease_duration_for_pod seconds
lasts_forty = refl

managed : is_workload_class_managed_pdb (some pdb) ≡ true
unfolding is_workload_class_managed_pdb
managed = ==_refl (lit "WorkloadClass")

abbrev leased : Pdb
leased = with_lease time_format hash 5 pdb pod a_user

with_lease-until_expiry_example :
    (is_pdb_open (some leased) ≡ true)
    × (subject_already_leasing time_format 9 (some leased) (some pod) a_user
        ≡ ltb 9 (5 + 40 * 10 ^ 9))
    × (allow_lease time_format 9 (some leased) (some pod) ≡ leb (5 + 40 * 10 ^ 9) 9)
with_lease-until_expiry_example =
    with_lease-until_expiry time_format hash 5 pdb pod a_user (40 * 10 ^ 9) 9 managed lasts_forty
      (omega arith)

holds_lease : subject_already_leasing time_format 9 (some leased) (some pod) a_user ≡ true
holds_lease =
    let h =
      with_lease-until_expiry time_format hash 5 pdb pod a_user (40 * 10 ^ 9) 9 managed lasts_forty
        (omega arith) in
    h.1

abbrev patient : Pod
patient = record pod { termination_grace_period_seconds = some (pos 9300000000) }

lease_duration_wraps_example : (m : ℕ) × (lease_duration_for_pod (some patient) ≡ negsuc m)
lease_duration_wraps_example =
    lease_duration_wraps patient 9300000000 refl refl (omega arith) (omega arith)
