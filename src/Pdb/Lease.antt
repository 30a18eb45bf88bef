-- ===== src/Pdb/Lease.antt =====
-- A lease on a PodDisruptionBudget, from when it is granted to when it has run out.
use workload_class.Prelude.{
  ltb, leb, ◌↔◌, ℕ, ◌+◌, ◌-◌, ◌≤◌, ◌≡◌, refl, arith, true, false, some, List, [], Str, str_eq,
  str_beq, lit, insert, lookup-insert, ==_refl, ==_iff, ◌==◌,
}
use workload_class.Prelude.Int.{pos, pos_part, neg_part}
use workload_class.Kube.Objects.{Pod, Pdb}
use workload_class.Api.{Subject, pod_uid_label}
use workload_class.Pdb.{
  bypass_owner, bypass_expiration, TimeFormat, get, bypass_owner_value, lease_duration_for_pod,
  is_workload_class_managed_pdb, is_pdb_open, lease_time_remaining, lease_expired, allow_lease,
  subject_already_leasing, with_lease,
}

module _ (time : TimeFormat) where
  -- While a subject holds a lease on a budget, no new one may be granted there, and any subject
  -- holds the lease exactly if its owner value is the same.
  pub leasing_exclusive :
      (now : ℕ) (pdb : Pdb) (pod : Pod) (s r : Subject)
      → subject_already_leasing time now (some pdb) (some pod) s ≡ true
      → (allow_lease time now (some pdb) (some pod) ≡ false)
        × ((subject_already_leasing time now (some pdb) (some pod) r ≡ true)
            ↔ (bypass_owner_value r ≡ bypass_owner_value s))
  unfolding subject_already_leasing allow_lease
  leasing_exclusive now pdb pod s r h =
      let owner = get pdb.annotations bypass_owner in
      (
        ground arith,
        (
          λ k.
              ground
                (arith, ==_iff owner (bypass_owner_value s), ==_iff owner (bypass_owner_value r)),
          λ same. rw same h,
        ),
      )

owner-non_empty : (s : Subject) → (bypass_owner_value s == []) ≡ false
unfolding bypass_owner_value lit str_beq
owner-non_empty s = ground arith

keys-differ : (bypass_expiration == bypass_owner) ≡ false
unfolding lit str_beq
keys-differ = refl

get-insert_self : (m : List (Str × Str)) (k v : Str) → get (insert k v m) k ≡ v
unfolding get
get-insert_self m k v = ground (arith, lookup-insert k k v m, ==_refl k)

module _ (time : TimeFormat) (hash : Str → Str) (now : ℕ) (pdb : Pdb) (pod : Pod)
    (s : Subject) where
  abbrev leased : Pdb
  leased = with_lease time hash now pdb pod s

  leased-uid : get leased.labels pod_uid_label ≡ pod.uid
  unfolding with_lease
  leased-uid = get-insert_self pdb.labels pod_uid_label pod.uid

  leased-owner : get leased.annotations bypass_owner ≡ bypass_owner_value s
  unfolding with_lease get
  leased-owner = ground (
    arith,
    keys-differ,
    lookup-insert bypass_owner bypass_expiration
        (time.format (
          now
          + pos_part (lease_duration_for_pod (some pod))
          - neg_part (lease_duration_for_pod (some pod))))
        (insert bypass_owner (bypass_owner_value s) pdb.annotations),
    lookup-insert bypass_owner bypass_owner (bypass_owner_value s) pdb.annotations,
    ==_refl bypass_owner,
  )

  leased-remaining :
      (d later : ℕ)
      → lease_duration_for_pod (some pod) ≡ pos d
      → now + d ≤ time.last
      → lease_time_remaining time later (some leased) ≡ now + d - later
  unfolding with_lease lease_time_remaining
  leased-remaining d later h year = ground (
    arith,
    h,
    lookup-insert bypass_expiration bypass_expiration (time.format (now + d))
        (insert bypass_owner (bypass_owner_value s) pdb.annotations),
    ==_refl bypass_expiration,
    time.parse-format (now + d) year,
  )

  leased-managed :
      is_workload_class_managed_pdb (some leased) ≡ is_workload_class_managed_pdb (some pdb)
  unfolding with_lease is_workload_class_managed_pdb
  leased-managed = refl

  leased-open : is_pdb_open (some leased) ≡ true
  unfolding with_lease is_pdb_open
  leased-open = ==_refl (lit "100%")

  -- After PDBWithLease on a WorkloadClass-managed budget, the budget is open. If the Pod's lease lasts
  -- d nanoseconds, not negative, and ends before the year 10000, then the subject holds the lease exactly
  -- before its end, and a new lease may be granted, to anyone, exactly from its end on.
  pub with_lease-until_expiry :
      (d later : ℕ)
      → is_workload_class_managed_pdb (some pdb) ≡ true
      → lease_duration_for_pod (some pod) ≡ pos d
      → now + d ≤ time.last
      → (is_pdb_open (some leased) ≡ true)
        × (subject_already_leasing time later (some leased) (some pod) s ≡ ltb later (now + d))
        × (allow_lease time later (some leased) (some pod) ≡ leb (now + d) later)
  unfolding subject_already_leasing allow_lease lease_expired
  with_lease-until_expiry d later managed h year = (
    leased-open,
    ground (
      arith,
      leased-uid,
      leased-owner,
      leased-remaining d later h year,
      leased-managed,
      managed,
      owner-non_empty s,
      ==_refl pod.uid,
      ==_refl (bypass_owner_value s),
    ),
    ground (
      arith,
      leased-uid,
      leased-owner,
      leased-remaining d later h year,
      leased-managed,
      managed,
      owner-non_empty s,
      ==_refl pod.uid,
    ),
  )
