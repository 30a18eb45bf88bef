-- ===== src/Controller/Protected.antt =====
-- Without failing calls every governed Pod has its budget after it was reconciled.
use workload_class.Prelude.{
  ℕ, ◌≡◌, ◌<◌, refl, ap, ◌∙◌, subst, arith, true, Option, none, some, ◌==◌, ==_refl, str_eq, Str,
  lookup, lookup-insert, ltb, ltb→lt, Result, ok, ◌>>=◌, Bool-cases, inl, inr,
}
use workload_class.Prelude.Int.{ℤ, pos}
use workload_class.Kube.Objects.{Pod, Pdb}
use workload_class.Api.{WorkloadClass, Subject, pod_uid_label}
use workload_class.LeaseTracker.{PendingLease, Leases}
use workload_class.PdbName.{pdb_name}
use workload_class.Pdb.{
  TimeFormat, get, is_workload_class_managed_pdb, pdb_base, sync_pdb, with_lease,
  lease_time_remaining, lease_expired, subject_already_leasing, lease_duration_for_pod,
}
use workload_class.Controller.Store.{
  Store, Faults, PdbError, fetch_pdb, put_pdb, created_or_updated, create_or_update, reference_to,
  claim_pdb,
}
use workload_class.Controller.Pdbs.{
  lease_of, if_same_uid, with_uid_label, ensure_pod_uid_label, sync_pod_pdb, lease_pod_pdb,
  active_lease_remaining, with_time, sync_unless_leased, allows_lease, apply_lease, with_existing,
  with_label, reconcile_pod_pdb,
}
use workload_class.Controller.Leased.{
  IsEnsured, not_patched, had_label, was_patched, ensure-IsEnsured,
}

module _ (hash : Str → Str) (time : TimeFormat) (faults : Faults) (wc : WorkloadClass) (now : ℕ)
    (pod : Pod) where
  -- There is no budget yet, or one that a WorkloadClass manages.
  abbrev pub IsClaimable : Option Pdb → Type 0
  IsClaimable none = Unit
  IsClaimable (some pdb) = is_workload_class_managed_pdb (some pdb) ≡ true

  -- The budget, or a new one, with this WorkloadClass as its controller.
  abbrev pub claimed : Option Pdb → Pdb
  claimed none = record (pdb_base hash pod) { controller = some (reference_to wc) }
  claimed (some pdb) = record pdb { controller = some (reference_to wc) }

  -- The budget that is left: one under a lease, one that was leased for a request, or one in sync with the
  -- WorkloadClass.
  pub data IsLeft (existing : Option Pdb) (l : Option PendingLease) (q : Pdb) : Type 0 where
    leased_before :
        existing ≡ some q → 0 < lease_time_remaining time now (some q) → IsLeft existing l q
    leased_now :
        (request : PendingLease)
        → l ≡ some request
        → q ≡ with_lease time hash now (claimed existing) pod request.subject
        → IsLeft existing l q
    synced : q ≡ sync_pdb hash wc pod (claimed existing) true → IsLeft existing l q

  abbrev pub Leaves : Store → Option Pdb → Option PendingLease → Result PdbError ℤ × Store → Type 0
  Leaves s existing l r =
      (d : ℤ) × (q : Pdb) × (r.0 ≡ ok d)
      × (lookup (pdb_name hash pod.name) r.1.pdbs ≡ some q)
      × IsLeft existing l q

  active-some :
      (o : Option Pdb)
      → 0 < active_lease_remaining hash time faults wc now o pod
      → (q : Pdb) × (o ≡ some q) × (0 < lease_time_remaining time now (some q))
  unfolding active_lease_remaining
  active-some none h = absurd (omega arith)
  active-some (some q) h = (q, refl, ground arith)

  leasing-some :
      (o : Option Pdb) (subject : Subject)
      → subject_already_leasing time now o (some pod) subject ≡ true
      → (q : Pdb) × (o ≡ some q) × (0 < lease_time_remaining time now (some q))
  unfolding subject_already_leasing lease_expired
  leasing-some none subject h = ground arith
  leasing-some (some q) subject h = (q, refl, ground arith)

  module _ (s : Store) (existing : Option Pdb) (l : Option PendingLease)
      (found : lookup (pdb_name hash pod.name) s.pdbs ≡ existing) (claimable : IsClaimable existing)
      (readable : faults.get_pdb (pdb_name hash pod.name) ≡ none)
      (writable : faults.write_pdb (pdb_name hash pod.name) ≡ none) where
    written_as :
        (f : Pdb → Pdb)
        → create_or_update faults s
            (pdb_base hash pod)
            (λ exists pdb. claim_pdb wc exists pdb >>= λ p. ok (f p))
          ≡ (ok tt, put_pdb s (pdb_name hash pod.name) (f (claimed existing)))
    unfolding create_or_update fetch_pdb pdb_base
    written_as f = rw (readable, found) (by_existing existing claimable)
      where
        by_existing :
            (o : Option Pdb)
            → IsClaimable o
            → created_or_updated faults s
                (pdb_base hash pod)
                (λ exists pdb. claim_pdb wc exists pdb >>= λ p. ok (f p))
                (ok o)
              ≡ (ok tt, put_pdb s (pdb_name hash pod.name) (f (claimed o)))
        by_existing none c = unfold claim_pdb in rw writable refl
        by_existing (some pdb) c = unfold claim_pdb in rw (c, writable) refl

    Leaves-put :
        (d : ℤ) (q : Pdb) (r : Result PdbError (Unit {0}) × Store)
        → r ≡ (ok tt, put_pdb s (pdb_name hash pod.name) q)
        → IsLeft existing l q
        → Leaves s existing l (with_time hash time faults wc now d r)
    Leaves-put d q r e h =
        rw e (d, q, refl, ground (arith, lookup-insert name name q s.pdbs, ==_refl name), h)
      where
        name : Str
        name = pdb_name hash pod.name

    Leaves-before :
        (d : ℤ)
        → (q : Pdb) × (existing ≡ some q) × (0 < lease_time_remaining time now (some q))
        → Leaves s existing l (ok d, s)
    Leaves-before d (q, e, h) = (d, q, refl, found ∙ e, leased_before e h)

    sync_unless-Leaves :
        Leaves s existing l (sync_unless_leased hash time faults wc now s pod existing)
    unfolding sync_unless_leased sync_pod_pdb
    sync_unless-Leaves =
        elim (Bool-cases (ltb 0 (active_lease_remaining hash time faults wc now existing pod))) [
          | inl e ↦ rw e (
              Leaves-before (pos (active_lease_remaining hash time faults wc now existing pod))
                (active-some existing (ltb→lt _ _ e)))
          | inr e ↦ rw e (
              Leaves-put (pos 0) (sync_pdb hash wc pod (claimed existing) true) _
                (written_as (λ p. sync_pdb hash wc pod p true)) (synced refl))
        ]

    request-Leaves :
        (request : PendingLease)
        → l ≡ some request
        → Leaves s existing l (apply_lease hash time faults wc now s pod existing (some request))
    unfolding apply_lease lease_pod_pdb
    request-Leaves request e =
        elim (Bool-cases (subject_already_leasing time now existing (some pod) request.subject)) [
          | inl b ↦ rw b (
              Leaves-before (pos (lease_time_remaining time now existing))
                (leasing-some existing request.subject b))
          | inr b ↦ elim (Bool-cases (allows_lease hash time faults wc now existing pod)) [
            | inl a ↦
                rw (b, a)
                  (Leaves-put (lease_duration_for_pod (some pod))
                    (with_lease time hash now (claimed existing) pod request.subject) _
                    (written_as (λ p. with_lease time hash now p pod request.subject))
                    (leased_now request e refl))
            | inr a ↦ rw (b, a) sync_unless-Leaves
          ]
        ]

    apply_lease-Leaves :
        (o : Option PendingLease)
        → l ≡ o
        → Leaves s existing l (apply_lease hash time faults wc now s pod existing o)
    unfolding apply_lease
    apply_lease-Leaves none e = sync_unless-Leaves
    apply_lease-Leaves (some request) e = request-Leaves request e

-- The label plays no part in the budget.
IsLeft-with_uid_label :
    (hash : Str → Str) (time : TimeFormat) (faults : Faults) (wc : WorkloadClass) (now : ℕ)
    (pod : Pod) (existing : Option Pdb) (l : Option PendingLease) (q : Pdb)
    → IsLeft hash time faults wc now (with_uid_label pod) existing l q
    → IsLeft hash time faults wc now pod existing l q
unfolding with_lease sync_pdb pdb_base lease_duration_for_pod
IsLeft-with_uid_label hash time faults wc now pod none l q (leased_before e h) = leased_before e h
IsLeft-with_uid_label hash time faults wc now pod none l q (leased_now r e h) = leased_now r e h
IsLeft-with_uid_label hash time faults wc now pod none l q (synced h) = synced h
IsLeft-with_uid_label hash time faults wc now pod (some p) l q (leased_before e h) =
    leased_before e h
IsLeft-with_uid_label hash time faults wc now pod (some p) l q (leased_now r e h) = leased_now r e h
IsLeft-with_uid_label hash time faults wc now pod (some p) l q (synced h) = synced h

lease_of-with_uid_label :
    (leases : Leases) (pod : Pod) → lease_of leases (with_uid_label pod) ≡ lease_of leases pod
unfolding lease_of
lease_of-with_uid_label leases pod = same (lookup pod.name leases)
  where
    same : (o : Option PendingLease) → if_same_uid o (with_uid_label pod) ≡ if_same_uid o pod
    same none = refl
    same (some l) = refl

module _ (hash : Str → Str) (time : TimeFormat) (faults : Faults) (wc : WorkloadClass)
    (now : ℕ) where
  existing-Leaves :
      (s : Store) (pod : Pod) (existing : Option Pdb) (leases : Leases)
      → lookup (pdb_name hash pod.name) s.pdbs ≡ existing
      → IsClaimable hash time faults wc now pod existing
      → faults.get_pdb (pdb_name hash pod.name) ≡ none
      → faults.write_pdb (pdb_name hash pod.name) ≡ none
      → Leaves hash time faults wc now pod s existing (lease_of leases pod) (
          with_existing hash time faults wc now s pod leases
            (fetch_pdb faults s (pdb_name hash pod.name)))
  unfolding fetch_pdb
  existing-Leaves s pod existing leases f c r w =
      rw (r, f)
        (apply_lease-Leaves hash time faults wc now pod s existing (lease_of leases pod) f c r w
          (lease_of leases pod) refl)

  Leaves-with_uid_label :
      (s t : Store) (pod : Pod) (existing : Option Pdb) (leases : Leases)
      (r : Result PdbError ℤ × Store)
      → Leaves hash time faults wc now
          (with_uid_label pod)
          t
          existing
          (lease_of leases (with_uid_label pod))
          r
      → Leaves hash time faults wc now pod s existing (lease_of leases pod) r
  Leaves-with_uid_label s t pod existing leases r (d, q, e, f, h) = (
    d,
    q,
    e,
    f,
    subst (λ o. IsLeft hash time faults wc now pod existing o q)
        (lease_of-with_uid_label leases pod)
        (IsLeft-with_uid_label hash time faults wc now pod existing
          (lease_of leases (with_uid_label pod)) q h),
  )

  label-Leaves :
      (s : Store) (pod : Pod) (existing : Option Pdb) (leases : Leases)
      (r : Result PdbError Pod × Store)
      → lookup (pdb_name hash pod.name) s.pdbs ≡ existing
      → IsClaimable hash time faults wc now pod existing
      → faults.get_pdb (pdb_name hash pod.name) ≡ none
      → faults.write_pdb (pdb_name hash pod.name) ≡ none
      → IsEnsured s pod r
      → (p : Pod) × (r.0 ≡ ok p)
      → Leaves hash time faults wc now pod s existing
          (lease_of leases pod)
          (with_label hash time faults wc now leases r)
  label-Leaves s pod existing leases _ f c g w (not_patched e) (p, k) = ground arith
  label-Leaves s pod existing leases _ f c g w had_label k =
      existing-Leaves s pod existing leases f c g w
  label-Leaves s pod existing leases _ f c g w (was_patched t e) k =
      Leaves-with_uid_label s t pod existing leases
        (with_existing hash time faults wc now t (with_uid_label pod) leases
          (fetch_pdb faults t (pdb_name hash pod.name)))
        (existing-Leaves t (with_uid_label pod) existing leases
          (ap (lookup (pdb_name hash pod.name)) e ∙ f) c g w)

  patched-ok :
      (s : Store) (pod : Pod)
      → faults.patch_pod pod.name ≡ none
      → (p : Pod) × ((ensure_pod_uid_label faults s pod).0 ≡ ok p)
  unfolding ensure_pod_uid_label
  patched-ok s pod h = elim (Bool-cases (get pod.labels pod_uid_label == pod.uid)) [
    | inl e ↦ (pod, rw e refl)
    | inr e ↦ (with_uid_label pod, rw (e, h) refl)
  ]

  -- If no call on the Pod and its budget fails and the budget is missing or managed by a WorkloadClass, then
  -- reconcilePodPDB succeeds, and under the Pod's budget name there is then a budget: the one that was there,
  -- under a lease that has not run out; or that budget, or a new one, owned by this WorkloadClass and leased to
  -- the subject of a request for this instance of the Pod; or so owned and in sync with the readiness.
  pub reconcile_pod_pdb-Leaves :
      (s : Store) (pod : Pod) (existing : Option Pdb) (leases : Leases)
      → lookup (pdb_name hash pod.name) s.pdbs ≡ existing
      → IsClaimable hash time faults wc now pod existing
      → faults.get_pdb (pdb_name hash pod.name) ≡ none
      → faults.write_pdb (pdb_name hash pod.name) ≡ none
      → faults.patch_pod pod.name ≡ none
      → Leaves hash time faults wc now pod s existing
          (lease_of leases pod)
          (reconcile_pod_pdb hash time faults wc now s pod leases)
  unfolding reconcile_pod_pdb
  reconcile_pod_pdb-Leaves s pod existing leases f c g w h =
      label-Leaves s pod existing leases _ f c g w (ensure-IsEnsured faults s pod)
        (patched-ok s pod h)
