-- ===== src/Controller/Untouched.antt =====
-- The reconciler leaves the budgets of others alone.
use workload_class.Prelude.{
  ℕ, ◌≡◌, refl, sym, ap, ◌∙◌, subst, arith, Bool, true, false, Option, none, some, ◌==◌, ==_iff,
  str_eq, Str, lookup, lookup-insert, lookup-delete, if◌then◌else◌, Result, ok, err, ◌>>=◌,
  Bool-cases, inl, inr,
}
use workload_class.Prelude.Int.{ℤ, pos}
use workload_class.Kube.Objects.{Pod, Pdb}
use workload_class.Api.{WorkloadClass, Subject}
use workload_class.LeaseTracker.{PendingLease, Leases}
use workload_class.PdbName.{pdb_name}
use workload_class.Pdb.{
  TimeFormat, is_workload_class_managed_pdb, pdb_base, sync_pdb, with_lease,
  subject_already_leasing,
}
use workload_class.Controller.Store.{
  Store, Faults, PdbError, not_managed, found_unless, fetch_pdb, written, mutated,
  created_or_updated, create_or_update, is_controlled_by, claim_pdb, deleted, delete_found,
  delete_pdb,
}
use workload_class.Controller.Pdbs.{
  lease_of, ensure_pod_uid_label, sync_pod_pdb, lease_pod_pdb, active_lease_remaining, with_time,
  sync_unless_leased, allows_lease, apply_lease, with_existing, with_label, reconcile_pod_pdb,
}

-- No WorkloadClass manages the budget, and this one is not its controller.
abbrev pub IsForeign : WorkloadClass → Pdb → Type 0
IsForeign wc p = (is_workload_class_managed_pdb (some p) ≡ false) × (is_controlled_by p wc ≡ false)

abbrev pub Has : Str → Pdb → Store → Type 0
Has name p s = lookup name s.pdbs ≡ some p

abbrev pub Rejects : (Bool → Pdb → Result PdbError Pdb) → Pdb → Type 0
Rejects change p = (e : PdbError) × (change true p ≡ err e)

module _ (faults : Faults) (s : Store) (name : Str) (p : Pdb) where
  written-elsewhere :
      (fault : Option Str) (key : Str) (q : Pdb)
      → (key == name) ≡ false
      → Has name p s
      → Has name p (written fault s key q).1
  written-elsewhere none key q d h = ground (arith, lookup-insert name key q s.pdbs)
  written-elsewhere (some e) key q d h = h

  mutated-elsewhere :
      (key : Str) (r : Result PdbError Pdb)
      → (key == name) ≡ false
      → Has name p s
      → Has name p (mutated faults s key r).1
  mutated-elsewhere key (err e) d h = h
  mutated-elsewhere key (ok q) d h = written-elsewhere (faults.write_pdb key) key q d h

  elsewhere :
      (base : Pdb) (change : Bool → Pdb → Result PdbError Pdb) (r : Result PdbError (Option Pdb))
      → (base.name == name) ≡ false
      → Has name p s
      → Has name p (created_or_updated faults s base change r).1
  elsewhere base change (err e) d h = h
  elsewhere base change (ok none) d h = mutated-elsewhere base.name (change false base) d h
  elsewhere base change (ok (some q)) d h = mutated-elsewhere base.name (change true q) d h

  found_self :
      (fault : Option Str)
      → Has name p s
      → (base : Pdb) (change : Bool → Pdb → Result PdbError Pdb) → Rejects change p
      → (created_or_updated faults s base change (found_unless fault (lookup name s.pdbs))).1 ≡ s
  found_self (some e) h base change r = refl
  found_self none h base change r = rw (h, r.1) refl

  create_or_update-Has :
      (base : Pdb) (change : Bool → Pdb → Result PdbError Pdb)
      → Rejects change p
      → Has name p s
      → Has name p (create_or_update faults s base change).1
  unfolding create_or_update fetch_pdb
  create_or_update-Has base change r h = elim (Bool-cases (base.name == name)) [
    | inl e ↦
        subst
          (λ k.
            Has name p
              (created_or_updated faults s base change
                (found_unless (faults.get_pdb k) (lookup k s.pdbs))).1)
          (sym ((==_iff base.name name).0 e))
          (subst (λ t. Has name p t) (sym (found_self (faults.get_pdb name) h base change r)) h)
    | inr d ↦ elsewhere base change _ d h
  ]

claim-Rejects :
    (wc : WorkloadClass) (p : Pdb) (f : Pdb → Pdb)
    → IsForeign wc p
    → Rejects (λ exists pdb. claim_pdb wc exists pdb >>= λ q. ok (f q)) p
unfolding claim_pdb
claim-Rejects wc p f h = (not_managed p.name, rw (h.0) refl)

module _ (faults : Faults) (wc : WorkloadClass) (name : Str) (p : Pdb) where
  deleted-elsewhere :
      (fault : Option Str) (s : Store) (key : Str)
      → (key == name) ≡ false
      → Has name p s
      → Has name p (deleted fault s key).1
  deleted-elsewhere none s key d h = ground (arith, lookup-delete name key s.pdbs)
  deleted-elsewhere (some e) s key d h = h

  delete_found-elsewhere :
      (s : Store) (key : Str) (r : Result PdbError (Option Pdb))
      → (key == name) ≡ false
      → Has name p s
      → Has name p (delete_found faults s wc key r).1
  delete_found-elsewhere s key (err e) d h = h
  delete_found-elsewhere s key (ok none) d h = h
  delete_found-elsewhere s key (ok (some q)) d h = elim (Bool-cases (is_controlled_by q wc)) [
    | inl c ↦ rw c (deleted-elsewhere (faults.delete_pdb key) s key d h)
    | inr c ↦ rw c h
  ]

  delete_found_self :
      (s : Store) (key : Str) (fault : Option Str)
      → IsForeign wc p
      → Has name p s
      → (delete_found faults s wc key (found_unless fault (lookup name s.pdbs))).1 ≡ s
  delete_found_self s key (some e) f h = refl
  delete_found_self s key none f h = rw (h, f.1) refl

  pub delete_pdb-Has :
      (s : Store) (key : Str)
      → IsForeign wc p
      → Has name p s
      → Has name p (delete_pdb faults s wc key).1
  unfolding delete_pdb fetch_pdb
  delete_pdb-Has s key f h = elim (Bool-cases (key == name)) [
    | inl e ↦
        subst
          (λ k.
            Has name p
              (delete_found faults s wc key (found_unless (faults.get_pdb k) (lookup k s.pdbs))).1)
          (sym ((==_iff key name).0 e))
          (subst (λ t. Has name p t) (sym (delete_found_self s key (faults.get_pdb name) f h)) h)
    | inr d ↦ delete_found-elsewhere s key _ d h
  ]

module _ (hash : Str → Str) (time : TimeFormat) (faults : Faults) (wc : WorkloadClass) (now : ℕ)
    (name : Str) (p : Pdb) (foreign : IsForeign wc p) where
  pub sync_pod_pdb-Has :
      (s : Store) (pod : Pod) (valid : Bool)
      → Has name p s
      → Has name p (sync_pod_pdb hash time faults wc now s pod valid).1
  unfolding sync_pod_pdb
  sync_pod_pdb-Has s pod valid h =
      create_or_update-Has faults s name p (pdb_base hash pod) _
        (claim-Rejects wc p (λ q. sync_pdb hash wc pod q valid) foreign) h

  lease_pod_pdb-Has :
      (s : Store) (pod : Pod) (subject : Subject)
      → Has name p s
      → Has name p (lease_pod_pdb hash time faults wc now s pod subject).1
  unfolding lease_pod_pdb
  lease_pod_pdb-Has s pod subject h =
      create_or_update-Has faults s name p (pdb_base hash pod) _
        (claim-Rejects wc p (λ q. with_lease time hash now q pod subject) foreign) h

  with_time-Has :
      (d : ℤ) (r : Result PdbError (Unit {0}) × Store)
      → Has name p r.1
      → Has name p (with_time hash time faults wc now d r).1
  with_time-Has d (ok u, s) h = h
  with_time-Has d (err e, s) h = h

  if-Has :
      (b : Bool) (q r : Result PdbError ℤ × Store)
      → Has name p q.1
      → Has name p r.1
      → Has name p (if b then q else r).1
  if-Has true q r h k = h
  if-Has false q r h k = k

  sync_unless-Has :
      (s : Store) (pod : Pod) (existing : Option Pdb)
      → Has name p s
      → Has name p (sync_unless_leased hash time faults wc now s pod existing).1
  unfolding sync_unless_leased
  sync_unless-Has s pod existing h =
      if-Has _ (ok (pos (active_lease_remaining hash time faults wc now existing pod)), s)
        (with_time hash time faults wc now (pos 0)
          (sync_pod_pdb hash time faults wc now s pod true))
        h
        (with_time-Has (pos 0) (sync_pod_pdb hash time faults wc now s pod true)
          (sync_pod_pdb-Has s pod true h))

  apply_lease-Has :
      (s : Store) (pod : Pod) (existing : Option Pdb) (l : Option PendingLease)
      → Has name p s
      → Has name p (apply_lease hash time faults wc now s pod existing l).1
  unfolding apply_lease
  apply_lease-Has s pod existing none h = sync_unless-Has s pod existing h
  apply_lease-Has s pod existing (some l) h =
      if-Has (subject_already_leasing time now existing (some pod) l.subject) _ _ h (
        if-Has (allows_lease hash time faults wc now existing pod) _ _
          (with_time-Has _ (lease_pod_pdb hash time faults wc now s pod l.subject)
            (lease_pod_pdb-Has s pod l.subject h))
          (sync_unless-Has s pod existing h))

  with_existing-Has :
      (s : Store) (pod : Pod) (leases : Leases) (r : Result PdbError (Option Pdb))
      → Has name p s
      → Has name p (with_existing hash time faults wc now s pod leases r).1
  with_existing-Has s pod leases (err e) h = h
  with_existing-Has s pod leases (ok existing) h =
      apply_lease-Has s pod existing (lease_of leases pod) h

  with_label-Has :
      (leases : Leases) (r : Result PdbError Pod × Store)
      → Has name p r.1
      → Has name p (with_label hash time faults wc now leases r).1
  with_label-Has leases (err e, s) h = h
  with_label-Has leases (ok pod, s) h =
      with_existing-Has s pod leases (fetch_pdb faults s (pdb_name hash pod.name)) h

  ensure-pdbs : (s : Store) (pod : Pod) → (ensure_pod_uid_label faults s pod).1.pdbs ≡ s.pdbs
  unfolding ensure_pod_uid_label
  ensure-pdbs s pod = ground arith

  pub reconcile_pod_pdb-Has :
      (s : Store) (pod : Pod) (leases : Leases)
      → Has name p s
      → Has name p (reconcile_pod_pdb hash time faults wc now s pod leases).1
  unfolding reconcile_pod_pdb
  reconcile_pod_pdb-Has s pod leases h =
      with_label-Has leases (ensure_pod_uid_label faults s pod)
        (ap (lookup name) (ensure-pdbs s pod) ∙ h)
