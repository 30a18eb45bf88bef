-- ===== src/Pdb/Sync.antt =====
-- What SyncPDBWithWorkloadClass leaves in a PodDisruptionBudget.
use workload_class.Prelude.{
  ℕ, ◌≡◌, ◌↔◌, refl, ap, ◌∙◌, arith, Bool, true, false, none, some, [], ◌∷◌, Str, str_eq, lit,
  if◌then◌else◌, ◌⊎◌, lookup, insert, delete, lookup-insert, lookup-delete, ==_refl, ◌==◌,
}
use workload_class.Kube.Labels.{Labels}
use workload_class.Kube.Objects.{Pod, Pdb}
use workload_class.Api.{WorkloadClass, ready, overdue, pod_uid_label}
use workload_class.Pdb.{
  bypass_owner, bypass_expiration, TimeFormat, uid_selector, or_default, sync_pdb,
  is_workload_class_managed_pdb, is_pdb_open, lease_time_remaining, allow_lease, lease_expired,
}
use workload_class.PdbName.{pdb_name}

delete_idem : (k : Str) (m : Labels) → delete k (delete k m) ≡ delete k m
unfolding delete
delete_idem k [] = refl
delete_idem k ((j, v) ∷ m) = ground (arith, delete_idem k m)

delete_comm : (k l : Str) (m : Labels) → delete k (delete l m) ≡ delete l (delete k m)
unfolding delete
delete_comm k l [] = refl
delete_comm k l ((j, v) ∷ m) = ground (arith, delete_comm k l m)

abbrev unleased : Labels → Labels
unleased m = delete bypass_expiration (delete bypass_owner m)

unleased_idem : (m : Labels) → unleased (unleased m) ≡ unleased m
unleased_idem m =
    ap (delete bypass_expiration) (
      delete_comm bypass_owner bypass_expiration (delete bypass_owner m)
      ∙ ap (delete bypass_expiration) (delete_idem bypass_owner m))
    ∙ delete_idem bypass_expiration (delete bypass_owner m)

or_default_idem : (s d : Str) → or_default (or_default s d) d ≡ or_default s d
or_default_idem [] [] = refl
or_default_idem [] (c ∷ d) = refl
or_default_idem (c ∷ s) d = refl

insert_idem : (k v : Str) (m : Labels) → insert k v (insert k v m) ≡ insert k v m
unfolding insert
insert_idem k v [] = ground (arith, ==_refl k)
insert_idem k v ((j, w) ∷ m) = ground (arith, ==_refl k, insert_idem k v m)

-- After SyncPDBWithWorkloadClass the budget is open exactly if the WorkloadClass is not valid or its
-- readiness is Ready or Overdue.
pub sync-open_iff :
    (hash : Str → Str) (wc : WorkloadClass) (pod : Pod) (pdb : Pdb) (valid : Bool)
    → (is_pdb_open (some (sync_pdb hash wc pod pdb valid)) ≡ true) ↔ (
        (valid ≡ false)
        ⊎ ((wc.maintenance_readiness ≡ ready) ⊎ (wc.maintenance_readiness ≡ overdue)))
unfolding is_pdb_open sync_pdb
sync-open_iff hash wc pod pdb valid =
    (ground (arith, ==_refl (lit "100%")), ground (arith, ==_refl (lit "100%")))

-- Syncing a budget a second time for the same WorkloadClass and Pod changes nothing more.
pub sync_pdb_idem :
    (hash : Str → Str) (wc : WorkloadClass) (pod : Pod) (pdb : Pdb) (valid : Bool)
    → sync_pdb hash wc pod (sync_pdb hash wc pod pdb valid) valid ≡ sync_pdb hash wc pod pdb valid
unfolding sync_pdb
sync_pdb_idem hash wc pod pdb valid = λ i. record {
  name = or_default_idem pdb.name (pdb_name hash pod.name) i;
  namespace = or_default_idem pdb.namespace pod.namespace i;
  labels = insert_idem pod_uid_label pod.uid pdb.labels i;
  annotations = unleased_idem pdb.annotations i;
  controller = pdb.controller;
  selector = some (uid_selector pod);
  unhealthy_policy = (sync_pdb hash wc pod pdb valid).unhealthy_policy;
  max_unavailable = (sync_pdb hash wc pod pdb valid).max_unavailable;
}

sync-remaining :
    (time : TimeFormat) (hash : Str → Str) (wc : WorkloadClass) (pod : Pod) (pdb : Pdb)
    (valid : Bool) (now : ℕ)
    → lease_time_remaining time now (some (sync_pdb hash wc pod pdb valid)) ≡ 0
unfolding sync_pdb lease_time_remaining
sync-remaining time hash wc pod pdb valid now = ground (
  arith,
  lookup-delete bypass_expiration bypass_expiration (delete bypass_owner pdb.annotations),
  ==_refl bypass_expiration,
)

sync-managed :
    (hash : Str → Str) (wc : WorkloadClass) (pod : Pod) (pdb : Pdb) (valid : Bool)
    → is_workload_class_managed_pdb (some (sync_pdb hash wc pod pdb valid))
      ≡ is_workload_class_managed_pdb (some pdb)
unfolding sync_pdb is_workload_class_managed_pdb
sync-managed hash wc pod pdb valid = refl

allow_of_expired :
    (time : TimeFormat) (now : ℕ) (pdb : Pdb) (pod : Pod)
    → lease_time_remaining time now (some pdb) ≡ 0
    → allow_lease time now (some pdb) (some pod) ≡ is_workload_class_managed_pdb (some pdb)
unfolding allow_lease lease_expired
allow_of_expired time now pdb pod h = ground arith

-- Syncing ends any lease: no lease time is left, and a new lease may be granted exactly if the budget
-- is managed by a WorkloadClass. It labels the budget with the Pod's UID and selects by that alone, and
-- keeps the controller and every other label and annotation.
pub sync-scope :
    (time : TimeFormat) (hash : Str → Str) (wc : WorkloadClass) (pod : Pod) (pdb : Pdb)
    (valid : Bool) (now : ℕ) (key : Str)
    → let synced = sync_pdb hash wc pod pdb valid in
      (lease_time_remaining time now (some synced) ≡ 0)
      × (allow_lease time now (some synced) (some pod) ≡ is_workload_class_managed_pdb (some pdb))
      × (synced.selector ≡ some (uid_selector pod))
      × (synced.controller ≡ pdb.controller)
      × (lookup key synced.labels
          ≡ (if pod_uid_label == key then some pod.uid else lookup key pdb.labels))
      × (lookup key synced.annotations ≡ (
          if bypass_expiration == key
          then none
          else if bypass_owner == key
          then none
          else lookup key pdb.annotations))
unfolding sync_pdb
sync-scope time hash wc pod pdb valid now key = (
  sync-remaining time hash wc pod pdb valid now,
  allow_of_expired time now (sync_pdb hash wc pod pdb valid) pod
        (sync-remaining time hash wc pod pdb valid now)
      ∙ sync-managed hash wc pod pdb valid,
  refl,
  refl,
  lookup-insert key pod_uid_label pod.uid pdb.labels,
  ground (
    arith,
    lookup-delete key bypass_expiration (delete bypass_owner pdb.annotations),
    lookup-delete key bypass_owner pdb.annotations,
  ),
)
