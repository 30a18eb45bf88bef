-- ===== src/Pdb.antt =====
-- internal/utils/pdb.go: Per-Pod PodDisruptionBudgets and their leases. The current time is an
-- argument, in nanoseconds; the hash of PDBName and the format of timestamps are parameters.
pub mod Owner
pub mod Sync
pub mod Lease
use workload_class.Prelude.{
  ℕ, zero, suc, ◌+◌, ◌-◌, ◌*◌, ◌%◌, ◌^◌, ◌≤◌, ◌≡◌, Bool, true, false, not, ◌&&◌, ◌||◌, Option, none,
  some, List, [], ◌∷◌, ◌++◌, length, any, filter, leb, ltb, ◌==◌, str_eq, Str, lit, lookup, insert,
  delete, if◌then◌else◌, Result, ok, err,
}
use workload_class.Prelude.Int.{ℤ, pos, negsuc, pos_part, neg_part}
use workload_class.Kube.Labels.{Labels, LabelSelector, SelectorLib}
use workload_class.Kube.Objects.{
  Pod, Pdb, OwnerReference, IntOrString, int_val, str_val, if_healthy_budget,
}
use workload_class.Api.{
  WorkloadClass, Subject, MaintenanceReadiness, ready, not_ready, overdue, pod_uid_label,
}
use workload_class.PdbName.{pdb_name}

abbrev pub bypass_owner : Str
bypass_owner = lit "workloads.gke.io/bypass-owner"

abbrev pub bypass_expiration : Str
bypass_expiration = lit "workloads.gke.io/bypass-expiration"

-- Nanoseconds.
abbrev pub default_lease_duration : ℕ
default_lease_duration = 30 * 10 ^ 9

-- time.Time.Format and time.Parse with ExpirationFormat: a time up to `last`, the end of the last year
-- with four digits, reads back as it was written.
pub record TimeFormat : Type 0 where
  pub format : ℕ → Str
  pub parse : Str → Option ℕ
  pub last : ℕ
  pub parse-format : (t : ℕ) → t ≤ last → parse (format t) ≡ some t

abbrev pub open_value : IntOrString
open_value = str_val (lit "100%")

abbrev pub closed_value : IntOrString
closed_value = int_val (pos 0)

-- m[k] of a map to strings: "" if the key is missing.
abbrev pub or_blank : Option Str → Str
or_blank none = []
or_blank (some s) = s

unfoldable pub get : Labels → Str → Str
get m k = or_blank (lookup k m)

pub data SyncError : Type 0 where
  workload_class_is_nil pod_is_nil pdb_is_nil : SyncError

-- The selector that matches the one Pod.
abbrev pub uid_selector : Pod → LabelSelector
uid_selector pod = record { match_labels = (pod_uid_label, pod.uid) ∷ []; match_expressions = [] }

abbrev pub or_default : Str → Str → Str
or_default [] s = s
or_default (c ∷ cs) s = c ∷ cs

-- The map maxUnavailableMap, and closed for what it does not hold.
abbrev pub max_unavailable_for : MaintenanceReadiness → IntOrString
max_unavailable_for ready = open_value
max_unavailable_for overdue = open_value
max_unavailable_for _ = closed_value

-- PDBBase, for a Pod that is not nil.
unfoldable pub pdb_base : (Str → Str) → Pod → Pdb
pdb_base hash pod = record {
  name = pdb_name hash pod.name;
  namespace = pod.namespace;
  labels = (pod_uid_label, pod.uid) ∷ [];
  annotations = [];
  controller = none;
  selector = none;
  unhealthy_policy = none;
  max_unavailable = none;
}

-- What SyncPDBWithWorkloadClass and PDBWithLease both write.
abbrev pub scoped : (Str → Str) → Pod → Pdb → Pdb
scoped hash pod pdb = record pdb {
  name = or_default pdb.name (pdb_name hash pod.name);
  namespace = or_default pdb.namespace pod.namespace;
  labels = insert pod_uid_label pod.uid pdb.labels;
  selector = some (uid_selector pod);
  unhealthy_policy = some if_healthy_budget;
}

unfoldable pub sync_pdb : (Str → Str) → WorkloadClass → Pod → Pdb → Bool → Pdb
sync_pdb hash wc pod pdb is_valid = record (scoped hash pod pdb) {
  annotations = delete bypass_expiration (delete bypass_owner pdb.annotations);
  max_unavailable =
      some (if not is_valid then open_value else max_unavailable_for wc.maintenance_readiness);
}

-- SyncPDBWithWorkloadClass; it changes the budget in place.
unfoldable pub sync_pdb_with_workload_class :
    (Str → Str) → Option WorkloadClass → Option Pod → Option Pdb → Bool → Result SyncError Pdb
sync_pdb_with_workload_class hash none pod pdb is_valid = err workload_class_is_nil
sync_pdb_with_workload_class hash (some wc) none pdb is_valid = err pod_is_nil
sync_pdb_with_workload_class hash (some wc) (some pod) none is_valid = err pdb_is_nil
sync_pdb_with_workload_class hash (some wc) (some pod) (some pdb) is_valid =
    ok (sync_pdb hash wc pod pdb is_valid)

abbrev pub service_account : Str → Str → Str
service_account namespace name = lit "system:serviceaccount:" ++ (namespace ++ (lit ":" ++ name))

-- BypassOwnerValue
unfoldable pub bypass_owner_value : Subject → Str
bypass_owner_value s =
    if s.kind == lit "User"
    then lit "user:" ++ s.name
    else if s.kind == lit "Group"
    then lit "group:" ++ s.name
    else service_account s.namespace s.name

-- time.Duration(n) * time.Second for a positive int64 n: the product wraps.
unfoldable pub seconds : ℕ → ℤ
seconds n =
    let w = (n * 10 ^ 9) % 2 ^ 64 in if ltb w (2 ^ 63) then pos w else negsuc (2 ^ 64 - w - 1)

abbrev pub positive_seconds : Option ℤ → Option ℤ
positive_seconds (some (pos (suc n))) = some (seconds (suc n))
positive_seconds _ = none

abbrev pub or_else : Option ℤ → ℤ → ℤ
or_else none d = d
or_else (some z) d = z

-- LeaseDurationForPod, in nanoseconds.
unfoldable pub lease_duration_for_pod : Option Pod → ℤ
lease_duration_for_pod none = pos default_lease_duration
lease_duration_for_pod (some pod) =
    or_else (positive_seconds pod.deletion_grace_period_seconds)
      (or_else (positive_seconds pod.termination_grace_period_seconds) (pos default_lease_duration))

-- time.Until(t), at least 0: the subtraction on ℕ stops there.
abbrev pub until : Option ℕ → ℕ → ℕ
until none now = 0
until (some t) now = t - now

abbrev pub is_workload_class : Option OwnerReference → Bool
is_workload_class none = false
is_workload_class (some owner) = owner.kind == lit "WorkloadClass"

-- IsWorkloadClassManagedPDB
unfoldable pub is_workload_class_managed_pdb : Option Pdb → Bool
is_workload_class_managed_pdb none = false
is_workload_class_managed_pdb (some pdb) = is_workload_class pdb.controller

-- IsPDBOpen
abbrev pub is_open_value : Option IntOrString → Bool
is_open_value none = false
is_open_value (some (int_val n)) = false
is_open_value (some (str_val s)) = s == lit "100%"

unfoldable pub is_pdb_open : Option Pdb → Bool
is_pdb_open none = false
is_pdb_open (some pdb) = is_open_value pdb.max_unavailable

module _ (time : TimeFormat) where
  abbrev pub parsed : Option Str → Option ℕ
  parsed none = none
  parsed (some s) = time.parse s

  -- LeaseTimeRemaining
  unfoldable pub lease_time_remaining : ℕ → Option Pdb → ℕ
  lease_time_remaining now none = 0
  lease_time_remaining now (some pdb) =
      until (parsed (lookup bypass_expiration pdb.annotations)) now

  -- LeaseExpired
  unfoldable pub lease_expired : ℕ → Option Pdb → Bool
  unfolding lease_time_remaining
  lease_expired now pdb = leb (lease_time_remaining now pdb) 0

  -- AllowLease
  unfoldable pub allow_lease : ℕ → Option Pdb → Option Pod → Bool
  allow_lease now none pod = false
  allow_lease now (some pdb) none = false
  allow_lease now (some pdb) (some pod) =
      if not (is_workload_class_managed_pdb (some pdb))
      then false
      else if not (get pdb.labels pod_uid_label == pod.uid)
      then true
      else if get pdb.annotations bypass_owner == []
      then true
      else lease_expired now (some pdb)

  -- SubjectAlreadyLeasing
  unfoldable pub subject_already_leasing : ℕ → Option Pdb → Option Pod → Subject → Bool
  subject_already_leasing now none pod subject = false
  subject_already_leasing now (some pdb) none subject = false
  subject_already_leasing now (some pdb) (some pod) subject =
      if not (is_workload_class_managed_pdb (some pdb))
      then false
      else if not (get pdb.labels pod_uid_label == pod.uid)
      then false
      else (let owner = get pdb.annotations bypass_owner in
          if (owner == []) || not (owner == bypass_owner_value subject)
          then false
          else not (lease_expired now (some pdb)))

  -- now.Add(d)
  abbrev pub add_duration : ℕ → ℤ → ℕ
  add_duration now d = now + pos_part d - neg_part d

  unfoldable pub with_lease : (Str → Str) → ℕ → Pdb → Pod → Subject → Pdb
  with_lease hash now pdb pod subject = record (scoped hash pod pdb) {
    annotations =
        insert bypass_expiration
          (time.format (add_duration now (lease_duration_for_pod (some pod))))
          (insert bypass_owner (bypass_owner_value subject) pdb.annotations);
    max_unavailable = some open_value;
  }

  -- PDBWithLease; it changes the budget in place.
  unfoldable pub pdb_with_lease :
      (Str → Str) → ℕ → Option Pdb → Option Pod → Subject → Result SyncError Pdb
  pdb_with_lease hash now none pod subject = err pdb_is_nil
  pdb_with_lease hash now (some pdb) none subject = err pod_is_nil
  pdb_with_lease hash now (some pdb) (some pod) subject = ok (with_lease hash now pdb pod subject)

-- The loop of ListUserCreatedPDBs.
unfoldable pub user_created_pdbs : List Pdb → List Pdb
user_created_pdbs pdbs = filter (λ pdb. not (is_workload_class_managed_pdb (some pdb))) pdbs

module _ (lib : SelectorLib) where
  abbrev pub selector_matches : Option LabelSelector → Labels → Bool
  selector_matches none labels = false
  selector_matches (some s) labels = lib.valid s && lib.matches s labels

  abbrev pub covers : Pod → Pdb → Bool
  covers pod pdb =
      (pdb.namespace == pod.namespace)
      && (not (is_workload_class_managed_pdb (some pdb))
          && selector_matches pdb.selector pod.labels)

  -- IsPodCoveredByUserPDB
  unfoldable pub is_pod_covered_by_user_pdb : Option Pod → List Pdb → Bool
  is_pod_covered_by_user_pdb none pdbs = false
  is_pod_covered_by_user_pdb (some pod) pdbs = any (covers pod) pdbs
