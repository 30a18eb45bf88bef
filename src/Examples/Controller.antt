-- ===== src/Examples/Controller.antt =====
-- Reconciles of the sample WorkloadClass.
use workload_class.Prelude.{
  ◌≡◌, ◌≢◌, ◌↔◌, ◌≤◌, refl, arith, true, false, ◌&&◌, none, some, [], ◌∷◌, length, all, any,
  ==_refl, str_eq, Str, str_beq, lit, lookup, ok, err,
}
use workload_class.Prelude.Int.{pos}
use workload_class.Kube.Objects.{Pdb, NamespacedName}
use workload_class.Kube.Client.{Client}
use workload_class.Api.{
  WorkloadClass, CapacityStrategy, Guardrail, spot, fallback_to_on_demand, pod_uid_label,
}
use workload_class.Resolve.{
  namespace_enforced_workload_class, named_enforced, best_match_workload_class_for_pod,
  workload_class_pod_selector,
}
use workload_class.SpotRatio.{parse_percentage, before_percent, atoi, unsigned_value, digits_value}
use workload_class.LeaseTracker.{
  PendingLease, Tracker, new_pending_lease_tracker, key_of, leases_of,
}
use workload_class.LeaseTracker.Requests.{request_of}
use workload_class.PdbName.{pdb_name}
use workload_class.Pdb.{
  get, bypass_owner, bypass_expiration, is_workload_class_managed_pdb, lease_time_remaining,
}
use workload_class.Controller.Messages.{truncate_message}
use workload_class.Controller.Truncated.{Cut, truncate_message-fits}
use workload_class.Controller.Validation.{
  ClassViolation, class_violations, validated_condition, reconcile_conditions, protects_pods,
}
use workload_class.Controller.Conditions.{IsAttached, validated_condition-protects_iff}
use workload_class.Controller.Readiness.{
  Readiness, pods_to_check, matched_pods, calculate_readiness,
}
use workload_class.Controller.ReadinessCases.{expected, calculate_readiness-expected}
use workload_class.Controller.Capacity.{
  effective_ratio, guardrail_capacity_constraints, apply_guardrails, apply_placement,
  apply_constraint, apply_parameters, apply_ratio, validate_capacity_strategy,
}
use workload_class.Controller.CapacityLimits.{forbids, requires, all_parameters}
use workload_class.Controller.CapacityComply.{complies, validate_capacity_strategy_iff}
use workload_class.Controller.Store.{Store, Faults, is_controlled_by}
use workload_class.Controller.Pdbs.{lease_of, active_lease_remaining, reconcile_pod_pdb}
use workload_class.Controller.Leased.{IsLeased, reconcile_pod_pdb-leased}
use workload_class.Controller.Protected.{Leaves, reconcile_pod_pdb-Leaves}
use workload_class.Controller.Namespace.{list_failed}
use workload_class.Controller.Reconcile.{reconcile_pdbs}
use workload_class.Controller.Kept.{AllHeld, no_pdbs, reconcile_pdbs-AllHeld}
use workload_class.Controller.Status.{list_guardrails_failed, reconcile}
use workload_class.Controller.Untouched.{IsForeign, Has}
use workload_class.Controller.StatusKept.{reconcile-Has, reconcile-early}
use workload_class.Examples.Samples.{
  selector_lib, times, time_format, hash, pod, pdb, a_user, guardrail, web_class, client, decode,
}

truncate_message-fits_example :
    (length (truncate_message (lit "abcdef") 5) ≤ 5)
    × Cut (lit "abcdef") 5 (truncate_message (lit "abcdef") 5)
truncate_message-fits_example = truncate_message-fits (lit "abcdef") 5

abbrev text : ClassViolation → Str
text v = lit "not allowed"

validated_condition-protects_iff_example :
    (protects_pods
        (reconcile_conditions
          (validated_condition text selector_lib times decode web_class (guardrail ∷ []) [])
          none).reason
        true
      ≡ true)
    ↔ (((guardrail ∷ []) ≢ [])
        × (class_violations text selector_lib times decode web_class (guardrail ∷ []) ≡ [])
        × IsAttached none)
validated_condition-protects_iff_example =
    validated_condition-protects_iff text selector_lib times decode web_class (guardrail ∷ []) []
      none

checks_pod : pods_to_check selector_lib client web_class ≡ ok (pod ∷ [])
unfolding pods_to_check matched_pods workload_class_pod_selector namespace_enforced_workload_class
    named_enforced best_match_workload_class_for_pod lookup lit str_beq
checks_pod = refl

calculate_readiness-expected_example :
    (r : Readiness) × (calculate_readiness selector_lib client times web_class 9 ≡ ok r)
    × (r.0 ≡ expected selector_lib client times web_class 9 (pod ∷ []))
calculate_readiness-expected_example =
    calculate_readiness-expected selector_lib client times web_class 9 (pod ∷ []) checks_pod

abbrev half : CapacityStrategy
half = record { type = spot; spot_ratio = lit "50%"; fallback_action = fallback_to_on_demand }

abbrev spot_class : WorkloadClass
spot_class = record web_class { capacity_strategy = some half }

abbrev spot_guardrail : Guardrail
spot_guardrail = record guardrail {
  placement =
      some (record { name = lit "gke-spot-placement"; parameters = some (lit "quarter") } ∷ []);
}

reads_spot : (guardrail_capacity_constraints decode (spot_guardrail ∷ [])).1 ≡ []
unfolding guardrail_capacity_constraints apply_guardrails apply_placement apply_constraint
    apply_parameters apply_ratio parse_percentage before_percent atoi unsigned_value digits_value
    lit str_beq
reads_spot = refl

one_mode :
    (any forbids (all_parameters decode (spot_guardrail ∷ []))
      && any requires (all_parameters decode (spot_guardrail ∷ [])))
    ≡ false
unfolding lit str_beq
one_mode = refl

reads_half : effective_ratio spot half.spot_ratio ≡ ok 50
unfolding effective_ratio parse_percentage before_percent atoi unsigned_value digits_value lit
reads_half = refl

validate_capacity_strategy_iff_example :
    (validate_capacity_strategy decode spot_class (spot_guardrail ∷ []) ≡ [])
    ↔ (all (complies spot 50 true) (all_parameters decode (spot_guardrail ∷ [])) ≡ true)
validate_capacity_strategy_iff_example =
    validate_capacity_strategy_iff decode spot_class half spot_guardrail [] 50 refl reads_spot
      one_mode reads_half

-- The budget of the Pod, which ann has leased until 90.
abbrev leased : Pdb
leased = record pdb {
  name = pdb_name hash (lit "web-0");
  labels = (pod_uid_label, lit "u1") ∷ [];
  annotations = (bypass_owner, lit "user:ann") ∷ (bypass_expiration, 90 ∷ []) ∷ [];
}

-- A budget that someone made under another name.
abbrev own : Pdb
own = record pdb { name = lit "own"; controller = none }

abbrev tracker : Tracker
tracker = new_pending_lease_tracker (pos 0)

abbrev store : Store
store = record {
  pods = (lit "web-0", pod) ∷ [];
  pdbs = (pdb_name hash (lit "web-0"), leased) ∷ (lit "own", own) ∷ [];
  tracker = some tracker;
}

abbrev no_faults : Faults
no_faults = record {
  list_pdbs = none;
  list_pods = none;
  get_pdb = λ name. none;
  get_pod = λ name. none;
  write_pdb = λ name. none;
  delete_pdb = λ name. none;
  patch_pod = λ name. none;
}

finds : lookup (pdb_name hash pod.name) store.pdbs ≡ some leased
unfolding lookup
finds = rw (==_refl (pdb_name hash (lit "web-0"))) refl

managed : is_workload_class_managed_pdb (some leased) ≡ true
unfolding is_workload_class_managed_pdb
managed = ==_refl (lit "WorkloadClass")

active : active_lease_remaining hash time_format no_faults web_class 9 (some leased) pod ≡ 81
unfolding active_lease_remaining lease_time_remaining get lookup lit str_beq
active = refl

is_leased : IsLeased hash time_format no_faults web_class 9 pod leased
is_leased = (managed, omega (arith, active))

reconcile_pod_pdb-leased_example :
    (reconcile_pod_pdb hash time_format no_faults web_class 9 store pod []).1.pdbs ≡ store.pdbs
reconcile_pod_pdb-leased_example =
    reconcile_pod_pdb-leased hash time_format no_faults web_class 9 store pod leased [] finds
      is_leased

abbrev request : PendingLease
request = record { pod_name = lit "web-0"; pod_uid = lit "u1"; subject = a_user }

empty : lookup (pdb_name hash pod.name) (record store { pdbs = [] }).pdbs ≡ none
unfolding lookup
empty = refl

reconcile_pod_pdb-Leaves_example :
    Leaves hash time_format no_faults web_class 9 pod
      (record store { pdbs = [] })
      none
      (lease_of ((lit "web-0", request) ∷ []) pod)
      (reconcile_pod_pdb hash time_format no_faults web_class 9
        (record store { pdbs = [] })
        pod
        ((lit "web-0", request) ∷ []))
reconcile_pod_pdb-Leaves_example =
    reconcile_pod_pdb-Leaves hash time_format no_faults web_class 9 (record store { pdbs = [] }) pod
      none ((lit "web-0", request) ∷ []) empty tt refl refl refl

abbrev key : NamespacedName
key = record { namespace = lit "shop"; name = lit "web" }

foreign : IsForeign web_class own
unfolding is_workload_class_managed_pdb is_controlled_by
foreign = (refl, refl)

own-Has : Has (lit "own") own store
unfolding lookup pdb_name lit str_beq
own-Has = refl

reconcile-Has_example :
    Has
      (lit "own")
      own
      (reconcile selector_lib times hash time_format decode text client no_faults none 9 key
        store).store
reconcile-Has_example =
    reconcile-Has selector_lib times hash time_format decode text client no_faults none 9 key store
      web_class (lit "own") own refl foreign own-Has

abbrev broken : Client
broken = record client { list_guardrails = err (lit "timeout") }

fails :
    (reconcile selector_lib times hash time_format decode text broken no_faults none 9 key
      store).result
    ≡ err (list_guardrails_failed (lit "timeout"))
unfolding reconcile
fails = refl

reconcile-early_example :
    (reconcile selector_lib times hash time_format decode text broken no_faults none 9 key
      store).store
    ≡ store
reconcile-early_example =
    reconcile-early selector_lib times hash time_format decode text broken no_faults none 9 key
      store (list_guardrails_failed (lit "timeout")) fails refl

abbrev unlisted : Faults
unlisted = record no_faults { list_pdbs = some (lit "timeout") }

nothing_held : request_of tracker (key_of web_class) (lit "web-0") ≡ none
unfolding request_of leases_of lookup new_pending_lease_tracker
nothing_held = refl

reconcile_pdbs-AllHeld_example :
    let o =
      reconcile_pdbs selector_lib hash time_format unlisted web_class 9 client
        (lit "ValidationPassed")
        true
        (request ∷ [])
        store in
    (o.errors ≡ list_failed (lit "timeout") ∷ [])
    × (o.store.pdbs ≡ store.pdbs)
    × ((u : Tracker) × (o.store.tracker ≡ some u) × AllHeld u web_class (request ∷ []))
reconcile_pdbs-AllHeld_example =
    reconcile_pdbs-AllHeld selector_lib hash time_format unlisted web_class 9 client
      (lit "ValidationPassed") true (request ∷ []) store tracker (list_failed (lit "timeout")) refl
      (no_pdbs refl) refl (tt, tt) (nothing_held, tt)
