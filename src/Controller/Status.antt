-- ===== src/Controller/Status.antt =====
-- internal/controller/workloadclass_controller.go: Reconcile. Events and logging are left out; the times of
-- transitions, which nothing reads, too.
use workload_class.Prelude.{
  ℕ, Bool, true, false, not, ◌&&◌, ◌||◌, Option, none, some, List, [], ◌∷◌, ◌==◌, str_eq, Str,
  lookup, insert, delete, Result, ok, err,
}
use workload_class.Prelude.Int.{ℤ, pos, eqb_ℤ}
use workload_class.Kube.Labels.{SelectorLib}
use workload_class.Kube.Objects.{
  NamespacedName, key_eq, Condition, Conditions, ConditionStatus, condition_true, condition_false,
  condition_unknown,
}
use workload_class.Kube.Client.{Client, GetError, not_found, get_failed}
use workload_class.Api.{
  WorkloadClass, Guardrail, GuardrailParameters, MaintenanceReadiness, unset_readiness, ready,
  not_ready, overdue, other_readiness,
}
use workload_class.Api.ConditionType
use workload_class.Resolve.{ResolveError}
use workload_class.Guardrail.{is_nil}
use workload_class.LeaseTracker.{PendingLease, Tracker, drain}
use workload_class.Pdb.{TimeFormat}
use workload_class.Temporal.{TimeLib}
use workload_class.PodWebhook.Counts.{CountError}
use workload_class.Controller.Readiness.{Readiness, calculate_readiness, min_positive_duration}
use workload_class.Controller.Validation.{
  ClassViolation, validated_condition, reconcile_conditions, placement_plugin_condition,
  overlapping_workload_classes,
}
use workload_class.Controller.Store.{Store, Faults}
use workload_class.Controller.Namespace.{NamespaceError, Outcome}
use workload_class.Controller.Reconcile.{reconcile_pdbs}

pub data ReconcileError : Type 0 where
  get_class_failed list_guardrails_failed status_failed : Str → ReconcileError
  overlap_failed : ResolveError → ReconcileError
  readiness_failed : CountError → ReconcileError
  pdbs_failed : List NamespaceError → ReconcileError

-- How Reconcile ends: its result, the WorkloadClass whose status it wrote, and the store.
pub record Reconciled : Type 0 where
  pub result : Result ReconcileError ℤ
  pub written : Option WorkloadClass
  pub store : Store

unfoldable pub status_beq : ConditionStatus → ConditionStatus → Bool
status_beq condition_true condition_true = true
status_beq condition_false condition_false = true
status_beq condition_unknown condition_unknown = true
status_beq _ _ = false

abbrev pub same_condition : Condition → Option Condition → Bool
same_condition c none = false
same_condition c (some d) =
    status_beq c.status d.status
    && ((c.reason == d.reason)
        && ((c.message == d.message) && eqb_ℤ c.observed_generation d.observed_generation))

-- meta.SetStatusCondition
unfoldable pub set_status_condition : Str → Condition → Conditions → Conditions × Bool
set_status_condition type c cs = (insert type c cs, not (same_condition c (lookup type cs)))

abbrev pub is_there : Option Condition → Bool
is_there none = false
is_there (some c) = true

-- meta.RemoveStatusCondition
unfoldable pub remove_status_condition : Str → Conditions → Conditions × Bool
remove_status_condition type cs = (delete type cs, is_there (lookup type cs))

abbrev pub apply_plugin_condition : Option Condition → Conditions → Conditions × Bool
apply_plugin_condition none cs = remove_status_condition ConditionType.placement_plugin_attached cs
apply_plugin_condition (some c) cs =
    set_status_condition ConditionType.placement_plugin_attached c cs

unfoldable pub readiness_beq : MaintenanceReadiness → MaintenanceReadiness → Bool
readiness_beq unset_readiness unset_readiness = true
readiness_beq ready ready = true
readiness_beq not_ready not_ready = true
readiness_beq overdue overdue = true
readiness_beq (other_readiness s) (other_readiness t) = s == t
readiness_beq _ _ = false

abbrev pub result_of : Outcome → ℤ → Result ReconcileError ℤ
result_of o next = elim o.errors [
  | [] ↦ ok (min_positive_duration next o.requeue)
  | e ∷ es ↦ err (pdbs_failed (e ∷ es))
]

abbrev pub drained : Option Tracker × List PendingLease → Store → Store
drained (t, ls) s = record s { tracker = t }

module _ (lib : SelectorLib) (times : TimeLib) (hash : Str → Str) (time : TimeFormat)
    (decode : Str → Result Str GuardrailParameters) (text : ClassViolation → Str) (client : Client)
    (faults : Faults) (status_fault : Option Str) (now : ℕ) where
  -- Step 4: the requests are drained only here.
  unfoldable pub finish :
      WorkloadClass → Str → Bool → ℤ → Option WorkloadClass → NamespacedName → Store → Reconciled
  finish wc reason has_guardrails next written key s =
      let d = drain s.tracker key in
      let o =
        reconcile_pdbs lib hash time faults wc now client reason has_guardrails d.1 (drained d s) in
      record { result = result_of o next; written = written; store = o.store }

  abbrev pub update_status :
      WorkloadClass → Str → Bool → ℤ → Bool → Option Str → NamespacedName → Store → Reconciled
  update_status wc reason has_guardrails next false fault key s =
      finish wc reason has_guardrails next none key s
  update_status wc reason has_guardrails next true none key s =
      finish wc reason has_guardrails next (some wc) key s
  update_status wc reason has_guardrails next true (some e) key s = record {
    result = err (status_failed e);
    written = none;
    store = s;
  }

  -- Step 3, for the WorkloadClass with its new conditions.
  abbrev pub with_readiness :
      WorkloadClass
      → Str
      → Bool
      → Bool
      → Result CountError Readiness
      → NamespacedName
      → Store
      → Reconciled
  with_readiness wc reason has_guardrails changed (err e) key s = record {
    result = err (readiness_failed e);
    written = none;
    store = s;
  }
  with_readiness wc reason has_guardrails changed (ok (readiness, next)) key s =
      update_status (record wc { maintenance_readiness = readiness }) reason has_guardrails next
        (not (readiness_beq wc.maintenance_readiness readiness) || changed) status_fault key s

  unfoldable pub validate_and_finish :
      WorkloadClass → List Guardrail → List Str → NamespacedName → Store → Reconciled
  validate_and_finish wc guardrails overlapping key s =
      let plugin = placement_plugin_condition wc in
      let attached = apply_plugin_condition plugin wc.conditions in
      let condition =
        reconcile_conditions (validated_condition text lib times decode wc guardrails overlapping)
          plugin in
      let set = set_status_condition ConditionType.validated condition attached.0 in
      let updated : WorkloadClass = record wc { conditions = set.0 } in
      with_readiness updated condition.reason (not (is_nil guardrails)) (set.1 || attached.1)
        (calculate_readiness lib client times updated now) key s

  abbrev pub with_overlapping :
      WorkloadClass
      → List Guardrail
      → Result ResolveError (List Str)
      → NamespacedName
      → Store
      → Reconciled
  with_overlapping wc guardrails (err e) key s = record {
    result = err (overlap_failed e);
    written = none;
    store = s;
  }
  with_overlapping wc guardrails (ok names) key s = validate_and_finish wc guardrails names key s

  abbrev pub with_guardrails :
      WorkloadClass → Result Str (List Guardrail) → NamespacedName → Store → Reconciled
  with_guardrails wc (err e) key s = record {
    result = err (list_guardrails_failed e);
    written = none;
    store = s;
  }
  with_guardrails wc (ok guardrails) key s =
      with_overlapping wc guardrails (overlapping_workload_classes lib client wc) key s

  abbrev pub with_class : Result GetError WorkloadClass → NamespacedName → Store → Reconciled
  with_class (err not_found) key s = record {
    result = ok (pos 0);
    written = none;
    store = drained (drain s.tracker key) s;
  }
  with_class (err (get_failed e)) key s = record {
    result = err (get_class_failed e);
    written = none;
    store = s;
  }
  with_class (ok wc) key s = with_guardrails wc client.list_guardrails key s

  -- Reconcile
  unfoldable pub reconcile : NamespacedName → Store → Reconciled
  reconcile key s = with_class (client.get_workload_class key.namespace key.name) key s
