-- ===== src/Controller/StatusKept.antt =====
-- What Reconcile leaves alone.
use workload_class.Prelude.{
  ℕ, ◌≡◌, refl, sym, ap, ◌∙◌, subst, arith, Bool, true, false, not, ◌||◌, Option, none, some, List,
  [], ◌∷◌, Str, str_eq, Result, ok, err,
}
use workload_class.Prelude.Int.{ℤ}
use workload_class.Kube.Labels.{SelectorLib}
use workload_class.Kube.Objects.{NamespacedName, key_eq, Pdb}
use workload_class.Kube.Client.{Client, GetError, not_found, get_failed}
use workload_class.Api.{WorkloadClass, Guardrail, GuardrailParameters}
use workload_class.Api.ConditionType
use workload_class.Resolve.{ResolveError}
use workload_class.LeaseTracker.{drain, PendingLease, Tracker}
use workload_class.Guardrail.{is_nil}
use workload_class.Pdb.{TimeFormat}
use workload_class.Temporal.{TimeLib}
use workload_class.PodWebhook.Counts.{CountError}
use workload_class.Controller.Readiness.{Readiness, calculate_readiness, min_positive_duration}
use workload_class.Controller.Validation.{
  ClassViolation, validated_condition, reconcile_conditions, placement_plugin_condition,
  overlapping_workload_classes,
}
use workload_class.Controller.Store.{Store, Faults, is_controlled_by}
use workload_class.Controller.Namespace.{NamespaceError, Outcome}
use workload_class.Controller.Reconcile.{reconcile_pdbs}
use workload_class.Controller.Status.{
  ReconcileError, pdbs_failed, Reconciled, apply_plugin_condition, set_status_condition,
  readiness_beq, result_of, drained, finish, update_status, with_readiness, validate_and_finish,
  with_overlapping, with_guardrails, with_class, reconcile,
}
use workload_class.Controller.Untouched.{IsForeign, Has}
use workload_class.Controller.Foreign.{reconcile_pdbs-Has}

-- The error is one of those before the budgets are reconciled.
abbrev pub is_early : ReconcileError → Bool
is_early (pdbs_failed es) = false
is_early _ = true

module _ (lib : SelectorLib) (times : TimeLib) (hash : Str → Str) (time : TimeFormat)
    (decode : Str → Result Str GuardrailParameters) (text : ClassViolation → Str) (client : Client)
    (faults : Faults) (status_fault : Option Str) (now : ℕ) (key : NamespacedName) (s : Store)
    (uid : Str) (P : Reconciled → Type 0)
    (early : (e : ReconcileError)
      → is_early e ≡ true
      → P (record { result = err e; written = none; store = s }))
    (late : (wc : WorkloadClass) (reason : Str) (g : Bool) (next : ℤ)
        (written : Option WorkloadClass)
      → wc.uid ≡ uid
      → P (
          finish lib times hash time decode text client faults status_fault now wc reason g next
            written key s)) where
  update-P :
      (wc : WorkloadClass) (reason : Str) (g : Bool) (next : ℤ) (changed : Bool)
      (fault : Option Str)
      → wc.uid ≡ uid
      → P (
          update_status lib times hash time decode text client faults status_fault now wc reason g
            next changed fault key s)
  update-P wc reason g next false fault u = late wc reason g next none u
  update-P wc reason g next true none u = late wc reason g next (some wc) u
  update-P wc reason g next true (some e) u = early _ refl

  readiness-P :
      (wc : WorkloadClass) (reason : Str) (g changed : Bool) (r : Result CountError Readiness)
      → wc.uid ≡ uid
      → P (
          with_readiness lib times hash time decode text client faults status_fault now wc reason g
            changed r key s)
  readiness-P wc reason g changed (err e) u = early _ refl
  readiness-P wc reason g changed (ok (readiness, next)) u =
      update-P (record wc { maintenance_readiness = readiness }) reason g next
        (not (readiness_beq wc.maintenance_readiness readiness) || changed) status_fault u

  validate-P :
      (wc : WorkloadClass) (guardrails : List Guardrail) (names : List Str)
      → wc.uid ≡ uid
      → P (
          validate_and_finish lib times hash time decode text client faults status_fault now wc
            guardrails names key s)
  unfolding validate_and_finish
  validate-P wc guardrails names u =
      let plugin = placement_plugin_condition wc in
      let attached = apply_plugin_condition plugin wc.conditions in
      let condition =
        reconcile_conditions (validated_condition text lib times decode wc guardrails names)
          plugin in
      let set = set_status_condition ConditionType.validated condition attached.0 in
      let updated : WorkloadClass = record wc { conditions = set.0 } in
      readiness-P updated condition.reason (not (is_nil guardrails)) (set.1 || attached.1)
        (calculate_readiness lib client times updated now) u

  overlapping-P :
      (wc : WorkloadClass) (guardrails : List Guardrail) (r : Result ResolveError (List Str))
      → wc.uid ≡ uid
      → P (
          with_overlapping lib times hash time decode text client faults status_fault now wc
            guardrails r key s)
  overlapping-P wc guardrails (err e) u = early _ refl
  overlapping-P wc guardrails (ok names) u = validate-P wc guardrails names u

  guardrails-P :
      (wc : WorkloadClass) (r : Result Str (List Guardrail))
      → wc.uid ≡ uid
      → P (
          with_guardrails lib times hash time decode text client faults status_fault now wc r key s)
  guardrails-P wc (err e) u = early _ refl
  guardrails-P wc (ok guardrails) u =
      overlapping-P wc guardrails (overlapping_workload_classes lib client wc) u

module _ (lib : SelectorLib) (times : TimeLib) (hash : Str → Str) (time : TimeFormat)
    (decode : Str → Result Str GuardrailParameters) (text : ClassViolation → Str) (client : Client)
    (faults : Faults) (status_fault : Option Str) (now : ℕ) (key : NamespacedName) (s : Store) where
  abbrev ends : Result GetError WorkloadClass → Reconciled
  ends r = with_class lib times hash time decode text client faults status_fault now r key s

  drained-Has :
      (name : Str) (p : Pdb) (d : Option Tracker × List PendingLease)
      → Has name p s
      → Has name p (drained d s)
  drained-Has name p (t, ls) h = h

  finish-Has :
      (name : Str) (p : Pdb) (wc : WorkloadClass) (reason : Str) (g : Bool) (next : ℤ)
      (written : Option WorkloadClass)
      → IsForeign wc p
      → Has name p s
      → Has name p
          (finish lib times hash time decode text client faults status_fault now wc reason g next
            written key s).store
  unfolding finish
  finish-Has name p wc reason g next written f h =
      reconcile_pdbs-Has lib hash time faults wc now name p f client reason g
        (drain s.tracker key).1 (drained (drain s.tracker key) s)
        (drained-Has name p (drain s.tracker key) h)

  -- Reconcile of a WorkloadClass leaves every budget alone that no WorkloadClass manages and this one does
  -- not control: it is still there under its name, whatever the API server answers and whichever calls fail.
  pub reconcile-Has :
      (wc : WorkloadClass) (name : Str) (p : Pdb)
      → client.get_workload_class key.namespace key.name ≡ ok wc
      → IsForeign wc p
      → Has name p s
      → Has name p
          (reconcile lib times hash time decode text client faults status_fault now key s).store
  unfolding reconcile
  reconcile-Has wc name p e f h =
      subst (λ r. Has name p (ends r).store) (sym e)
        (guardrails-P lib times hash time decode text client faults status_fault now key s wc.uid
          (λ r. Has name p r.store) (λ e k. h)
          (λ c reason g next written u. finish-Has name p c reason g next written (moved c u) h) wc
          client.list_guardrails refl)
    where
      moved : (c : WorkloadClass) → c.uid ≡ wc.uid → IsForeign c p
      moved c u = unfold is_controlled_by in (f.0, rw u f.1)

  abbrev is_early_result : Result ReconcileError ℤ → Bool
  is_early_result (ok d) = false
  is_early_result (err e) = is_early e

  abbrev Keeps : Reconciled → Type 0
  Keeps r = is_early_result r.result ≡ true → r.store ≡ s

  late_result : (o : Outcome) (next : ℤ) → is_early_result (result_of o next) ≡ false
  late_result o next = by_errors o.errors
    where
      by_errors :
          (es : List NamespaceError)
          → is_early_result (elim es [
            | [] ↦ ok (min_positive_duration next o.requeue)
            | e ∷ rest ↦ err (pdbs_failed (e ∷ rest))
          ])
            ≡ false
      by_errors [] = refl
      by_errors (e ∷ rest) = refl

  finish-Keeps :
      (wc : WorkloadClass) (reason : Str) (g : Bool) (next : ℤ) (written : Option WorkloadClass)
      → Keeps (
          finish lib times hash time decode text client faults status_fault now wc reason g next
            written key s)
  unfolding finish
  finish-Keeps wc reason g next written h =
      let d = drain s.tracker key in
      let o = reconcile_pdbs lib hash time faults wc now client reason g d.1 (drained d s) in
      ground (arith, late_result o next)

  ends-Keeps : (r : Result GetError WorkloadClass) → Keeps (ends r)
  ends-Keeps (err not_found) h = ground arith
  ends-Keeps (err (get_failed e)) h = refl
  ends-Keeps (ok wc) h =
      guardrails-P lib times hash time decode text client faults status_fault now key s wc.uid Keeps
        (λ e k j. refl) (λ c reason g next written u. finish-Keeps c reason g next written) wc
        client.list_guardrails refl h

  -- If Reconcile fails before it comes to the budgets, because the WorkloadClass, the guardrails, the
  -- namespace or its WorkloadClasses or Pods cannot be read, or the status not be written, then the budgets, the
  -- Pods and the lease tracker are as before: no request for a lease is lost.
  pub reconcile-early :
      (e : ReconcileError)
      → (reconcile lib times hash time decode text client faults status_fault now key s).result
        ≡ err e
      → is_early e ≡ true
      → (reconcile lib times hash time decode text client faults status_fault now key s).store ≡ s
  unfolding reconcile
  reconcile-early e h k =
      ends-Keeps (client.get_workload_class key.namespace key.name) (ap is_early_result h ∙ k)
