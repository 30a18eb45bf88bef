-- ===== src/Controller/Unlimited.antt =====
-- What follows from a WorkloadClass without a limit on the time without disruption.
use workload_class.Prelude.{
  ℕ, ◌≡◌, ◌⊎◌, inl, inr, refl, subst, arith, Bool, true, false, not, ◌||◌, Bool-cases, Option, none,
  some, List, [], Str, str_eq, Result, ok, err,
}
use workload_class.Prelude.Int.{ℤ, pos}
use workload_class.Kube.Labels.{SelectorLib}
use workload_class.Kube.Objects.{NamespacedName, Pod, Pdb}
use workload_class.Kube.Client.{Client}
use workload_class.Api.{WorkloadClass, Guardrail, GuardrailParameters, ready, overdue}
use workload_class.Api.ConditionType.{validated}
use workload_class.Resolve.{ResolveError}
use workload_class.LeaseTracker.{Tracker}
use workload_class.Guardrail.{is_nil}
use workload_class.Pdb.{TimeFormat, sync_pdb, is_pdb_open}
use workload_class.Pdb.Sync.{sync-open_iff}
use workload_class.Temporal.{TimeLib}
use workload_class.Disruption.Handler.{Request, handle}
use workload_class.Disruption.Evictions.{is_denied, Governed, subjects, eviction-denied_iff}
use workload_class.Controller.Readiness.{calculate_readiness}
use workload_class.Controller.ReadinessCases.{override-ready, unset_limit-overdue}
use workload_class.Controller.Validation.{
  ClassViolation, validated_condition, reconcile_conditions, placement_plugin_condition,
  overlapping_workload_classes,
}
use workload_class.Controller.Store.{Store, Faults}
use workload_class.Controller.Status.{
  apply_plugin_condition, set_status_condition, readiness_beq, finish, update_status,
  with_readiness, validate_and_finish, with_overlapping, with_guardrails, reconcile,
}

-- Its readiness keeps no Pod from being disrupted.
abbrev pub Lifted : WorkloadClass → Type 0
Lifted wc =
    ((wc.disruption_policy.emergency_override ≡ true) × (wc.maintenance_readiness ≡ ready))
    ⊎ (wc.maintenance_readiness ≡ overdue)

abbrev WroteLifted : Option WorkloadClass → Type 0
WroteLifted none = Unit {0}
WroteLifted (some wc) = Lifted wc

module _ (lib : SelectorLib) (times : TimeLib) (hash : Str → Str) (time : TimeFormat)
    (decode : Str → Result Str GuardrailParameters) (text : ClassViolation → Str) (client : Client)
    (faults : Faults) (status_fault : Option Str) (now : ℕ) (key : NamespacedName) (s : Store) where
  update_status-WroteLifted :
      (wc : WorkloadClass) (reason : Str) (g : Bool) (next : ℤ) (changed : Bool)
      (fault : Option Str)
      → Lifted wc
      → WroteLifted
          (update_status lib times hash time decode text client faults status_fault now wc reason g
            next changed fault key s).written
  unfolding finish
  update_status-WroteLifted wc reason g next false fault l = tt
  update_status-WroteLifted wc reason g next true none l = l
  update_status-WroteLifted wc reason g next true (some e) l = tt

  with_readiness-WroteLifted :
      (wc : WorkloadClass) (reason : Str) (g changed : Bool)
      → wc.disruption_policy.max_non_disruption_duration_days ≡ pos 0
      → WroteLifted
          (with_readiness lib times hash time decode text client faults status_fault now wc reason g
            changed
            (calculate_readiness lib client times wc now)
            key
            s).written
  with_readiness-WroteLifted wc reason g changed limit =
      elim (Bool-cases wc.disruption_policy.emergency_override) [
        | inl e ↦ rw (override-ready lib client times wc now e) (
            update_status-WroteLifted (record wc { maintenance_readiness = ready }) reason g (pos 0)
              (not (readiness_beq wc.maintenance_readiness ready) || changed) status_fault
              (inl (e, refl)))
        | inr e ↦ rw (unset_limit-overdue lib client times wc now limit e) (
            update_status-WroteLifted (record wc { maintenance_readiness = overdue }) reason g
              (pos 0) (not (readiness_beq wc.maintenance_readiness overdue) || changed) status_fault
              (inr refl))
      ]

  with_overlapping-WroteLifted :
      (wc : WorkloadClass) (guardrails : List Guardrail) (r : Result ResolveError (List Str))
      → wc.disruption_policy.max_non_disruption_duration_days ≡ pos 0
      → WroteLifted
          (with_overlapping lib times hash time decode text client faults status_fault now wc
            guardrails r key s).written
  unfolding validate_and_finish
  with_overlapping-WroteLifted wc guardrails (err e) limit = tt
  with_overlapping-WroteLifted wc guardrails (ok names) limit =
      let plugin = placement_plugin_condition wc in
      let attached = apply_plugin_condition plugin wc.conditions in
      let condition =
        reconcile_conditions (validated_condition text lib times decode wc guardrails names)
          plugin in
      let set = set_status_condition validated condition attached.0 in
      with_readiness-WroteLifted (record wc { conditions = set.0 }) condition.reason
        (not (is_nil guardrails)) (set.1 || attached.1) limit

  with_guardrails-WroteLifted :
      (wc : WorkloadClass) (r : Result Str (List Guardrail))
      → wc.disruption_policy.max_non_disruption_duration_days ≡ pos 0
      → WroteLifted
          (with_guardrails lib times hash time decode text client faults status_fault now wc r key
            s).written
  with_guardrails-WroteLifted wc (err e) limit = tt
  with_guardrails-WroteLifted wc (ok guardrails) limit =
      with_overlapping-WroteLifted wc guardrails (overlapping_workload_classes lib client wc) limit

  reconcile-WroteLifted :
      (wc : WorkloadClass)
      → client.get_workload_class key.namespace key.name ≡ ok wc
      → wc.disruption_policy.max_non_disruption_duration_days ≡ pos 0
      → WroteLifted
          (reconcile lib times hash time decode text client faults status_fault now key s).written
  unfolding reconcile
  reconcile-WroteLifted wc reads limit =
      rw reads (with_guardrails-WroteLifted wc client.list_guardrails limit)

  -- Let the WorkloadClass that Reconcile reads have maxNonDisruptionDurationDays 0, and let Reconcile write its
  -- status. For the WorkloadClass as it was written, whatever its windows and at any time: the eviction of a
  -- Pod that it governs, by a user who is none of its subjects, is not denied; and a budget that is synced
  -- for it and that Pod is open.
  pub unset_limit-allowed :
      (wc served : WorkloadClass) (webhook_client : Client) (later : ℕ) (t : Option Tracker)
      (request : Request) (pod : Pod) (pdb : Pdb) (valid : Bool)
      → client.get_workload_class key.namespace key.name ≡ ok wc
      → wc.disruption_policy.max_non_disruption_duration_days ≡ pos 0
      → (reconcile lib times hash time decode text client faults status_fault now key s).written
        ≡ some served
      → Governed lib webhook_client request pod served
      → subjects request served ≡ []
      → (is_denied (handle lib times time hash webhook_client later t request).1 ≡ false)
        × (is_pdb_open (some (sync_pdb hash served pod pdb valid)) ≡ true)
  unset_limit-allowed wc served webhook_client later t request pod pdb valid reads limit wrote g
        none_of =
      let lifted : Lifted served = subst WroteLifted wrote (reconcile-WroteLifted wc reads limit) in
      let denied =
        eviction-denied_iff lib times time hash webhook_client later request pod served t g
          none_of in
      (
        elim (Bool-cases
            (is_denied (handle lib times time hash webhook_client later t request).1)) [
              | inr e ↦ e
              | inl e ↦
                  let (_, calm, on_time, _) = denied.0 e in
                  absurd (elim lifted [
                    | inl k ↦ ground (arith, k, calm)
                    | inr k ↦ ground (arith, k, on_time)
                  ])
            ],
        (sync-open_iff hash served pod pdb valid).1
            (inr (elim lifted [ inl k ↦ inl k.1 | inr k ↦ inr k ])),
      )
