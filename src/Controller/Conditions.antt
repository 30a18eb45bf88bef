-- ===== src/Controller/Conditions.antt =====
-- When a WorkloadClass protects its Pods.
use workload_class.Prelude.{
  ◌≡◌, ◌≢◌, ◌↔◌, refl, sym, ◌∙◌, arith, Bool, true, false, not, Option, none, some, List, [], ◌∷◌,
  str_eq, str_beq, Str, lit, Result,
}
use workload_class.Prelude.Int.{ℤ}
use workload_class.Kube.Labels.{SelectorLib}
use workload_class.Kube.Objects.{Condition, condition_true}
use workload_class.Api.{WorkloadClass, Guardrail, GuardrailParameters}
use workload_class.Api.Reason
use workload_class.Guardrail.{is_nil}
use workload_class.Temporal.{TimeLib}
use workload_class.Controller.Validation.{
  ClassViolation, condition_for, class_violations, validated_condition, selector_overlap_message,
  add_placement_violation, reconcile_conditions, protects_pods,
}

-- There is no placement condition, or it is True.
abbrev pub IsAttached : Option Condition → Type 0
IsAttached none = Unit
IsAttached (some p) = p.status ≡ condition_true

passed-protects : (b : Bool) → protects_pods Reason.validation_passed b ≡ true
unfolding protects_pods lit str_beq
passed-protects b = refl

overlap-protects : (b : Bool) → protects_pods Reason.selector_overlap b ≡ b
unfolding protects_pods lit str_beq
overlap-protects true = refl
overlap-protects false = refl

failed-protects : (b : Bool) → protects_pods Reason.validation_failed b ≡ false
unfolding protects_pods lit str_beq
failed-protects b = refl

unguarded-protects : (b : Bool) → protects_pods Reason.no_guardrails b ≡ false
unfolding protects_pods lit str_beq
unguarded-protects b = refl

module _ (text : ClassViolation → Str) where
  condition-protects_iff :
      (generation : ℤ) (vs os : List ClassViolation) (guarded : Bool)
      → (protects_pods (condition_for text generation vs os guarded).reason guarded ≡ true)
        ↔ ((vs ≡ []) × (guarded ≡ true))
  unfolding condition_for
  condition-protects_iff generation (v ∷ vs) os guarded =
      (λ e. ground (arith, failed-protects guarded), λ h. ground arith)
  condition-protects_iff generation [] (o ∷ os) guarded =
      (λ e. (refl, sym (overlap-protects guarded) ∙ e), λ h. overlap-protects guarded ∙ h.1)
  condition-protects_iff generation [] [] true = (λ e. (refl, refl), λ h. passed-protects true)
  condition-protects_iff generation [] [] false =
      (λ e. ground (arith, unguarded-protects false), λ h. ground arith)

  placed-protects_iff :
      (c : Condition) (placement : Option Condition) (guarded : Bool)
      → (protects_pods (reconcile_conditions c placement).reason guarded ≡ true)
        ↔ ((protects_pods c.reason guarded ≡ true) × IsAttached placement)
  unfolding reconcile_conditions add_placement_violation
  placed-protects_iff c none guarded = (λ e. (e, tt), λ h. h.0)
  placed-protects_iff c (some p) guarded = (ground (arith, failed-protects guarded), ground arith)

  -- With the condition that validatedCondition and reconcileConditions compute, a WorkloadClass protects its
  -- Pods exactly if there is a guardrail, neither its spec, nor the guardrails, nor its capacity strategy
  -- give a violation, and no placement plugin is waited for. Overlapping selectors make no difference.
  pub validated_condition-protects_iff :
      (lib : SelectorLib) (times : TimeLib) (decode : Str → Result Str GuardrailParameters)
      (wc : WorkloadClass) (gs : List Guardrail) (overlapping : List Str)
      (placement : Option Condition)
      → (protects_pods
            (reconcile_conditions
              (validated_condition text lib times decode wc gs overlapping)
              placement).reason
            (not (is_nil gs))
          ≡ true)
        ↔ ((gs ≢ []) × (class_violations text lib times decode wc gs ≡ []) × IsAttached placement)
  unfolding validated_condition
  validated_condition-protects_iff lib times decode wc gs overlapping placement =
      let vs = class_violations text lib times decode wc gs in
      let os = selector_overlap_message overlapping in
      let guarded = not (is_nil gs) in
      let cond = condition-protects_iff wc.generation vs os guarded in
      let placed =
        placed-protects_iff (condition_for text wc.generation vs os guarded) placement guarded in
      (
        λ e. let (c, p) = placed.0 e in let (v, g) = cond.0 c in ((λ k. ground arith), v, p),
        λ h. let (g, v, p) = h in placed.1 (cond.1 (v, non_nil gs g), p),
      )
    where
      non_nil : (gs : List Guardrail) → gs ≢ [] → not (is_nil gs) ≡ true
      non_nil [] n = absurd (n refl)
      non_nil (g ∷ gs) n = refl
