-- ===== src/Admission/Readable.antt =====
-- What the webhook's checks of a guardrail mean for its parameters.
use workload_class.Prelude.{
  ◌≡◌, refl, arith, Bool, true, false, not, ◌||◌, Option, none, some, List, [], ◌∷◌, map, ◌==◌,
  str_eq, Str, Result, ok, err, ◌>>=◌, All, All-append, append-eq-nil, Bool-cases, inl, inr,
}
use workload_class.Kube.Objects.{IntOrString}
use workload_class.Api.{Guardrail, GuardrailParameters, PluginConstraint}
use workload_class.Guardrail.{invalid_weekdays}
use workload_class.Parameters.{ParameterViolation, validate_parameters, max_fallback_of}
use workload_class.PodWebhook.Budgets.{
  spot_plugin_name, raw_of, budget_of_ratio, budget_of_decoded, constraint_budgets,
  placement_budgets, guardrail_budgets, all_budgets,
}
use workload_class.PodWebhook.Limits.{IsReadable}
use workload_class.Admission.{
  JsonLib, SpecViolation, in_parameters, decoded_violations, object_violations,
  validate_placement_plugin_constraint, validate_placement, validate_plugin_constraints,
  days_checked, constraints_checked, validate_guardrail_spec,
}

module _ (json : JsonLib) (decode : Str → Result Str GuardrailParameters) where
  map-nil : (vs : List ParameterViolation) → map in_parameters vs ≡ [] → vs ≡ []
  map-nil [] e = refl
  map-nil (v ∷ vs) e = ground arith

  ratio-IsReadable :
      (name : Str) (p : GuardrailParameters) (o : Option IntOrString)
      → validate_parameters p ≡ []
      → max_fallback_of p.fallback ≡ o
      → All IsReadable (budget_of_ratio name o)
  ratio-IsReadable name p none v e = tt
  ratio-IsReadable name p (some r) v e = ((p, v, e), tt)

  decoded-IsReadable :
      (name : Str) (r : Result Str GuardrailParameters)
      → decoded_violations r ≡ []
      → All IsReadable (budget_of_decoded name r)
  decoded-IsReadable name (err e) h = tt
  decoded-IsReadable name (ok p) h =
      ratio-IsReadable name p (max_fallback_of p.fallback) (map-nil (validate_parameters p) h) refl

  object-nil :
      (name raw : Str) (r : Result Str Bool)
      → object_violations json decode name raw r ≡ []
      → (name == spot_plugin_name) ≡ true
      → decoded_violations (decode raw) ≡ []
  object-nil name raw (err e) h s = ground arith
  object-nil name raw (ok false) h s = ground arith
  object-nil name raw (ok true) h s = ground arith

  pub constraint-decoded :
      (c : PluginConstraint)
      → validate_placement_plugin_constraint json decode c ≡ []
      → (c.name == spot_plugin_name) ≡ true
      → (raw_of c.parameters == []) ≡ false
      → decoded_violations (decode (raw_of c.parameters)) ≡ []
  unfolding validate_placement_plugin_constraint
  constraint-decoded c h s r =
      object-nil c.name (raw_of c.parameters) (json.is_object (raw_of c.parameters))
        (ground (arith, h, r)) s

  constraint-IsReadable :
      (name : Str) (c : PluginConstraint)
      → validate_placement_plugin_constraint json decode c ≡ []
      → All IsReadable (constraint_budgets decode name c)
  unfolding constraint_budgets
  constraint-IsReadable name c h =
      elim (Bool-cases (not (c.name == spot_plugin_name) || (raw_of c.parameters == []))) [
        | inl e ↦ rw e tt
        | inr e ↦ rw e (
            decoded-IsReadable name (decode (raw_of c.parameters))
              (constraint-decoded c h (ground arith) (ground arith)))
      ]

  placement-IsReadable :
      (name : Str) (cs : List PluginConstraint)
      → validate_placement json decode cs ≡ []
      → All IsReadable (placement_budgets decode name cs)
  unfolding placement_budgets validate_placement
  placement-IsReadable name [] h = tt
  placement-IsReadable name (c ∷ cs) h =
      let (one, rest) = append-eq-nil (validate_placement_plugin_constraint json decode c) _ h in
      All-append IsReadable (constraint_budgets decode name c) _ (constraint-IsReadable name c one)
        (placement-IsReadable name cs rest)

  guardrail-IsReadable :
      (name : Str) (o : Option (List PluginConstraint))
      → validate_plugin_constraints json decode o ≡ []
      → All IsReadable (guardrail_budgets decode name o)
  unfolding validate_plugin_constraints
  guardrail-IsReadable name none h = tt
  guardrail-IsReadable name (some cs) h = placement-IsReadable name cs h

  no_violations :
      (days : List Str) (vs : List SpecViolation)
      → (days_checked days >>= λ u. constraints_checked vs) ≡ ok tt
      → vs ≡ []
  no_violations [] [] e = refl
  no_violations [] (v ∷ vs) e = ground arith
  no_violations (d ∷ ds) vs e = ground arith

  pub no_faults :
      (g : Guardrail)
      → validate_guardrail_spec json decode g ≡ ok tt
      → validate_plugin_constraints json decode g.placement ≡ []
  unfolding validate_guardrail_spec
  no_faults g h =
      no_violations (invalid_weekdays g.disruption.days_of_week)
        (validate_plugin_constraints json decode g.placement) h

  -- Each budget of guardrails without faults is readable.
  pub all_budgets-IsReadable :
      (gs : List Guardrail)
      → All (λ g. validate_guardrail_spec json decode g ≡ ok tt) gs
      → All IsReadable (all_budgets decode gs)
  unfolding all_budgets validate_guardrail_spec
  all_budgets-IsReadable [] h = tt
  all_budgets-IsReadable (g ∷ gs) h =
      All-append IsReadable (guardrail_budgets decode g.name g.placement) _
        (guardrail-IsReadable g.name g.placement (no_faults g h.0)) (all_budgets-IsReadable gs h.1)
