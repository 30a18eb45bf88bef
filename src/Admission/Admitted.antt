-- ===== src/Admission/Admitted.antt =====
-- What the admission of a guardrail has to do with its status.
use workload_class.Prelude.{
  ◌≡◌, refl, Bool, not, List, [], ◌∷◌, ◌++◌, map, str_eq, ap, ap₂, sym, filter, ◌⊎◌, if◌then◌else◌,
  Str, Result, ok, err, ◌>>=◌, inl, inr,
}
use workload_class.Kube.Objects.{condition_true, condition_false}
use workload_class.Api.{WorkloadClass, Guardrail, GuardrailParameters}
use workload_class.Guardrail.{is_nil, Violation, invalid_weekdays, guardrail_violations}
use workload_class.LeaseTracker.{key_of}
use workload_class.Controller.Validation.{condition}
use workload_class.Admission.{
  JsonLib, SpecViolation, day_violations, validate_plugin_constraints, guardrail_condition,
  Rejection, invalid_days, invalid_constraints, Warning, warning_of, days_checked,
  constraints_checked, warnings_for, validate_against_workload_classes, validate_guardrail_spec,
  validate_create,
}

-- The WorkloadClass does not comply with the guardrail.
abbrev pub violates : Guardrail → WorkloadClass → Bool
violates g wc = not (is_nil (guardrail_violations wc g.disruption))

abbrev pub warning : Guardrail → WorkloadClass → Warning
warning g wc = (key_of wc, guardrail_violations wc g.disruption)

warning_of-filter :
    (g : Guardrail) (wc : WorkloadClass) (rest : List WorkloadClass) (vs : List Violation)
    (ws : List Warning)
    → guardrail_violations wc g.disruption ≡ vs
    → ws ≡ map (warning g) rest
    → warning_of wc vs ++ ws ≡ map (warning g) (if not (is_nil vs) then wc ∷ rest else rest)
warning_of-filter g wc rest [] ws e h = h
warning_of-filter g wc rest (v ∷ vs) ws e h = ap₂ (λ us w. (key_of wc, us) ∷ w) (sym e) h

warnings_for-filter :
    (g : Guardrail) (wcs : List WorkloadClass)
    → warnings_for g wcs ≡ map (warning g) (filter (violates g) wcs)
unfolding warnings_for
warnings_for-filter g [] = refl
warnings_for-filter g (wc ∷ wcs) =
    warning_of-filter g wc (filter (violates g) wcs) (guardrail_violations wc g.disruption)
      (warnings_for g wcs) refl (warnings_for-filter g wcs)

module _ (json : JsonLib) (decode : Str → Result Str GuardrailParameters) where
  condition_of_days :
      (text : SpecViolation → Str) (g : Guardrail) (days : List Str) (vs : List SpecViolation)
      → (((condition g.generation (map text (day_violations days ++ vs))).status ≡ condition_true)
          × ((days_checked days >>= λ u. constraints_checked vs) ≡ ok tt))
        ⊎ (((condition g.generation (map text (day_violations days ++ vs))).status
              ≡ condition_false)
            × ((e : Rejection) × ((days_checked days >>= λ u. constraints_checked vs) ≡ err e)))
  unfolding condition
  condition_of_days text g [] [] = inl (refl, refl)
  condition_of_days text g [] (v ∷ vs) = inr (refl, (invalid_constraints (v ∷ vs), refl))
  condition_of_days text g (d ∷ ds) vs = inr (refl, (invalid_days (d ∷ ds), refl))

  -- If the WorkloadClasses can be listed, then either the controller reports the guardrail as validated, and
  -- the webhook admits it and warns of exactly the WorkloadClasses that do not comply with it, in their
  -- order and each with all its violations; or the controller reports it as not validated, and the webhook
  -- rejects it.
  pub validate_create_cases :
      (text : SpecViolation → Str) (wcs : List WorkloadClass) (g : Guardrail)
      → let result = validate_create json decode (ok wcs) g in
        let status = (guardrail_condition json decode text g).status in
        ((status ≡ condition_true) × (result ≡ ok (map (warning g) (filter (violates g) wcs))))
        ⊎ ((status ≡ condition_false) × ((e : Rejection) × (result ≡ err e)))
  unfolding validate_create validate_guardrail_spec validate_against_workload_classes
      guardrail_condition
  validate_create_cases text wcs g =
      let days = invalid_weekdays g.disruption.days_of_week in
      let vs = validate_plugin_constraints json decode g.placement in
      elim (condition_of_days text g days vs) [
        | inl (c, h) ↦ inl (c, rw h (ap ok (warnings_for-filter g wcs)))
        | inr (c, (e, h)) ↦ inr (c, (e, rw h refl))
      ]
