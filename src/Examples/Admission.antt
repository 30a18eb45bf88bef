-- ===== src/Examples/Admission.antt =====
-- A guardrail that the webhook admits.
use workload_class.Prelude.{
  ◌≡◌, ◌↔◌, ◌⊎◌, ◌+◌, false, err, map, filter, refl, true, some, [], ◌∷◌, Str, str_beq, lit,
  contains, ok,
}
use workload_class.Kube.Objects.{condition_true, condition_false}
use workload_class.Api.{Guardrail}
use workload_class.SpotRatio.{
  before_percent, atoi, unsigned_value, digits_value, is_percentage, guardrail_percent,
}
use workload_class.Guardrail.{invalid_weekdays}
use workload_class.Parameters.{
  validate_parameters, mode_violations, ratio_violations, max_fallback_violations,
  reversion_violations, validate_combinations, max_fallback_ratio_positive,
}
use workload_class.PodWebhook.Budgets.{budget_exhausted, fallback_budgets, is_in_fallback}
use workload_class.Admission.{
  JsonLib, SpecViolation, validate_placement_plugin_constraint, validate_placement,
  validate_plugin_constraints, guardrail_condition, validate_guardrail_spec, validate_create,
  Rejection,
}
use workload_class.Admission.Admitted.{warning, violates, validate_create_cases}
use workload_class.Admission.Permitted.{AllPermit, budget_exhausted-permits}
use workload_class.Kube.Client.{Client}
use workload_class.PodWebhook.Counts.{PodCounts}
use workload_class.Examples.Samples.{web_class, guardrail, decode, client}

-- No text has space around it, and each is an object.
abbrev json : JsonLib
json = record { trim_space = λ s. s; is_object = λ s. ok true }

abbrev quarter_guardrail : Guardrail
quarter_guardrail = record guardrail {
  placement =
      some (record { name = lit "gke-spot-placement"; parameters = some (lit "quarter") } ∷ []);
}

abbrev spec_text : SpecViolation → Str
spec_text v = lit "not allowed"

validate_create_cases_example :
    let result = validate_create json decode (ok (web_class ∷ [])) quarter_guardrail in
    let status = (guardrail_condition json decode spec_text quarter_guardrail).status in
    ((status ≡ condition_true)
      × (result
          ≡ ok (
              map
                (warning quarter_guardrail)
                (filter (violates quarter_guardrail) (web_class ∷ [])))))
    ⊎ ((status ≡ condition_false) × ((e : Rejection) × (result ≡ err e)))
validate_create_cases_example =
    validate_create_cases json decode spec_text (web_class ∷ []) quarter_guardrail

admitted : validate_guardrail_spec json decode quarter_guardrail ≡ ok tt
unfolding validate_guardrail_spec validate_plugin_constraints validate_placement
    validate_placement_plugin_constraint validate_parameters mode_violations ratio_violations
    max_fallback_violations reversion_violations validate_combinations max_fallback_ratio_positive
    is_percentage guardrail_percent before_percent atoi unsigned_value digits_value invalid_weekdays
    contains lit str_beq
admitted = refl

abbrev guarded_client : Client
guarded_client = record client { list_guardrails = ok (quarter_guardrail ∷ []) }

-- Two Pods, one of which has fallen back.
abbrev half_fallen : PodCounts
half_fallen = record { total = 2; effective_spot = 1; fallback = 1 }

budget_exhausted-permits_example :
    (budget_exhausted web_class (fallback_budgets decode guarded_client) (ok half_fallen) ≡ false)
    ↔ (((half_fallen.fallback ≡ 0) × (is_in_fallback web_class ≡ false))
        ⊎ AllPermit decode
            (half_fallen.fallback + 1)
            (half_fallen.total + 1)
            (quarter_guardrail ∷ []))
budget_exhausted-permits_example =
    budget_exhausted-permits json decode web_class guarded_client (quarter_guardrail ∷ [])
      half_fallen refl (admitted, tt)
