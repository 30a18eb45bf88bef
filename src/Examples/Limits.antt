-- ===== src/Examples/Limits.antt =====
-- Guardrails and Spot ratios.
use workload_class.Prelude.{
  none, ◌≡◌, refl, ◌↔◌, arith, true, [], ◌∷◌, lit, str_beq, contains, some,
}
use workload_class.Guardrail.{windows_of, validate_against_guardrails, invalid_weekdays}
use workload_class.Guardrail.Weekdays.{ValidDays}
use workload_class.Guardrail.Strictest.{AllComply}
use workload_class.Guardrail.Validate.{validate_against_guardrails_iff}
use workload_class.SpotRatio.{
  before_percent, atoi, unsigned_value, digits_value, is_percentage, guardrail_percent,
  spot_share_met,
}
use workload_class.SpotRatio.Share.{Counts, OnTarget, admit_times, admit_times-OnTarget}
use workload_class.Kube.Objects.{str_val}
use workload_class.Api.{GuardrailParameters, required}
use workload_class.Parameters.{
  validate_parameters, mode_violations, ratio_violations, max_fallback_violations,
  reversion_violations, validate_combinations, max_fallback_ratio_positive,
}
use workload_class.Examples.Samples.{web_class, guardrail}

valid_days : ValidDays (windows_of web_class)
unfolding invalid_weekdays contains lit str_beq
valid_days = (refl, tt)

validate_against_guardrails_iff_example :
    (validate_against_guardrails web_class (guardrail ∷ []) ≡ [])
    ↔ AllComply web_class (guardrail ∷ [])
validate_against_guardrails_iff_example =
    validate_against_guardrails_iff web_class valid_days (guardrail ∷ [])

abbrev nobody : Counts
nobody = record { spot_pods = 0; total = 0 }

admit_times-OnTarget_example :
    OnTarget 70 (admit_times 70 9 nobody)
    × (spot_share_met (admit_times 70 9 nobody).spot_pods (admit_times 70 9 nobody).total 70 ≡ true)
admit_times-OnTarget_example =
    admit_times-OnTarget 70 9 nobody (omega arith) (omega arith, omega arith)

eighty_is_percentage : is_percentage (lit "80%") ≡ true
unfolding is_percentage lit
eighty_is_percentage = refl

-- At most a quarter of the Pods on fallback.
abbrev quarter : GuardrailParameters
quarter = record {
  enforcement_mode = required;
  min_spot_ratio = some (lit "80%");
  fallback = some (record {
    allow_fallback_to_on_demand = some true;
    max_fallback_ratio = some (str_val (lit "25%"));
  });
  reversion = none;
}

quarter_passes : validate_parameters quarter ≡ []
unfolding validate_parameters mode_violations ratio_violations max_fallback_violations
    reversion_violations validate_combinations max_fallback_ratio_positive guardrail_percent
    is_percentage before_percent atoi unsigned_value digits_value lit
quarter_passes = refl
