-- ===== src/Parameters.antt =====
-- internal/utils/gkespotguardrail_validation.go: the validation of the gke-spot-placement parameters of a
-- guardrail, and fallbackWithinBudget of internal/webhook/v1/fallback_budget.go, which reads one of them.
pub mod Budget
use workload_class.Prelude.{
  ℕ, ◌*◌, Bool, true, false, not, ◌&&◌, Option, none, some, List, [], ◌∷◌, ◌++◌, leb, ltb, Str,
  if◌then◌else◌, Result, ok, err,
}
use workload_class.Prelude.Int.{ℤ, pos, negsuc, ltb_ℤ, eqb_ℤ}
use workload_class.Kube.Objects.{IntOrString, int_val, str_val}
use workload_class.Api.{
  EnforcementMode, unset_mode, allowed, required, forbidden, other_mode, ReversionAction,
  unset_reversion, active, lazy, none_reversion, other_reversion, FallbackConstraints,
  ReversionConstraints, GuardrailParameters,
}
use workload_class.SpotRatio.{PercentError, parse_percentage, is_percentage, guardrail_percent}

-- The messages, with what their texts name.
pub data ParameterViolation : Type 0 where
  invalid_enforcement_mode : Str → ParameterViolation
  invalid_min_spot_ratio : Str → ParameterViolation
  invalid_max_fallback_ratio : IntOrString → ParameterViolation
  invalid_reversion_action : ReversionAction → ParameterViolation
  negative_fallback_duration : ℤ → ParameterViolation
  required_with_zero : ParameterViolation
  forbidden_with_ratio : Str → ParameterViolation
  ratio_without_fallback : IntOrString → ParameterViolation
  duration_without_reversion : ParameterViolation

abbrev pub violation_if : Bool → ParameterViolation → List ParameterViolation
violation_if b v = if b then v ∷ [] else []

-- The switch on EnforcementMode.
unfoldable pub mode_violations : EnforcementMode → List ParameterViolation
mode_violations (other_mode m) = invalid_enforcement_mode m ∷ []
mode_violations _ = []

unfoldable pub ratio_violations : Option Str → List ParameterViolation
ratio_violations none = []
ratio_violations (some s) = violation_if (not (is_percentage s)) (invalid_min_spot_ratio s)

abbrev pub max_fallback_of : Option FallbackConstraints → Option IntOrString
max_fallback_of none = none
max_fallback_of (some f) = f.max_fallback_ratio

-- The switch on the type of MaxFallbackRatio.
unfoldable pub max_fallback_violations : Option IntOrString → List ParameterViolation
max_fallback_violations none = []
max_fallback_violations (some (int_val n)) =
    violation_if (ltb_ℤ n (pos 0)) (invalid_max_fallback_ratio (int_val n))
max_fallback_violations (some (str_val s)) =
    violation_if (not (is_percentage s)) (invalid_max_fallback_ratio (str_val s))

abbrev pub action_violations : Option ReversionAction → List ParameterViolation
action_violations (some (other_reversion a)) = invalid_reversion_action (other_reversion a) ∷ []
action_violations (some unset_reversion) = invalid_reversion_action unset_reversion ∷ []
action_violations _ = []

abbrev pub duration_violations : Option ℤ → List ParameterViolation
duration_violations none = []
duration_violations (some d) = violation_if (ltb_ℤ d (pos 0)) (negative_fallback_duration d)

unfoldable pub reversion_violations : Option ReversionConstraints → List ParameterViolation
reversion_violations none = []
reversion_violations (some r) =
    action_violations r.required_reversion_action ++ duration_violations r.max_fallback_duration

-- maxFallbackRatioPositive
unfoldable pub max_fallback_ratio_positive : IntOrString → Bool
max_fallback_ratio_positive (int_val n) = ltb_ℤ (pos 0) n
max_fallback_ratio_positive (str_val s) = elim (guardrail_percent s) [
  | none ↦ false
  | some n ↦ ltb_ℤ (pos 0) n
]

abbrev pub mode_against : EnforcementMode → Str → Option ℤ → List ParameterViolation
mode_against required s (some n) = violation_if (eqb_ℤ n (pos 0)) required_with_zero
mode_against forbidden s (some n) = violation_if (ltb_ℤ (pos 0) n) (forbidden_with_ratio s)
mode_against _ s _ = []

abbrev pub ratio_against_mode : EnforcementMode → Option Str → List ParameterViolation
ratio_against_mode mode none = []
ratio_against_mode mode (some s) = mode_against mode s (guardrail_percent s)

abbrev pub is_forbidden : Option Bool → Bool
is_forbidden (some false) = true
is_forbidden _ = false

abbrev pub ratio_against_fallback : Option Bool → Option IntOrString → List ParameterViolation
ratio_against_fallback allow none = []
ratio_against_fallback allow (some r) =
    violation_if (is_forbidden allow && max_fallback_ratio_positive r) (ratio_without_fallback r)

abbrev pub allow_of : Option FallbackConstraints → Option Bool
allow_of none = none
allow_of (some f) = f.allow_fallback_to_on_demand

abbrev pub duration_against_action : Option ReversionAction → Option ℤ → List ParameterViolation
duration_against_action (some none_reversion) (some d) = duration_without_reversion ∷ []
duration_against_action _ _ = []

abbrev pub reversion_against : Option ReversionConstraints → List ParameterViolation
reversion_against none = []
reversion_against (some r) =
    duration_against_action r.required_reversion_action r.max_fallback_duration

-- validateGKESpotGuardrailCombinations
unfoldable pub validate_combinations : GuardrailParameters → List ParameterViolation
validate_combinations p =
    ratio_against_mode p.enforcement_mode p.min_spot_ratio
    ++ (ratio_against_fallback (allow_of p.fallback) (max_fallback_of p.fallback)
        ++ reversion_against p.reversion)

-- validateGKESpotGuardrailParameters, behind the parsing of the JSON text.
unfoldable pub validate_parameters : GuardrailParameters → List ParameterViolation
validate_parameters p =
    mode_violations p.enforcement_mode
    ++ (ratio_violations p.min_spot_ratio
        ++ (max_fallback_violations (max_fallback_of p.fallback)
            ++ (reversion_violations p.reversion ++ validate_combinations p)))

pub data BudgetError : Type 0 where
  invalid_percentage : PercentError → BudgetError
  negative_count : ℤ → BudgetError

abbrev pub percent_allows : ℕ → ℕ → Result PercentError ℕ → Result BudgetError Bool
percent_allows fallback_pods total_pods (err e) = err (invalid_percentage e)
percent_allows fallback_pods total_pods (ok pct) = ok (leb (fallback_pods * 100) (total_pods * pct))

-- fallbackWithinBudget
unfoldable pub fallback_within_budget : ℕ → ℕ → IntOrString → Result BudgetError Bool
fallback_within_budget fallback_pods total_pods (str_val s) =
    percent_allows fallback_pods total_pods (parse_percentage s)
fallback_within_budget fallback_pods total_pods (int_val (negsuc n)) =
    err (negative_count (negsuc n))
fallback_within_budget fallback_pods total_pods (int_val (pos n)) = ok (leb fallback_pods n)
