-- ===== src/Controller/Capacity.antt =====
-- internal/controller/workloadclass_controller.go: validateCapacityStrategy against the strictest capacity
-- constraints of all guardrails, which guardrailCapacityConstraints collects.
use workload_class.Prelude.{
  ℕ, Bool, true, false, not, ◌&&◌, ◌||◌, Option, none, some, List, [], ◌∷◌, ◌++◌, ltb, nat_beq,
  ◌==◌, str_eq, Str, lit, if◌then◌else◌, Result, ok, err,
}
use workload_class.Prelude.Int.{pos, eqb_ℤ}
use workload_class.Kube.Objects.{IntOrString, int_val, str_val}
use workload_class.Api.{
  WorkloadClass, CapacityStrategy, SpotPlacementType, unset_type, spot, on_demand, EnforcementMode,
  allowed, required, forbidden, other_mode, FallbackConstraints, GuardrailParameters,
  PluginConstraint, Guardrail,
}
use workload_class.SpotRatio.{PercentError, parse_percentage}
use workload_class.Parameters.{is_forbidden, allow_of, max_fallback_of}
use workload_class.PodWebhook.Budgets.{spot_plugin_name, raw_of}
use workload_class.PodWebhook.Handler.{or_fail, is_fallback}

-- The three variables that the guardrails tighten.
pub record Capacity : Type 0 where
  pub mode : EnforcementMode
  pub min_spot_ratio : ℕ
  pub allow_fallback : Bool

abbrev pub unconstrained : Capacity
unconstrained = record { mode = allowed; min_spot_ratio = 0; allow_fallback = true }

-- The errors of the parameters, with the guardrail's name.
pub data CapacityError : Type 0 where
  undecodable : Str → Str → CapacityError
  invalid_mode : Str → Str → CapacityError
  invalid_ratio : Str → Str → PercentError → CapacityError

abbrev pub is_forbidden_mode : EnforcementMode → Bool
is_forbidden_mode forbidden = true
is_forbidden_mode _ = false

-- The switch on EnforcementMode.
unfoldable pub apply_mode : EnforcementMode → Capacity → Capacity
apply_mode forbidden c = record c { mode = forbidden; min_spot_ratio = 0 }
apply_mode required c = if is_forbidden_mode c.mode then c else record c { mode = required }
apply_mode _ c = c

abbrev pub mode_errors : Str → EnforcementMode → List CapacityError
mode_errors name (other_mode m) = invalid_mode name m ∷ []
mode_errors name _ = []

abbrev pub raise_ratio : ℕ → Capacity → Capacity
raise_ratio n c =
    if not (is_forbidden_mode c.mode) && ltb c.min_spot_ratio n
    then record c { min_spot_ratio = n }
    else c

-- isZero
abbrev pub is_zero : IntOrString → Bool
is_zero (int_val n) = eqb_ℤ n (pos 0)
is_zero (str_val s) = (s == lit "0%") || (s == lit "0")

abbrev pub is_zero_ratio : Option IntOrString → Bool
is_zero_ratio none = false
is_zero_ratio (some r) = is_zero r

unfoldable pub apply_fallback : Option FallbackConstraints → Capacity → Capacity
apply_fallback f c =
    if is_forbidden (allow_of f) || is_zero_ratio (max_fallback_of f)
    then record c { allow_fallback = false }
    else c

-- What follows the switch: `continue` leaves out the fallback constraints when the ratio cannot be parsed.
unfoldable pub apply_ratio :
    Str
    → Str
    → Result PercentError ℕ
    → Option FallbackConstraints
    → Capacity
    → Capacity × List CapacityError
apply_ratio name text (err e) f c = (c, invalid_ratio name text e ∷ [])
apply_ratio name text (ok n) f c = (apply_fallback f (raise_ratio n c), [])

abbrev pub apply_rest :
    Str → Option Str → Option FallbackConstraints → Capacity → Capacity × List CapacityError
apply_rest name none f c = (apply_fallback f c, [])
apply_rest name (some s) f c = apply_ratio name s (parse_percentage s) f c

unfoldable pub apply_parameters :
    Str → GuardrailParameters → Capacity → Capacity × List CapacityError
apply_parameters name p c =
    let rest = apply_rest name p.min_spot_ratio p.fallback (apply_mode p.enforcement_mode c) in
    (rest.0, mode_errors name p.enforcement_mode ++ rest.1)

abbrev pub apply_decoded :
    Str → Result Str GuardrailParameters → Capacity → Capacity × List CapacityError
apply_decoded name (err e) c = (c, undecodable name e ∷ [])
apply_decoded name (ok p) c = apply_parameters name p c

module _ (decode : Str → Result Str GuardrailParameters) where
  unfoldable pub apply_constraint :
      Str → PluginConstraint → Capacity → Capacity × List CapacityError
  apply_constraint name c cap =
      if not (c.name == spot_plugin_name) || (raw_of c.parameters == [])
      then (cap, [])
      else apply_decoded name (decode (raw_of c.parameters)) cap

  -- applyPlacementCapacityConstraints
  unfoldable pub apply_placement :
      Str → List PluginConstraint → Capacity → Capacity × List CapacityError
  apply_placement name [] cap = (cap, [])
  apply_placement name (c ∷ cs) cap =
      let first = apply_constraint name c cap in
      let rest = apply_placement name cs first.0 in (rest.0, first.1 ++ rest.1)

  abbrev pub apply_guardrail :
      Str → Option (List PluginConstraint) → Capacity → Capacity × List CapacityError
  apply_guardrail name none cap = (cap, [])
  apply_guardrail name (some placement) cap = apply_placement name placement cap

  unfoldable pub apply_guardrails : List Guardrail → Capacity → Capacity × List CapacityError
  apply_guardrails [] cap = (cap, [])
  apply_guardrails (g ∷ gs) cap =
      let first = apply_guardrail g.name g.placement cap in
      let rest = apply_guardrails gs first.0 in (rest.0, first.1 ++ rest.1)

  -- guardrailCapacityConstraints
  unfoldable pub guardrail_capacity_constraints : List Guardrail → Capacity × List CapacityError
  guardrail_capacity_constraints gs = apply_guardrails gs unconstrained

-- The violations, with what their texts name.
pub data CapacityViolation : Type 0 where
  parameters_unreadable : List CapacityError → CapacityViolation
  strategy_required : CapacityViolation
  invalid_spot_ratio : Str → PercentError → CapacityViolation
  type_not_spot : SpotPlacementType → CapacityViolation
  zero_spot_ratio : CapacityViolation
  spot_forbidden : CapacityViolation
  ratio_too_low : ℕ → ℕ → CapacityViolation
  fallback_disallowed : CapacityViolation

abbrev pub or_spot : SpotPlacementType → SpotPlacementType
or_spot unset_type = spot
or_spot t = t

abbrev pub is_spot : SpotPlacementType → Bool
is_spot spot = true
is_spot _ = false

-- The ratio that counts: 0 for OnDemand, 100 where it is not set.
unfoldable pub effective_ratio : SpotPlacementType → Str → Result PercentError ℕ
effective_ratio on_demand s = ok 0
effective_ratio t [] = ok 100
effective_ratio t (c ∷ s) = parse_percentage (c ∷ s)

abbrev pub capacity_if : Bool → CapacityViolation → List CapacityViolation
capacity_if b v = if b then v ∷ [] else []

abbrev pub ratio_errors : Str → Result PercentError ℕ → List CapacityViolation
ratio_errors s (ok n) = []
ratio_errors s (err e) = invalid_spot_ratio s e ∷ []

abbrev pub is_zero_percent : Result PercentError ℕ → Bool
is_zero_percent (ok n) = nat_beq n 0
is_zero_percent (err e) = false

-- The switch on the mode.
unfoldable pub mode_violations_of :
    EnforcementMode → SpotPlacementType → Result PercentError ℕ → List CapacityViolation
mode_violations_of required t ratio =
    if not (is_spot t)
    then type_not_spot t ∷ []
    else capacity_if (is_zero_percent ratio) zero_spot_ratio
mode_violations_of forbidden t ratio = capacity_if (is_spot t) spot_forbidden
mode_violations_of _ t ratio = []

unfoldable pub low_ratio_violations :
    SpotPlacementType → Result PercentError ℕ → ℕ → List CapacityViolation
low_ratio_violations t (err e) min_ratio = []
low_ratio_violations t (ok n) min_ratio =
    capacity_if (is_spot t && (ltb 0 min_ratio && ltb n min_ratio)) (ratio_too_low n min_ratio)

unfoldable pub strategy_violations : Capacity → CapacityStrategy → List CapacityViolation
strategy_violations c cs =
    let ratio = effective_ratio (or_spot cs.type) cs.spot_ratio in
    ratio_errors cs.spot_ratio ratio
    ++ (mode_violations_of c.mode (or_spot cs.type) ratio
        ++ (low_ratio_violations (or_spot cs.type) ratio c.min_spot_ratio
            ++ capacity_if (not c.allow_fallback && is_fallback (or_fail cs.fallback_action))
                fallback_disallowed))

abbrev pub is_required_mode : EnforcementMode → Bool
is_required_mode required = true
is_required_mode _ = false

abbrev pub missing_or : Capacity → Option CapacityStrategy → List CapacityViolation
missing_or c none = capacity_if (is_required_mode c.mode) strategy_required
missing_or c (some cs) = strategy_violations c cs

abbrev pub error_violations : List CapacityError → List CapacityViolation
error_violations [] = []
error_violations (e ∷ es) = parameters_unreadable (e ∷ es) ∷ []

-- validateCapacityStrategy
unfoldable pub validate_capacity_strategy :
    (Str → Result Str GuardrailParameters) → WorkloadClass → List Guardrail → List CapacityViolation
validate_capacity_strategy decode wc [] = []
validate_capacity_strategy decode wc (g ∷ gs) =
    let found = guardrail_capacity_constraints decode (g ∷ gs) in
    error_violations found.1 ++ missing_or found.0 wc.capacity_strategy
