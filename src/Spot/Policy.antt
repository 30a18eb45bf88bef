-- ===== src/Spot/Policy.antt =====
-- internal/controller/gkespotplacementpolicy_controller.go: the validation of a GKESpotPlacementPolicy, and the
-- status of the WorkloadClasses that reference it. The texts of the violations are an argument.
use workload_class.Prelude.{
  Bool, true, false, not, ◌||◌, Option, none, some, List, [], ◌∷◌, ◌++◌, contains, ◌==◌, str_eq,
  Str, if◌then◌else◌, Result, ok, err,
}
use workload_class.Prelude.Int.{ℤ, ltb_ℤ}
use workload_class.Kube.Objects.{Condition, condition_true}
use workload_class.Api.{
  Guardrail, GuardrailParameters, PluginConstraint, ReversionConstraints, ReversionAction,
  unset_reversion, active, lazy, none_reversion, other_reversion, SpotPlacementPolicy,
}
use workload_class.Api.Reason
use workload_class.PodWebhook.Budgets.{spot_plugin_name, raw_of}
use workload_class.PodWebhook.Handler.{is_none_reversion, or_none_reversion}
use workload_class.Controller.Capacity.{is_forbidden_mode}
use workload_class.Controller.Validation.{condition, no_guardrails_msg}

-- What the texts of the violations say.
pub data PolicyViolation : Type 0 where
  invalid_parameters : Str → PolicyViolation
  mode_forbidden : PolicyViolation
  other_action : ReversionAction → ReversionAction → PolicyViolation
  none_with_limit : PolicyViolation
  min_exceeds : ℤ → ℤ → PolicyViolation

unfoldable pub action_beq : ReversionAction → ReversionAction → Bool
action_beq unset_reversion unset_reversion = true
action_beq active active = true
action_beq lazy lazy = true
action_beq none_reversion none_reversion = true
action_beq (other_reversion s) (other_reversion t) = s == t
action_beq _ _ = false

-- addViolation; a text is in `seen` exactly if it is in the list.
unfoldable pub add_violation : Str → List Str → List Str
add_violation msg violations =
    if contains violations msg then violations else violations ++ msg ∷ []

module _ (text : PolicyViolation → Str) where
  abbrev pub add_if_violated : Bool → PolicyViolation → List Str → List Str
  add_if_violated b v vs = if b then add_violation (text v) vs else vs

  unfoldable pub check_action : Option ReversionAction → ReversionAction → List Str → List Str
  check_action none taken vs = vs
  check_action (some wanted) taken vs =
      add_if_violated (not (action_beq taken wanted)) (other_action taken wanted) vs

  abbrev pub check_min : Option ℤ → ℤ → List Str → List Str
  check_min none limit vs = vs
  check_min (some d) limit vs = add_if_violated (ltb_ℤ limit d) (min_exceeds d limit) vs

  unfoldable pub check_limit :
      Option ℤ → SpotPlacementPolicy → ReversionAction → List Str → List Str
  check_limit none policy taken vs = vs
  check_limit (some limit) policy taken vs =
      check_min policy.min_duration_on_fallback limit
        (add_if_violated (is_none_reversion taken) none_with_limit vs)

  -- validateReversionConstraints
  unfoldable pub validate_reversion_constraints :
      Option ReversionConstraints → SpotPlacementPolicy → ReversionAction → List Str → List Str
  validate_reversion_constraints none policy taken vs = vs
  validate_reversion_constraints (some r) policy taken vs =
      check_limit r.max_fallback_duration policy taken
        (check_action r.required_reversion_action taken vs)

  abbrev pub validate_decoded :
      Result Str GuardrailParameters → SpotPlacementPolicy → ReversionAction → List Str → List Str
  validate_decoded (err e) policy taken vs = add_violation (text (invalid_parameters e)) vs
  validate_decoded (ok p) policy taken vs =
      validate_reversion_constraints p.reversion policy taken
        (add_if_violated (is_forbidden_mode p.enforcement_mode) mode_forbidden vs)

  module _ (decode : Str → Result Str GuardrailParameters) (policy : SpotPlacementPolicy)
      (taken : ReversionAction) where
    unfoldable pub validate_constraint : PluginConstraint → List Str → List Str
    validate_constraint c vs =
        if not (c.name == spot_plugin_name) || (raw_of c.parameters == [])
        then vs
        else validate_decoded (decode (raw_of c.parameters)) policy taken vs

    -- validateAgainstPlacementConstraints
    unfoldable pub validate_against_placement_constraints :
        List PluginConstraint → List Str → List Str
    validate_against_placement_constraints [] vs = vs
    validate_against_placement_constraints (c ∷ cs) vs =
        validate_against_placement_constraints cs (validate_constraint c vs)

    abbrev pub validate_against_guardrail : Option (List PluginConstraint) → List Str → List Str
    validate_against_guardrail none vs = vs
    validate_against_guardrail (some placement) vs =
        validate_against_placement_constraints placement vs

    unfoldable pub validate_against_all : List Guardrail → List Str → List Str
    validate_against_all [] vs = vs
    validate_against_all (g ∷ gs) vs =
        validate_against_all gs (validate_against_guardrail g.placement vs)

  -- validateSpotPolicyAgainstGuardrails
  unfoldable pub validate_spot_policy :
      (Str → Result Str GuardrailParameters) → SpotPlacementPolicy → List Guardrail → List Str
  validate_spot_policy decode policy gs =
      validate_against_all decode policy (or_none_reversion policy.reversion_action) gs []

  abbrev pub condition_without_guardrails : SpotPlacementPolicy → Condition
  condition_without_guardrails policy = record {
    status = condition_true;
    reason = Reason.no_guardrails;
    message = no_guardrails_msg;
    observed_generation = policy.generation;
  }

  -- validateAgainstGuardrails of this reconciler, for the guardrails.
  unfoldable pub policy_condition :
      (Str → Result Str GuardrailParameters) → SpotPlacementPolicy → List Guardrail → Condition
  policy_condition decode policy [] = condition_without_guardrails policy
  policy_condition decode policy (g ∷ gs) =
      condition policy.generation (validate_spot_policy decode policy (g ∷ gs))
