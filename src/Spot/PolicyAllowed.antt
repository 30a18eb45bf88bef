-- ===== src/Spot/PolicyAllowed.antt =====
-- What the policy reconciler reports, and what a valid policy means for the reversion.
use workload_class.Prelude.{
  ◌≡◌, refl, sym, ap, ◌∙◌, arith, Bool, true, false, not, ◌&&◌, ◌||◌, Option, none, some, List, [],
  ◌∷◌, contains, all, Str, str_eq, ◌==◌, Result, ok, err, Bool-cases, inl, inr,
}
use workload_class.Prelude.Int.{ℤ, pos, ltb_ℤ}
use workload_class.Api.{
  Guardrail, GuardrailParameters, PluginConstraint, ReversionConstraints, ReversionAction,
  SpotPlacementPolicy,
}
use workload_class.Guardrail.{is_nil}
use workload_class.PodWebhook.Budgets.{spot_plugin_name, raw_of}
use workload_class.PodWebhook.Handler.{is_none_reversion, or_none_reversion}
use workload_class.Controller.Capacity.{is_forbidden_mode}
use workload_class.Spot.Policy.{
  PolicyViolation, mode_forbidden, none_with_limit, action_beq, add_violation, add_if_violated,
  check_action, check_min, check_limit, validate_reversion_constraints, validate_decoded,
  validate_constraint, validate_against_placement_constraints, validate_against_guardrail,
  validate_against_all, validate_spot_policy,
}
use workload_class.Spot.Reversion.{
  stricter, apply_duration, max_duration_of, duration_of_decoded, constraint_duration,
  placement_duration, guardrail_duration, strictest_duration,
}

module _ (policy : SpotPlacementPolicy) (taken : ReversionAction) where
  abbrev pub has_action : Option ReversionAction → Bool
  has_action none = true
  has_action (some wanted) = action_beq taken wanted

  abbrev pub min_within : Option ℤ → ℤ → Bool
  min_within none limit = true
  min_within (some d) limit = not (ltb_ℤ limit d)

  -- The reversion ends before the limit.
  abbrev pub reverts_within : ℤ → Bool
  reverts_within limit =
      not (is_none_reversion taken) && min_within policy.min_duration_on_fallback limit

  abbrev pub keeps_limit : Option ℤ → Bool
  keeps_limit none = true
  keeps_limit (some limit) = reverts_within limit

  abbrev pub keeps_reversion : Option ReversionConstraints → Bool
  keeps_reversion none = true
  keeps_reversion (some r) =
      has_action r.required_reversion_action && keeps_limit r.max_fallback_duration

  abbrev pub permits : Result Str GuardrailParameters → Bool
  permits (err e) = false
  permits (ok p) = not (is_forbidden_mode p.enforcement_mode) && keeps_reversion p.reversion

  module _ (decode : Str → Result Str GuardrailParameters) where
    -- The constraint is of another plugin or has no parameters, or they are readable and permit the policy.
    abbrev pub constraint_permits : PluginConstraint → Bool
    constraint_permits c =
        (not (c.name == spot_plugin_name) || (raw_of c.parameters == []))
        || permits (decode (raw_of c.parameters))

    abbrev pub guardrail_permits : Guardrail → Bool
    guardrail_permits g = elim g.placement [ none ↦ true | some cs ↦ all constraint_permits cs ]

module _ (text : PolicyViolation → Str) where
  nil-add : (msg : Str) (vs : List Str) → is_nil (add_violation msg vs) ≡ false
  unfolding add_violation contains
  nil-add msg [] = refl
  nil-add msg (v ∷ vs) = elim (Bool-cases (contains (v ∷ vs) msg)) [
    | inl e ↦ rw e refl
    | inr e ↦ rw e refl
  ]

  nil-if :
      (b : Bool) (v : PolicyViolation) (vs : List Str)
      → is_nil (add_if_violated text b v vs) ≡ (is_nil vs && not b)
  nil-if true v vs = nil-add (text v) vs ∙ ground arith
  nil-if false v vs = ground arith

  module _ (policy : SpotPlacementPolicy) (taken : ReversionAction) where
    nil-action :
        (o : Option ReversionAction) (vs : List Str)
        → is_nil (check_action text o taken vs) ≡ (is_nil vs && has_action policy taken o)
    unfolding check_action
    nil-action none vs = ground arith
    nil-action (some w) vs = nil-if (not (action_beq taken w)) _ vs ∙ ground arith

    nil-min :
        (o : Option ℤ) (limit : ℤ) (vs : List Str)
        → is_nil (check_min text o limit vs) ≡ (is_nil vs && min_within policy taken o limit)
    nil-min none limit vs = ground arith
    nil-min (some d) limit vs = nil-if (ltb_ℤ limit d) _ vs

    nil-limit :
        (o : Option ℤ) (vs : List Str)
        → is_nil (check_limit text o policy taken vs) ≡ (is_nil vs && keeps_limit policy taken o)
    unfolding check_limit
    nil-limit none vs = ground arith
    nil-limit (some limit) vs = ground (
      arith,
      nil-min policy.min_duration_on_fallback limit
          (add_if_violated text (is_none_reversion taken) none_with_limit vs),
      nil-if (is_none_reversion taken) none_with_limit vs,
    )

    nil-reversion :
        (o : Option ReversionConstraints) (vs : List Str)
        → is_nil (validate_reversion_constraints text o policy taken vs)
          ≡ (is_nil vs && keeps_reversion policy taken o)
    unfolding validate_reversion_constraints
    nil-reversion none vs = ground arith
    nil-reversion (some r) vs = ground (
      arith,
      nil-limit r.max_fallback_duration (check_action text r.required_reversion_action taken vs),
      nil-action r.required_reversion_action vs,
    )

    nil-decoded :
        (r : Result Str GuardrailParameters) (vs : List Str)
        → is_nil (validate_decoded text r policy taken vs) ≡ (is_nil vs && permits policy taken r)
    nil-decoded (err e) vs = nil-add _ vs ∙ ground arith
    nil-decoded (ok p) vs = ground (
      arith,
      nil-reversion p.reversion
          (add_if_violated text (is_forbidden_mode p.enforcement_mode) mode_forbidden vs),
      nil-if (is_forbidden_mode p.enforcement_mode) mode_forbidden vs,
    )

    module _ (decode : Str → Result Str GuardrailParameters) where
      nil-constraint :
          (c : PluginConstraint) (vs : List Str)
          → is_nil (validate_constraint text decode policy taken c vs)
            ≡ (is_nil vs && constraint_permits policy taken decode c)
      unfolding validate_constraint
      nil-constraint c vs = ground (arith, nil-decoded (decode (raw_of c.parameters)) vs)

      nil-placement :
          (cs : List PluginConstraint) (vs : List Str)
          → is_nil (validate_against_placement_constraints text decode policy taken cs vs)
            ≡ (is_nil vs && all (constraint_permits policy taken decode) cs)
      unfolding validate_against_placement_constraints
      nil-placement [] vs = ground arith
      nil-placement (c ∷ cs) vs = ground (
        arith,
        nil-placement cs (validate_constraint text decode policy taken c vs),
        nil-constraint c vs,
      )

      nil-guardrail :
          (o : Option (List PluginConstraint)) (vs : List Str)
          → is_nil (validate_against_guardrail text decode policy taken o vs) ≡ (
              is_nil vs
              && elim o [ none ↦ true | some cs ↦ all (constraint_permits policy taken decode) cs ])
      nil-guardrail none vs = ground arith
      nil-guardrail (some cs) vs = nil-placement cs vs

      nil-all :
          (gs : List Guardrail) (vs : List Str)
          → is_nil (validate_against_all text decode policy taken gs vs)
            ≡ (is_nil vs && all (guardrail_permits policy taken decode) gs)
      unfolding validate_against_all
      nil-all [] vs = ground arith
      nil-all (g ∷ gs) vs = ground (
        arith,
        nil-all gs (validate_against_guardrail text decode policy taken g.placement vs),
        nil-guardrail g.placement vs,
      )

  -- validateSpotPolicyAgainstGuardrails finds no violation exactly if every gke-spot-placement constraint
  -- with parameters has readable ones, does not forbid Spot, requires no other reversion action, and, where
  -- it limits the time on fallback, the action is not None and the policy's minimal time is within the limit.
  pub validate_spot_policy_iff :
      (decode : Str → Result Str GuardrailParameters) (policy : SpotPlacementPolicy)
      (gs : List Guardrail)
      → is_nil (validate_spot_policy text decode policy gs)
        ≡ all (guardrail_permits policy (or_none_reversion policy.reversion_action) decode) gs
  unfolding validate_spot_policy
  validate_spot_policy_iff decode policy gs =
      nil-all policy (or_none_reversion policy.reversion_action) decode gs []

module _ (policy : SpotPlacementPolicy) (taken : ReversionAction)
    (decode : Str → Result Str GuardrailParameters) where
  abbrev Keeps : Option ℤ → Type 0
  Keeps o = keeps_limit policy taken o ≡ true

  stricter-Keeps :
      (o : Option ℤ) (d : ℤ) → Keeps o → reverts_within policy taken d ≡ true → Keeps (stricter o d)
  stricter-Keeps none d k h = h
  stricter-Keeps (some s) d k h = elim (Bool-cases (ltb_ℤ d s)) [ inl e ↦ rw e h | inr e ↦ rw e k ]

  apply-Keeps : (o l : Option ℤ) → Keeps o → Keeps l → Keeps (apply_duration o l)
  apply-Keeps o none k h = k
  apply-Keeps o (some d) k h = elim (Bool-cases (ltb_ℤ d (pos 0))) [
    | inl e ↦ rw e k
    | inr e ↦ rw e (stricter-Keeps o d k h)
  ]

  decoded-Keeps :
      (o : Option ℤ) (r : Result Str GuardrailParameters)
      → Keeps o
      → permits policy taken r ≡ true
      → Keeps (duration_of_decoded o r)
  decoded-Keeps o (err e) k h = k
  decoded-Keeps o (ok p) k h =
      apply-Keeps o (max_duration_of p.reversion) k (of_reversion p.reversion (ground arith))
    where
      of_reversion :
          (r : Option ReversionConstraints)
          → keeps_reversion policy taken r ≡ true
          → Keeps (max_duration_of r)
      of_reversion none h = refl
      of_reversion (some c) h = ground arith

  constraint-Keeps :
      (o : Option ℤ) (c : PluginConstraint)
      → Keeps o
      → constraint_permits policy taken decode c ≡ true
      → Keeps (constraint_duration decode o c)
  unfolding constraint_duration
  constraint-Keeps o c k h =
      elim (Bool-cases (not (c.name == spot_plugin_name) || (raw_of c.parameters == []))) [
        | inl e ↦ rw e k
        | inr e ↦ rw e (decoded-Keeps o (decode (raw_of c.parameters)) k (ground (arith, e, h)))
      ]

  placement-Keeps :
      (o : Option ℤ) (cs : List PluginConstraint)
      → Keeps o
      → all (constraint_permits policy taken decode) cs ≡ true
      → Keeps (placement_duration decode o cs)
  unfolding placement_duration
  placement-Keeps o [] k h = k
  placement-Keeps o (c ∷ cs) k h =
      placement-Keeps (constraint_duration decode o c) cs (constraint-Keeps o c k (ground arith))
        (ground arith)

  guardrail-Keeps :
      (o : Option ℤ) (p : Option (List PluginConstraint))
      → Keeps o
      → elim p [ none ↦ true | some cs ↦ all (constraint_permits policy taken decode) cs ] ≡ true
      → Keeps (guardrail_duration decode o p)
  guardrail-Keeps o none k h = k
  guardrail-Keeps o (some cs) k h = placement-Keeps o cs k h

  strictest-Keeps :
      (o : Option ℤ) (gs : List Guardrail)
      → Keeps o
      → all (guardrail_permits policy taken decode) gs ≡ true
      → Keeps (strictest_duration decode o gs)
  unfolding strictest_duration
  strictest-Keeps o [] k h = k
  strictest-Keeps o (g ∷ gs) k h =
      strictest-Keeps (guardrail_duration decode o g.placement) gs
        (guardrail-Keeps o g.placement k (ground arith)) (ground arith)

-- If a policy has no violation, then under the limit that the reversion computes from the same guardrails its
-- action is not None, and the minimal time that it sets is within the limit.
pub valid_policy-reverts :
    (text : PolicyViolation → Str) (decode : Str → Result Str GuardrailParameters)
    (policy : SpotPlacementPolicy) (gs : List Guardrail) (limit : ℤ)
    → validate_spot_policy text decode policy gs ≡ []
    → strictest_duration decode none gs ≡ some limit
    → reverts_within policy (or_none_reversion policy.reversion_action) limit ≡ true
valid_policy-reverts text decode policy gs limit valid e =
    let taken = or_none_reversion policy.reversion_action in
    let allowed = sym (validate_spot_policy_iff text decode policy gs) ∙ ap is_nil valid in
    sym (ap (keeps_limit policy taken) e) ∙ strictest-Keeps policy taken decode none gs refl allowed
