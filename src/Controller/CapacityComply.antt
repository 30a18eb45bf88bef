-- ===== src/Controller/CapacityComply.antt =====
-- validateCapacityStrategy against each guardrail alone.
use workload_class.Prelude.{
  ℕ, ◌≡◌, ◌↔◌, refl, sym, ap, ◌∙◌, arith, Bool, true, false, not, ◌&&◌, ◌||◌, some, List, [], ◌∷◌,
  ◌++◌, leb, nat_beq, any, all, append-eq-nil, Str, Result, ok, subst,
}
use workload_class.Api.{
  WorkloadClass, CapacityStrategy, SpotPlacementType, EnforcementMode, GuardrailParameters,
  Guardrail,
}
use workload_class.PodWebhook.Handler.{or_fail, is_fallback}
use workload_class.Controller.Capacity.{
  Capacity, CapacityViolation, is_forbidden_mode, is_required_mode, unconstrained, or_spot, is_spot,
  effective_ratio, capacity_if, fallback_disallowed, mode_violations_of, low_ratio_violations,
  strategy_violations, apply_guardrails, guardrail_capacity_constraints, validate_capacity_strategy,
}
use workload_class.Controller.CapacityLimits.{
  forbids, requires, disallows, ratio_of, tightened_by, all_parameters, by-forbidden, by-required,
  by-ratio, by-allow, guardrails-tightened,
}

-- A strategy of this type, ratio and use of fallback keeps what the parameters of one guardrail ask for.
abbrev pub complies : SpotPlacementType → ℕ → Bool → GuardrailParameters → Bool
complies t n falls_back p =
    (not (requires p) || (is_spot t && not (nat_beq n 0)))
    && ((not (forbids p) || not (is_spot t))
        && ((not (is_spot t) || leb (ratio_of p.min_spot_ratio) n)
            && (not (disallows p) || not falls_back)))

complies-all :
    (t : SpotPlacementType) (n : ℕ) (fb : Bool) (ps : List GuardrailParameters)
    → all (complies t n fb) ps ≡ (
        (not (any requires ps) || (is_spot t && not (nat_beq n 0)))
        && ((not (any forbids ps) || not (is_spot t))
            && ((not (is_spot t) || all (λ p. leb (ratio_of p.min_spot_ratio) n) ps)
                && (not (any disallows ps) || not fb))))
complies-all t n fb [] = ground arith
complies-all t n fb (p ∷ ps) = ground (arith, complies-all t n fb ps)

mode_violations-nil :
    (m : EnforcementMode) (t : SpotPlacementType) (n : ℕ)
    → (mode_violations_of m t (ok n) ≡ []) ↔ (
        ((not (is_required_mode m) || (is_spot t && not (nat_beq n 0)))
          && (not (is_forbidden_mode m) || not (is_spot t)))
        ≡ true)
unfolding mode_violations_of
mode_violations-nil m t n = (ground arith, ground arith)

low_ratio-nil :
    (t : SpotPlacementType) (n min_ratio : ℕ)
    → (low_ratio_violations t (ok n) min_ratio ≡ []) ↔ ((not (is_spot t) || leb min_ratio n) ≡ true)
unfolding low_ratio_violations
low_ratio-nil t n min_ratio = (ground arith, ground arith)

fallback-nil :
    (allow fb : Bool)
    → (capacity_if (not allow && fb) fallback_disallowed ≡ []) ↔ ((allow || not fb) ≡ true)
fallback-nil allow fb = (ground arith, ground arith)

append-nil_iff {ℓ} : {A : Type ℓ} (xs ys : List A) → ((xs ++ ys) ≡ []) ↔ ((xs ≡ []) × (ys ≡ []))
append-nil_iff xs ys = (append-eq-nil xs ys, λ h. rw (h.0, h.1) refl)

-- What the constraints of several guardrails together allow.
abbrev allowed_by : Capacity → SpotPlacementType → ℕ → Bool → Bool
allowed_by c t n fb =
    ((not (is_required_mode c.mode) || (is_spot t && not (nat_beq n 0)))
      && (not (is_forbidden_mode c.mode) || not (is_spot t)))
    && ((not (is_spot t) || leb c.min_spot_ratio n) && (c.allow_fallback || not fb))

strategy-allowed :
    (c : Capacity) (cs : CapacityStrategy) (n : ℕ)
    → effective_ratio (or_spot cs.type) cs.spot_ratio ≡ ok n
    → (strategy_violations c cs ≡ [])
      ↔ (allowed_by c (or_spot cs.type) n (is_fallback (or_fail cs.fallback_action)) ≡ true)
strategy-allowed c cs n e = (λ h. to (subst (λ x. x ≡ []) violations h), λ k. violations ∙ from k)
  where
    t : SpotPlacementType
    t = or_spot cs.type

    fb : Bool
    fb = is_fallback (or_fail cs.fallback_action)

    last : List CapacityViolation
    last = capacity_if (not c.allow_fallback && fb) fallback_disallowed

    all_found : List CapacityViolation
    all_found =
        mode_violations_of c.mode t (ok n)
        ++ (low_ratio_violations t (ok n) c.min_spot_ratio ++ last)

    violations : strategy_violations c cs ≡ all_found
    violations = unfold strategy_violations in rw e refl

    to : all_found ≡ [] → allowed_by c t n fb ≡ true
    to h =
        let (m, behind) = append-eq-nil (mode_violations_of c.mode t (ok n)) _ h in
        let (l, f) = append-eq-nil (low_ratio_violations t (ok n) c.min_spot_ratio) last behind in
        ground (
          arith,
          (mode_violations-nil c.mode t n).0 m,
          (low_ratio-nil t n c.min_spot_ratio).0 l,
          (fallback-nil c.allow_fallback fb).0 f,
        )

    from : allowed_by c t n fb ≡ true → all_found ≡ []
    from k =
        let m = (mode_violations-nil c.mode t n).1 (ground arith) in
        let l = (low_ratio-nil t n c.min_spot_ratio).1 (ground arith) in
        let f = (fallback-nil c.allow_fallback fb).1 (ground arith) in
        (append-nil_iff (mode_violations_of c.mode t (ok n)) _).1
          (m, (append-nil_iff (low_ratio_violations t (ok n) c.min_spot_ratio) last).1 (l, f))

allowed-complies :
    (ps : List GuardrailParameters) (t : SpotPlacementType) (n : ℕ) (fb : Bool)
    → (any forbids ps && any requires ps) ≡ false
    → allowed_by (tightened_by ps unconstrained) t n fb ≡ all (complies t n fb) ps
allowed-complies ps t n fb h = ground (
  arith,
  by-forbidden ps unconstrained,
  by-required ps unconstrained refl,
  by-ratio ps unconstrained n,
  by-allow ps unconstrained,
  complies-all t n fb ps,
)

-- If the parameters of the guardrails can be read, none forbids Spot while another requires it, and the
-- strategy's ratio can be read, then validateCapacityStrategy finds no violation exactly if the
-- strategy complies with the parameters of each guardrail alone: Spot and a ratio above 0 where Spot is
-- required, no Spot where it is forbidden, at least the least ratio, and no fallback where that is
-- disallowed or its greatest ratio is 0.
pub validate_capacity_strategy_iff :
    (decode : Str → Result Str GuardrailParameters) (wc : WorkloadClass) (cs : CapacityStrategy)
    (g : Guardrail) (gs : List Guardrail) (n : ℕ)
    → wc.capacity_strategy ≡ some cs
    → (guardrail_capacity_constraints decode (g ∷ gs)).1 ≡ []
    → (any forbids (all_parameters decode (g ∷ gs))
        && any requires (all_parameters decode (g ∷ gs)))
      ≡ false
    → effective_ratio (or_spot cs.type) cs.spot_ratio ≡ ok n
    → (validate_capacity_strategy decode wc (g ∷ gs) ≡ []) ↔ (
        all
          (complies (or_spot cs.type) n (is_fallback (or_fail cs.fallback_action)))
          (all_parameters decode (g ∷ gs))
        ≡ true)
validate_capacity_strategy_iff decode wc cs g gs n has readable one e =
    let found = guardrail_capacity_constraints decode (g ∷ gs) in
    let ps = all_parameters decode (g ∷ gs) in
    let t = or_spot cs.type in
    let fb = is_fallback (or_fail cs.fallback_action) in
    let same = validates ∙ ap (λ c. strategy_violations c cs) capacity in
    let allows = strategy-allowed (tightened_by ps unconstrained) cs n e in
    let fits = allowed-complies ps t n fb one in
    (λ h. sym fits ∙ allows.0 (sym same ∙ h), λ k. same ∙ allows.1 (fits ∙ k))
  where
    capacity :
        (guardrail_capacity_constraints decode (g ∷ gs)).0
        ≡ tightened_by (all_parameters decode (g ∷ gs)) unconstrained
    capacity =
        unfold guardrail_capacity_constraints in
        guardrails-tightened decode (g ∷ gs) unconstrained readable'
      where
        readable' : (apply_guardrails decode (g ∷ gs) unconstrained).1 ≡ []
        readable' = unfold guardrail_capacity_constraints in readable

    validates :
        validate_capacity_strategy decode wc (g ∷ gs)
        ≡ strategy_violations (guardrail_capacity_constraints decode (g ∷ gs)).0 cs
    validates = unfold validate_capacity_strategy in rw (readable, has) refl
