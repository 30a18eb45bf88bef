-- ===== src/Controller/CapacityLimits.antt =====
-- The capacity constraints of several guardrails, as one by one.
use workload_class.Prelude.{
  ℕ, ◌≡◌, refl, sym, ap, ◌∙◌, arith, Bool, true, false, not, ◌&&◌, ◌||◌, Option, none, some, List,
  [], ◌∷◌, ◌++◌, leb, any, all, append-eq-nil, Str, str_eq, ◌==◌, if◌then◌else◌, Result, ok, err,
}
use workload_class.Api.{
  GuardrailParameters, PluginConstraint, Guardrail, EnforcementMode, FallbackConstraints,
}
use workload_class.SpotRatio.{PercentError, parse_percentage}
use workload_class.Parameters.{is_forbidden, allow_of, max_fallback_of}
use workload_class.PodWebhook.Budgets.{spot_plugin_name, raw_of}
use workload_class.Controller.Capacity.{
  Capacity, CapacityError, is_forbidden_mode, is_required_mode, apply_mode, raise_ratio,
  is_zero_ratio, apply_fallback, apply_ratio, apply_rest, apply_parameters, apply_decoded,
  apply_constraint, apply_placement, apply_guardrail, apply_guardrails, mode_errors,
}

abbrev pub percent_of : Result PercentError ℕ → ℕ
percent_of (ok n) = n
percent_of (err e) = 0

abbrev pub ratio_of : Option Str → ℕ
ratio_of none = 0
ratio_of (some s) = percent_of (parse_percentage s)

abbrev pub forbids : GuardrailParameters → Bool
forbids p = is_forbidden_mode p.enforcement_mode

abbrev pub requires : GuardrailParameters → Bool
requires p = is_required_mode p.enforcement_mode

abbrev pub disallows : GuardrailParameters → Bool
disallows p = is_forbidden (allow_of p.fallback) || is_zero_ratio (max_fallback_of p.fallback)

abbrev pub tightened : GuardrailParameters → Capacity → Capacity
tightened p c =
    apply_fallback p.fallback
      (raise_ratio (ratio_of p.min_spot_ratio) (apply_mode p.enforcement_mode c))

abbrev pub tightened_by : List GuardrailParameters → Capacity → Capacity
tightened_by [] c = c
tightened_by (p ∷ ps) c = tightened_by ps (tightened p c)

module _ (p : GuardrailParameters) (c : Capacity) where
  tightened-forbidden :
      is_forbidden_mode (tightened p c).mode ≡ (is_forbidden_mode c.mode || forbids p)
  unfolding apply_mode apply_fallback
  tightened-forbidden = ground arith

  tightened-required :
      is_required_mode (tightened p c).mode
      ≡ (not (is_forbidden_mode (tightened p c).mode) && (is_required_mode c.mode || requires p))
  unfolding apply_mode apply_fallback
  tightened-required = ground arith

  tightened-ratio :
      (n : ℕ)
      → is_forbidden_mode (tightened p c).mode ≡ false
      → leb (tightened p c).min_spot_ratio n
        ≡ (leb c.min_spot_ratio n && leb (ratio_of p.min_spot_ratio) n)
  unfolding apply_mode apply_fallback
  tightened-ratio n h = ground arith

  tightened-allow : (tightened p c).allow_fallback ≡ (c.allow_fallback && not (disallows p))
  unfolding apply_mode apply_fallback
  tightened-allow = ground arith

pub by-forbidden :
    (ps : List GuardrailParameters) (c : Capacity)
    → is_forbidden_mode (tightened_by ps c).mode ≡ (is_forbidden_mode c.mode || any forbids ps)
by-forbidden [] c = ground arith
by-forbidden (p ∷ ps) c = ground (arith, by-forbidden ps (tightened p c), tightened-forbidden p c)

pub by-required :
    (ps : List GuardrailParameters) (c : Capacity)
    → is_required_mode c.mode ≡ (not (is_forbidden_mode c.mode) && is_required_mode c.mode)
    → is_required_mode (tightened_by ps c).mode ≡ (
        not (is_forbidden_mode c.mode || any forbids ps)
        && (is_required_mode c.mode || any requires ps))
by-required [] c h = ground arith
by-required (p ∷ ps) c h =
    let step = tightened p c in
    ground (
      arith,
      by-required ps step (one_mode step.mode),
      tightened-required p c,
      tightened-forbidden p c,
      one_mode c.mode,
    )
  where
    one_mode :
        (m : EnforcementMode)
        → is_required_mode m ≡ (not (is_forbidden_mode m) && is_required_mode m)
    one_mode m = ground arith

pub by-ratio :
    (ps : List GuardrailParameters) (c : Capacity) (n : ℕ)
    → (is_forbidden_mode c.mode || any forbids ps) ≡ false
    → leb (tightened_by ps c).min_spot_ratio n
      ≡ (leb c.min_spot_ratio n && all (λ p. leb (ratio_of p.min_spot_ratio) n) ps)
by-ratio [] c n h = ground arith
by-ratio (p ∷ ps) c n h =
    let step = tightened-forbidden p c in
    ground (
      arith,
      by-ratio ps (tightened p c) n (ground (arith, step)),
      tightened-ratio p c n (ground (arith, step)),
    )

pub by-allow :
    (ps : List GuardrailParameters) (c : Capacity)
    → (tightened_by ps c).allow_fallback ≡ (c.allow_fallback && not (any disallows ps))
by-allow [] c = ground arith
by-allow (p ∷ ps) c = ground (arith, by-allow ps (tightened p c), tightened-allow p c)

-- Each decoded set of parameters, in order.
module _ (decode : Str → Result Str GuardrailParameters) where
  abbrev pub decoded : Result Str GuardrailParameters → List GuardrailParameters
  decoded (err e) = []
  decoded (ok p) = p ∷ []

  abbrev pub constraint_parameters : PluginConstraint → List GuardrailParameters
  constraint_parameters c =
      if not (c.name == spot_plugin_name) || (raw_of c.parameters == [])
      then []
      else decoded (decode (raw_of c.parameters))

  abbrev pub placement_parameters : List PluginConstraint → List GuardrailParameters
  placement_parameters [] = []
  placement_parameters (c ∷ cs) = constraint_parameters c ++ placement_parameters cs

  abbrev pub guardrail_parameters : Option (List PluginConstraint) → List GuardrailParameters
  guardrail_parameters none = []
  guardrail_parameters (some placement) = placement_parameters placement

  abbrev pub all_parameters : List Guardrail → List GuardrailParameters
  all_parameters [] = []
  all_parameters (g ∷ gs) = guardrail_parameters g.placement ++ all_parameters gs

  by-append :
      (ps qs : List GuardrailParameters) (c : Capacity)
      → tightened_by (ps ++ qs) c ≡ tightened_by qs (tightened_by ps c)
  by-append [] qs c = refl
  by-append (p ∷ ps) qs c = by-append ps qs (tightened p c)

  raise_zero : (c : Capacity) → raise_ratio 0 c ≡ c
  raise_zero c = ground arith

  rest-tightened :
      (name : Str) (r : Option Str) (f : Option FallbackConstraints) (c : Capacity)
      → (apply_rest name r f c).1 ≡ []
      → (apply_rest name r f c).0 ≡ apply_fallback f (raise_ratio (ratio_of r) c)
  rest-tightened name none f c h = ap (apply_fallback f) (sym (raise_zero c))
  rest-tightened name (some s) f c h = by_result (parse_percentage s) h
    where
      by_result :
          (r : Result PercentError ℕ)
          → (apply_ratio name s r f c).1 ≡ []
          → (apply_ratio name s r f c).0 ≡ apply_fallback f (raise_ratio (percent_of r) c)
      by_result (ok n) k = unfold apply_ratio in refl
      by_result (err e) k = unfold apply_ratio in ground arith

  parameters-tightened :
      (name : Str) (p : GuardrailParameters) (c : Capacity)
      → (apply_parameters name p c).1 ≡ []
      → (apply_parameters name p c).0 ≡ tightened p c
  unfolding apply_parameters
  parameters-tightened name p c h =
      rest-tightened name p.min_spot_ratio p.fallback (apply_mode p.enforcement_mode c)
        (append-eq-nil (mode_errors name p.enforcement_mode) _ h).1

  decoded-tightened :
      (name : Str) (r : Result Str GuardrailParameters) (c : Capacity)
      → (apply_decoded name r c).1 ≡ []
      → (apply_decoded name r c).0 ≡ tightened_by (decoded r) c
  decoded-tightened name (err e) c h = ground arith
  decoded-tightened name (ok p) c h = parameters-tightened name p c h

  if-tightened :
      (name : Str) (b : Bool) (r : Result Str GuardrailParameters) (c : Capacity)
      (x : Capacity × List CapacityError)
      → x ≡ (if b then (c, []) else apply_decoded name r c)
      → x.1 ≡ []
      → x.0 ≡ tightened_by (if b then [] else decoded r) c
  if-tightened name true r c x e h = ap (λ q. q.0) e
  if-tightened name false r c x e h =
      ap (λ q. q.0) e ∙ decoded-tightened name r c (sym (ap (λ q. q.1) e) ∙ h)

  constraint-tightened :
      (name : Str) (k : PluginConstraint) (c : Capacity)
      → (apply_constraint decode name k c).1 ≡ []
      → (apply_constraint decode name k c).0 ≡ tightened_by (constraint_parameters k) c
  unfolding apply_constraint
  constraint-tightened name k c h =
      if-tightened name (not (k.name == spot_plugin_name) || (raw_of k.parameters == []))
        (decode (raw_of k.parameters)) c _ refl h

  placement-tightened :
      (name : Str) (ks : List PluginConstraint) (c : Capacity)
      → (apply_placement decode name ks c).1 ≡ []
      → (apply_placement decode name ks c).0 ≡ tightened_by (placement_parameters ks) c
  unfolding apply_placement
  placement-tightened name [] c h = refl
  placement-tightened name (k ∷ ks) c h =
      let first = apply_constraint decode name k c in
      let none_left = append-eq-nil first.1 _ h in
      placement-tightened name ks first.0 none_left.1
      ∙ ap (tightened_by (placement_parameters ks)) (constraint-tightened name k c none_left.0)
      ∙ sym (by-append (constraint_parameters k) (placement_parameters ks) c)

  guardrail-tightened :
      (name : Str) (o : Option (List PluginConstraint)) (c : Capacity)
      → (apply_guardrail decode name o c).1 ≡ []
      → (apply_guardrail decode name o c).0 ≡ tightened_by (guardrail_parameters o) c
  guardrail-tightened name none c h = refl
  guardrail-tightened name (some ks) c h = placement-tightened name ks c h

  pub guardrails-tightened :
      (gs : List Guardrail) (c : Capacity)
      → (apply_guardrails decode gs c).1 ≡ []
      → (apply_guardrails decode gs c).0 ≡ tightened_by (all_parameters gs) c
  unfolding apply_guardrails
  guardrails-tightened [] c h = refl
  guardrails-tightened (g ∷ gs) c h =
      let first = apply_guardrail decode g.name g.placement c in
      let none_left = append-eq-nil first.1 _ h in
      guardrails-tightened gs first.0 none_left.1
      ∙ ap (tightened_by (all_parameters gs)) (guardrail-tightened g.name g.placement c none_left.0)
      ∙ sym (by-append (guardrail_parameters g.placement) (all_parameters gs) c)
