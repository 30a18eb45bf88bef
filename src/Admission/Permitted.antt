-- ===== src/Admission/Permitted.antt =====
-- What the admission of the guardrails means for the Pod placement webhook's budgets.
use workload_class.Prelude.{
  ◌≡◌, ◌↔◌, refl, arith, Bool, true, false, not, ◌||◌, Option, none, some, List, [], ◌∷◌, ◌==◌,
  str_eq, ◌⊎◌, Str, Result, ok, err, All, All-append_iff, ℕ, ◌+◌, append-eq-nil, Bool-cases, inl,
  inr,
}
use workload_class.Kube.Objects.{IntOrString}
use workload_class.Api.{WorkloadClass, Guardrail, GuardrailParameters, PluginConstraint}
use workload_class.Parameters.{max_fallback_of}
use workload_class.PodWebhook.Budgets.{
  spot_plugin_name, raw_of, budget_of_ratio, budget_of_decoded, constraint_budgets,
  placement_budgets, guardrail_budgets, all_budgets, is_in_fallback, budget_exhausted,
  fallback_budgets,
}
use workload_class.PodWebhook.Limits.{AllWithin, budget_exhausted-AllWithin}
use workload_class.Admission.Readable.{constraint-decoded, no_faults, all_budgets-IsReadable}
use workload_class.PodWebhook.Counts.{PodCounts}
use workload_class.Kube.Client.{Client}
use workload_class.Parameters.Budget.{Within}
use workload_class.Admission.{
  JsonLib, decoded_violations, validate_placement_plugin_constraint, validate_placement,
  validate_plugin_constraints, validate_guardrail_spec,
}

module _ (decode : Str → Result Str GuardrailParameters) (fallback_pods total_pods : ℕ) where
  -- Without a maxFallbackRatio there is no limit.
  abbrev pub RatioPermits : Option IntOrString → Type 0
  RatioPermits none = Unit {0}
  RatioPermits (some r) = Within fallback_pods total_pods r

  abbrev pub DecodedPermits : Result Str GuardrailParameters → Type 0
  DecodedPermits (err e) = ⊥
  DecodedPermits (ok p) = RatioPermits (max_fallback_of p.fallback)

  abbrev pub names_other : PluginConstraint → Bool
  names_other c = not (c.name == spot_plugin_name) || (raw_of c.parameters == [])

  -- It is another plugin's or has no parameters; or its parameters can be read and permit these numbers.
  abbrev pub ConstraintPermits : PluginConstraint → Type 0
  ConstraintPermits c = (names_other c ≡ true) ⊎ DecodedPermits (decode (raw_of c.parameters))

  abbrev pub PlacementPermits : Option (List PluginConstraint) → Type 0
  PlacementPermits none = Unit {0}
  PlacementPermits (some cs) = All ConstraintPermits cs

  abbrev pub AllPermit : List Guardrail → Type 0
  AllPermit gs = All (λ g. PlacementPermits g.placement) gs

both : {A B C D E : Type 0} → A ↔ (B × C) → B ↔ D → C ↔ E → A ↔ (D × E)
both a b c = (λ x. let (y, z) = a.0 x in (b.0 y, c.0 z), λ x. let (y, z) = x in a.1 (b.1 y, c.1 z))

module _ (json : JsonLib) (decode : Str → Result Str GuardrailParameters) where
  module _ (f t : ℕ) where
    ratio-permits :
        (name : Str) (o : Option IntOrString)
        → AllWithin f t (budget_of_ratio name o) ↔ RatioPermits decode f t o
    ratio-permits name none = (λ h. tt, λ h. tt)
    ratio-permits name (some r) = (λ h. h.0, λ h. (h, tt))

    decoded-permits :
        (name : Str) (r : Result Str GuardrailParameters)
        → decoded_violations r ≡ []
        → AllWithin f t (budget_of_decoded name r) ↔ DecodedPermits decode f t r
    decoded-permits name (err e) h = ground arith
    decoded-permits name (ok p) h = ratio-permits name (max_fallback_of p.fallback)

    constraint-permits :
        (name : Str) (c : PluginConstraint)
        → validate_placement_plugin_constraint json decode c ≡ []
        → AllWithin f t (constraint_budgets decode name c) ↔ ConstraintPermits decode f t c
    unfolding constraint_budgets
    constraint-permits name c h = elim (Bool-cases (names_other decode f t c)) [
      | inl e ↦ rw e (λ w. inl refl, λ o. tt)
      | inr e ↦ rw e (
          let it =
            decoded-permits name (decode (raw_of c.parameters))
              (constraint-decoded json decode c h (ground arith) (ground arith)) in
          (λ w. inr (it.0 w), λ o. elim o [ inl k ↦ absurd (ground arith) | inr k ↦ it.1 k ]))
    ]

    placement-permits :
        (name : Str) (cs : List PluginConstraint)
        → validate_placement json decode cs ≡ []
        → AllWithin f t (placement_budgets decode name cs) ↔ All (ConstraintPermits decode f t) cs
    unfolding placement_budgets validate_placement
    placement-permits name [] h = (λ w. tt, λ w. tt)
    placement-permits name (c ∷ cs) h =
        let (valid, others) =
          append-eq-nil (validate_placement_plugin_constraint json decode c) _ h in
        both (All-append_iff (λ b. Within f t b.ratio) (constraint_budgets decode name c) _)
          (constraint-permits name c valid) (placement-permits name cs others)

    guardrail-permits :
        (name : Str) (o : Option (List PluginConstraint))
        → validate_plugin_constraints json decode o ≡ []
        → AllWithin f t (guardrail_budgets decode name o) ↔ PlacementPermits decode f t o
    unfolding validate_plugin_constraints
    guardrail-permits name none h = (λ w. tt, λ w. tt)
    guardrail-permits name (some cs) h = placement-permits name cs h

    all_budgets-permit :
        (gs : List Guardrail)
        → All (λ g. validate_guardrail_spec json decode g ≡ ok tt) gs
        → AllWithin f t (all_budgets decode gs) ↔ AllPermit decode f t gs
    unfolding all_budgets
    all_budgets-permit [] h = (λ w. tt, λ w. tt)
    all_budgets-permit (g ∷ gs) h =
        both
          (All-append_iff (λ b. Within f t b.ratio) (guardrail_budgets decode g.name g.placement) _)
          (guardrail-permits g.name g.placement (no_faults json decode g h.0))
          (all_budgets-permit gs h.1)

  -- If the guardrails can be listed and the webhook finds no fault with any of them, then the Pod placement
  -- webhook, for counted Pods, takes the budgets as not exhausted exactly if either the workload is not in
  -- fallback, so that its condition is not true and no Pod has fallen back; or each gke-spot-placement
  -- constraint with parameters can be decoded and, where it sets maxFallbackRatio, one Pod more on fallback
  -- and in all is within that number or percentage. So no limit is skipped as unreadable.
  pub budget_exhausted-permits :
      (wc : WorkloadClass) (client : Client) (gs : List Guardrail) (c : PodCounts)
      → client.list_guardrails ≡ ok gs
      → All (λ g. validate_guardrail_spec json decode g ≡ ok tt) gs
      → (budget_exhausted wc (fallback_budgets decode client) (ok c) ≡ false) ↔ (
          ((c.fallback ≡ 0) × (is_in_fallback wc ≡ false))
          ⊎ AllPermit decode (c.fallback + 1) (c.total + 1) gs)
  unfolding fallback_budgets
  budget_exhausted-permits wc client gs c lists valid =
      let limits =
        budget_exhausted-AllWithin wc (all_budgets decode gs) c
          (all_budgets-IsReadable json decode gs valid) in
      let permits = all_budgets-permit (c.fallback + 1) (c.total + 1) gs valid in
      rw lists (
        λ e. elim (limits.0 e) [ inl k ↦ inl k | inr k ↦ inr (permits.0 k) ],
        λ o. limits.1 (elim o [ inl k ↦ inl k | inr k ↦ inr (permits.1 k) ]),
      )
