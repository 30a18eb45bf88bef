-- ===== src/PodWebhook/Decision.antt =====
-- Where mutatePodPlacement sends a Pod.
use workload_class.Prelude.{
  ℕ, nat_beq, ◌+◌, ◌*◌, ◌≤◌, ◌<◌, ◌≡◌, ◌≢◌, ◌↔◌, ◌⊎◌, inl, inr, refl, sym, ◌∙◌, arith, Bool, true,
  false, not, ◌&&◌, Option, some, List, Str, if◌then◌else◌, Result, ok, Bool-cases,
}
use workload_class.Kube.Objects.{Pod}
use workload_class.Api.{
  WorkloadClass, CapacityStrategy, on_demand, FallbackAction, fail, fallback_to_on_demand,
  none_reversion, SpotPlacementPolicy,
}
use workload_class.SpotPod.{is_pod_targeted_for_spot}
use workload_class.SpotRatio.{PercentError, spot_ratio_percent, should_use_spot}
use workload_class.Placement.{mutate_for_on_demand, mutate_for_spot}
use workload_class.Placement.Targets.{on_demand-targeted, for_spot-targeted}
use workload_class.PodWebhook.Counts.{PodCounts}
use workload_class.PodWebhook.Budgets.{FallbackBudget, is_in_fallback}
use workload_class.PodWebhook.Handler.{
  or_fail, is_on_demand, is_sticky, is_above_ratio, reversion_of, place_by_ratio, place,
}

module _ (pod : Pod) (wc : WorkloadClass) (cs : CapacityStrategy)
    (policy : Option SpotPlacementPolicy) (c : PodCounts)
    (budgets : Result Str (List FallbackBudget)) where
  -- The workload is in fallback and its policy never brings it back to Spot.
  abbrev pub StaysOnDemand : Type 0
  StaysOnDemand =
      (cs.fallback_action ≡ fallback_to_on_demand)
      × (reversion_of policy ≡ none_reversion)
      × ((is_in_fallback wc ≡ true) ⊎ (0 < c.fallback))

  -- Without this Pod's Spot placement the share of Spot would fall below the ratio.
  abbrev pub NeedsSpot : ℕ → Type 0
  NeedsSpot ratio = c.effective_spot * 100 < (c.total + 1) * ratio

  sticky_iff : (is_sticky wc policy (or_fail cs.fallback_action) (ok c) ≡ true) ↔ StaysOnDemand
  sticky_iff = (ground arith, ground arith)

  above_iff : (ratio : ℕ) → (is_above_ratio ratio c ≡ false) ↔ ((100 ≤ ratio) ⊎ NeedsSpot ratio)
  unfolding should_use_spot
  above_iff ratio = (ground arith, ground arith)

  if-targeted :
      (sticky above limited : Bool) (action : FallbackAction)
      → is_pod_targeted_for_spot (
          some (
            if sticky
            then mutate_for_on_demand pod
            else if above
            then mutate_for_on_demand pod
            else if limited
            then mutate_for_spot pod fail policy
            else mutate_for_spot pod action policy))
        ≡ not sticky && not above
  if-targeted true above limited action = on_demand-targeted pod
  if-targeted false true limited action = on_demand-targeted pod
  if-targeted false false true action = for_spot-targeted pod fail policy
  if-targeted false false false action = for_spot-targeted pod action policy

  by_ratio-targeted :
      (ratio : ℕ)
      → is_pod_targeted_for_spot
          (some (place_by_ratio pod wc policy (ok c) budgets (or_fail cs.fallback_action) ratio))
        ≡ not (is_sticky wc policy (or_fail cs.fallback_action) (ok c))
          && not (is_above_ratio ratio c)
  unfolding place_by_ratio
  by_ratio-targeted ratio = if-targeted _ _ _ (or_fail cs.fallback_action)

  zero-targeted :
      (ratio : ℕ) (b : Bool)
      → is_pod_targeted_for_spot (
          some (
            if b
            then mutate_for_on_demand pod
            else place_by_ratio pod wc policy (ok c) budgets (or_fail cs.fallback_action) ratio))
        ≡ not b
          && (not (is_sticky wc policy (or_fail cs.fallback_action) (ok c))
              && not (is_above_ratio ratio c))
  zero-targeted ratio true = on_demand-targeted pod
  zero-targeted ratio false = by_ratio-targeted ratio

  choice_iff :
      (ratio : ℕ) (other : Bool)
      → (other ≡ true) ↔ (cs.type ≢ on_demand)
      → (other
            && (not (nat_beq ratio 0)
                && (not (is_sticky wc policy (or_fail cs.fallback_action) (ok c))
                    && not (is_above_ratio ratio c)))
          ≡ true)
        ↔ ((cs.type ≢ on_demand)
            × (0 < ratio)
            × (¬ StaysOnDemand)
            × ((100 ≤ ratio) ⊎ NeedsSpot ratio))
  choice_iff ratio other o = (
    λ e. (
      o.0 (ground arith),
      ground arith,
      (λ s. ground (arith, sticky_iff.1 s)),
      (above_iff ratio).0 (ground arith),
    ),
    λ h. let (t, r, n, a) = h in ground (arith, o.1 t, (above_iff ratio).1 a, not-sticky n),
  )
    where
      not-sticky : ¬ StaysOnDemand → is_sticky wc policy (or_fail cs.fallback_action) (ok c) ≡ false
      not-sticky n = elim (Bool-cases (is_sticky wc policy (or_fail cs.fallback_action) (ok c))) [
        | inl e ↦ absurd (n (sticky_iff.0 e))
        | inr e ↦ e
      ]

  abbrev goes_to_spot : ℕ → Bool
  goes_to_spot ratio =
      not (nat_beq ratio 0)
      && (not (is_sticky wc policy (or_fail cs.fallback_action) (ok c))
          && not (is_above_ratio ratio c))

  abbrev placed_at : ℕ → Pod
  placed_at ratio =
      if nat_beq ratio 0
      then mutate_for_on_demand pod
      else place_by_ratio pod wc policy (ok c) budgets (or_fail cs.fallback_action) ratio

  abbrev chosen : ℕ → Bool → Result PercentError Pod
  chosen ratio b = if b then ok (mutate_for_on_demand pod) else ok (placed_at ratio)

  if-placed :
      (ratio : ℕ) (b : Bool)
      → (p : Pod) × (chosen ratio b ≡ ok p)
        × (is_pod_targeted_for_spot (some p) ≡ not b && goes_to_spot ratio)
  if-placed ratio true = (mutate_for_on_demand pod, refl, on_demand-targeted pod)
  if-placed ratio false = (placed_at ratio, refl, zero-targeted ratio (nat_beq ratio 0))

  place-placed :
      (ratio : ℕ)
      → spot_ratio_percent cs.spot_ratio ≡ ok ratio
      → place pod wc cs policy (ok c) budgets ≡ chosen ratio (is_on_demand cs.type)
  unfolding place
  place-placed ratio e = rw e refl

  is_on_demand_iff : (not (is_on_demand cs.type) ≡ true) ↔ (cs.type ≢ on_demand)
  is_on_demand_iff = (
    λ e k. ground arith,
    λ n. elim (Bool-cases (is_on_demand cs.type)) [
      | inl e ↦ absurd (n (ground arith))
      | inr e ↦ ground arith
    ],
  )

  -- If the strategy's ratio can be read and the Pods could be counted, then mutatePodPlacement places the
  -- Pod without an error, and the Pod is then targeted for Spot exactly if the type is not OnDemand, the
  -- ratio is not 0, the workload is not in a fallback that its policy keeps, and the ratio is 100 percent
  -- or the share of Spot would fall below it without this Pod.
  pub place-targeted_iff :
      (ratio : ℕ)
      → spot_ratio_percent cs.spot_ratio ≡ ok ratio
      → (p : Pod) × (place pod wc cs policy (ok c) budgets ≡ ok p)
        × ((is_pod_targeted_for_spot (some p) ≡ true) ↔ (
            (cs.type ≢ on_demand)
            × (0 < ratio)
            × (¬ StaysOnDemand)
            × ((100 ≤ ratio) ⊎ NeedsSpot ratio)))
  place-targeted_iff ratio e =
      let (p, is, targeted) = if-placed ratio (is_on_demand cs.type) in
      let choice = choice_iff ratio (not (is_on_demand cs.type)) is_on_demand_iff in
      (p, place-placed ratio e ∙ is, (λ t. choice.0 (sym targeted ∙ t), λ h. targeted ∙ choice.1 h))
