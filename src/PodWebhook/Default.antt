-- ===== src/PodWebhook/Default.antt =====
-- The webhook changes a Pod only for a WorkloadClass that is ready, and then only where it may run.
use workload_class.Prelude.{
  ℕ, nat_beq, ◌≡◌, refl, sym, ap, subst, ◌∙◌, arith, Bool, true, false, ◌&&◌, Option, none, some,
  List, [], ◌∷◌, Str, if◌then◌else◌, Result, ok, err, ◌>>=◌, Bool-cases, Option-cases, inl, inr,
  ◌⊎◌,
}
use workload_class.Kube.Labels.{SelectorLib}
use workload_class.Kube.Objects.{Pod}
use workload_class.Kube.Client.{Client, GetError}
use workload_class.Api.{
  WorkloadClass, CapacityStrategy, FallbackAction, fail, SpotPlacementPolicy, GuardrailParameters,
}
use workload_class.SpotRatio.{PercentError, spot_ratio_percent}
use workload_class.Resolve.{ResolveError, Match, find_best_match_workload_class}
use workload_class.Placement.{
  mutate_for_on_demand, mutate_for_spot, set_node_selector, ensure_spot_toleration,
  remove_spot_toleration, require_node_selector_terms, add_preferred_scheduling_term,
  set_compute_class, require_families, compute_class_of, families_of, prefer_spot,
}
use workload_class.PodWebhook.Counts.{count_workload_class_pods, PodCounts, CountError}
use workload_class.PodWebhook.Budgets.{fallback_budgets, FallbackBudget, budget_exhausted}
use workload_class.PodWebhook.Handler.{
  policy_of, is_on_demand, or_fail, is_sticky, is_above_ratio, or_zero, is_fallback, is_ready,
  profile_supported, place_by_ratio, place, mutate_pod_placement, default_with_policy,
  default_for_class, default_for_best, default_for_match, default, or_unchanged,
}

-- The Pod with another's node selector, tolerations and node affinity.
abbrev pub placed_as : Pod → Pod → Pod
placed_as pod p = record pod {
  node_selector = p.node_selector;
  tolerations = p.tolerations;
  node_affinity = p.node_affinity;
}

abbrev pub IsPlacement : Pod → Pod → Type 0
IsPlacement pod p = p ≡ placed_as pod p

if-IsPlacement :
    (pod p q : Pod) (b : Bool)
    → IsPlacement pod p
    → IsPlacement pod q
    → IsPlacement pod (if b then p else q)
if-IsPlacement pod p q true h k = h
if-IsPlacement pod p q false h k = k

on_demand-IsPlacement : (pod : Pod) → IsPlacement pod (mutate_for_on_demand pod)
unfolding mutate_for_on_demand remove_spot_toleration require_node_selector_terms
on_demand-IsPlacement pod = refl

trans-IsPlacement : (a b c : Pod) → IsPlacement a b → IsPlacement b c → IsPlacement a c
trans-IsPlacement a b c h k = k ∙ ap (λ p. placed_as p c) h

set_node_selector-IsPlacement :
    (pod : Pod) (k v : Str) → IsPlacement pod (set_node_selector pod k v)
unfolding set_node_selector
set_node_selector-IsPlacement pod k v = refl

ensure-IsPlacement : (pod : Pod) → IsPlacement pod (ensure_spot_toleration pod)
unfolding ensure_spot_toleration
ensure-IsPlacement pod = if-IsPlacement pod _ _ _ refl refl

compute_class-IsPlacement : (pod : Pod) (c : Str) → IsPlacement pod (set_compute_class pod c)
compute_class-IsPlacement pod [] = refl
compute_class-IsPlacement pod (c ∷ cs) =
    if-IsPlacement pod _ _ _ (set_node_selector-IsPlacement pod _ _) refl

families-IsPlacement : (pod : Pod) (fs : List Str) → IsPlacement pod (require_families pod fs)
unfolding require_node_selector_terms
families-IsPlacement pod [] = refl
families-IsPlacement pod (f ∷ fs) = refl

prefer-IsPlacement : (pod : Pod) → IsPlacement pod (add_preferred_scheduling_term pod prefer_spot)
unfolding add_preferred_scheduling_term
prefer-IsPlacement pod = refl

for_spot-IsPlacement :
    (pod : Pod) (action : FallbackAction) (policy : Option SpotPlacementPolicy)
    → IsPlacement pod (mutate_for_spot pod action policy)
unfolding mutate_for_spot
for_spot-IsPlacement pod action policy =
    let tolerant = ensure_spot_toleration pod in
    let targeted = set_compute_class tolerant (compute_class_of policy) in
    let preferring = add_preferred_scheduling_term targeted prefer_spot in
    let to_targeted =
      trans-IsPlacement pod tolerant targeted (ensure-IsPlacement pod)
        (compute_class-IsPlacement tolerant (compute_class_of policy)) in
    if-IsPlacement pod _ _ _
      (trans-IsPlacement pod targeted _ to_targeted (set_node_selector-IsPlacement targeted _ _))
      (trans-IsPlacement pod targeted _ to_targeted (
        trans-IsPlacement targeted preferring _ (prefer-IsPlacement targeted)
          (families-IsPlacement preferring (families_of policy))))

by_ratio-IsPlacement :
    (pod : Pod) (wc : WorkloadClass) (policy : Option SpotPlacementPolicy)
    (counts : Result CountError PodCounts) (budgets : Result Str (List FallbackBudget))
    (action : FallbackAction) (ratio : ℕ)
    → IsPlacement pod (place_by_ratio pod wc policy counts budgets action ratio)
unfolding place_by_ratio
by_ratio-IsPlacement pod wc policy counts budgets action ratio =
    if-IsPlacement pod _ _ (is_sticky wc policy action counts) (on_demand-IsPlacement pod) (
      if-IsPlacement pod _ _ (is_above_ratio ratio (or_zero counts)) (on_demand-IsPlacement pod) (
        if-IsPlacement pod _ _ (is_fallback action && budget_exhausted wc budgets counts)
          (for_spot-IsPlacement pod fail policy) (for_spot-IsPlacement pod action policy)))

result-cases :
    (r : Result PercentError Pod) → ((e : PercentError) × (r ≡ err e)) ⊎ ((p : Pod) × (r ≡ ok p))
result-cases (err e) = inl (e, refl)
result-cases (ok p) = inr (p, refl)

abbrev IsPlacedOk : Pod → Result PercentError Pod → Type 0
IsPlacedOk pod (err e) = Unit
IsPlacedOk pod (ok p) = IsPlacement pod p

if-IsPlacedOk :
    (pod p : Pod) (b : Bool) (f : ℕ → Pod) (r : Result PercentError ℕ)
    → IsPlacement pod p
    → ((n : ℕ) → IsPlacement pod (f n))
    → IsPlacedOk pod (if b then ok p else (r >>= λ n. ok (f n)))
if-IsPlacedOk pod p true f r h k = h
if-IsPlacedOk pod p false f (ok n) h k = k n
if-IsPlacedOk pod p false f (err e) h k = tt

place-IsPlacedOk :
    (pod : Pod) (wc : WorkloadClass) (cs : CapacityStrategy) (policy : Option SpotPlacementPolicy)
    (counts : Result CountError PodCounts) (budgets : Result Str (List FallbackBudget))
    → IsPlacedOk pod (place pod wc cs policy counts budgets)
unfolding place
place-IsPlacedOk pod wc cs policy counts budgets =
    let action = or_fail cs.fallback_action in
    if-IsPlacedOk pod (mutate_for_on_demand pod) (is_on_demand cs.type) _
      (spot_ratio_percent cs.spot_ratio) (on_demand-IsPlacement pod)
      (λ n.
        if-IsPlacement pod (mutate_for_on_demand pod)
          (place_by_ratio pod wc policy counts budgets action n) (nat_beq n 0)
          (on_demand-IsPlacement pod) (by_ratio-IsPlacement pod wc policy counts budgets action n))

unchanged-IsPlacement :
    (pod : Pod) (r : Result PercentError Pod)
    → IsPlacedOk pod r
    → IsPlacement pod (or_unchanged pod r)
unchanged-IsPlacement pod (err e) h = refl
unchanged-IsPlacement pod (ok p) h = h

module _ (lib : SelectorLib) (decode : Str → Result Str GuardrailParameters) (client : Client)
    (pod : Pod) where
  mutate-IsPlacement :
      (wc : WorkloadClass) (cs : CapacityStrategy) (policy : Option SpotPlacementPolicy)
      → IsPlacement pod (or_unchanged pod (mutate_pod_placement lib decode client pod wc cs policy))
  unfolding mutate_pod_placement
  mutate-IsPlacement wc cs policy =
      let counts = count_workload_class_pods lib client pod wc in
      let budgets = fallback_budgets decode client in
      unchanged-IsPlacement pod (place pod wc cs policy counts budgets)
        (place-IsPlacedOk pod wc cs policy counts budgets)

  -- What mutatePodPlacement makes of the Pod for this WorkloadClass, which is ready, has a capacity strategy
  -- and references no profile but a policy that can be read.
  abbrev pub IsPlacedFor : WorkloadClass → Pod → Type 0
  IsPlacedFor wc p =
      (cs : CapacityStrategy) × (policy : Option SpotPlacementPolicy) × (wc.capacity_strategy
        ≡ some cs)
      × (is_ready wc ≡ true)
      × (profile_supported wc.infrastructure_profile_ref ≡ true)
      × (policy_of lib decode client wc.infrastructure_profile_ref ≡ ok policy)
      × (mutate_pod_placement lib decode client pod wc cs policy ≡ ok p)

  abbrev pub IsPlacedByBest : Pod → Type 0
  IsPlacedByBest p =
      (m : Match) × (wc : WorkloadClass) × (find_best_match_workload_class lib client (some pod)
        ≡ ok m)
      × (m.best ≡ some wc)
      × IsPlacedFor wc p

  with_policy-placed :
      (wc : WorkloadClass) (cs : CapacityStrategy)
      (policy : Result GetError (Option SpotPlacementPolicy)) (p : Pod)
      → default_with_policy lib decode client pod wc cs policy ≡ p
      → (p ≡ pod)
        ⊎ ((s : Option SpotPlacementPolicy) × (policy ≡ ok s)
            × (mutate_pod_placement lib decode client pod wc cs s ≡ ok p))
  unfolding default_with_policy
  with_policy-placed wc cs (err e) p eq = inl (sym eq)
  with_policy-placed wc cs (ok s) p eq =
      elim (result-cases (mutate_pod_placement lib decode client pod wc cs s)) [
        | inl h ↦ inl (ground (arith, h.1))
        | inr h ↦ inr (s, refl, ground (arith, h.1))
      ]

  for_class-placed :
      (wc : WorkloadClass) (strategy : Option CapacityStrategy) (p : Pod)
      → wc.capacity_strategy ≡ strategy
      → default_for_class lib decode client pod wc strategy ≡ p
      → (p ≡ pod) ⊎ IsPlacedFor wc p
  unfolding default_for_class
  for_class-placed wc none p s e = inl (sym e)
  for_class-placed wc (some cs) p s e =
      elim (Bool-cases (profile_supported wc.infrastructure_profile_ref)) [
        | inr other ↦ inl (sym e ∙ rw other refl)
        | inl supported ↦ elim (Bool-cases (is_ready wc)) [
          | inr other ↦ inl (sym e ∙ rw (supported, other) refl)
          | inl ready ↦
              elim (with_policy-placed wc cs
                (policy_of lib decode client wc.infrastructure_profile_ref) p
                (sym (rw (supported, ready) refl) ∙ e)) [
                  | inl same ↦ inl same
                  | inr h ↦ inr (cs, h.0, s, ready, supported, h.1, h.2)
                ]
        ]
      ]

  for_match-placed :
      (r : Result ResolveError Match) (p : Pod)
      → find_best_match_workload_class lib client (some pod) ≡ r
      → default_for_match lib decode client pod r ≡ p
      → (p ≡ pod) ⊎ IsPlacedByBest p
  unfolding default_for_match default_for_best
  for_match-placed (err e) p f eq = inl (sym eq)
  for_match-placed (ok m) p f eq = elim (Option-cases m.best) [
    | inl h ↦ inl (sym eq ∙ rw h refl)
    | inr h ↦ elim (for_class-placed h.0 h.0.capacity_strategy p refl (sym (rw h.1 refl) ∙ eq)) [
      | inl same ↦ inl same
      | inr placed ↦ inr (m, h.0, f, h.1, placed)
    ]
  ]

  default-placed :
      (default lib decode client pod ≡ pod) ⊎ IsPlacedByBest (default lib decode client pod)
  default-placed =
      for_match-placed (find_best_match_workload_class lib client (some pod)) _ refl
        (unfold default in refl)

  placed_for-IsPlacement : (p : Pod) → (p ≡ pod) ⊎ IsPlacedByBest p → IsPlacement pod p
  placed_for-IsPlacement p (inl h) = h ∙ ap (λ q. placed_as pod q) (sym h)
  placed_for-IsPlacement p (inr (m, wc, f, b, (cs, policy, s, r, g, o, e))) =
      subst (λ q. IsPlacement pod (or_unchanged pod q)) e (mutate-IsPlacement wc cs policy)

  -- The webhook returns the Pod as it is, or as mutatePodPlacement leaves it for its best-matching
  -- WorkloadClass, which then has a capacity strategy, is ready and references no profile but a policy that
  -- can be read. Either way only the node selector, the tolerations and the node affinity may differ.
  pub default-IsPlacement :
      IsPlacement pod (default lib decode client pod)
      × ((default lib decode client pod ≡ pod) ⊎ IsPlacedByBest (default lib decode client pod))
  default-IsPlacement =
      (placed_for-IsPlacement (default lib decode client pod) default-placed, default-placed)
