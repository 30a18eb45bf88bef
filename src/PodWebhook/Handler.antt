-- ===== src/PodWebhook/Handler.antt =====
-- internal/webhook/v1/pod_webhook.go: Default and mutatePodPlacement. The Pod that is returned is the
-- changed one; getCounts reads a state that holds still, so the counts are a value.
use workload_class.Prelude.{
  ℕ, ltb, nat_beq, Bool, true, false, not, ◌&&◌, ◌||◌, Option, none, some, List, [], ◌∷◌, all, ◌==◌,
  str_eq, Str, lookup, if◌then◌else◌, Result, ok, err, ◌>>=◌,
}
use workload_class.Prelude.Int.{pos, ltb_ℤ, eqb_ℤ}
use workload_class.Kube.Labels.{SelectorLib}
use workload_class.Kube.Objects.{Pod, Condition}
use workload_class.Kube.Client.{Client, GetError}
use workload_class.Api.{
  WorkloadClass, CapacityStrategy, InfrastructureProfileReference, SpotPlacementType, on_demand,
  FallbackAction, unset_action, fail, fallback_to_on_demand, ReversionAction, unset_reversion, lazy,
  none_reversion, SpotPlacementPolicy, GuardrailParameters,
}
use workload_class.Api.ConditionType
use workload_class.Resolve.{
  ResolveError, Match, find_best_match_workload_class, is_validated, is_true,
}
use workload_class.SpotRatio.{
  PercentError, spot_ratio_percent, should_use_spot, references_spot_placement_policy,
}
use workload_class.Placement.{mutate_for_on_demand, mutate_for_spot}
use workload_class.PodWebhook.Counts.{PodCounts, CountError, zero_counts, count_workload_class_pods}
use workload_class.PodWebhook.Budgets.{
  FallbackBudget, is_in_fallback, budget_exhausted, fallback_budgets,
}

abbrev pub or_fail : FallbackAction → FallbackAction
or_fail unset_action = fail
or_fail a = a

abbrev pub is_fallback : FallbackAction → Bool
is_fallback fallback_to_on_demand = true
is_fallback _ = false

abbrev pub is_none_reversion : ReversionAction → Bool
is_none_reversion none_reversion = true
is_none_reversion _ = false

abbrev pub or_none_reversion : ReversionAction → ReversionAction
or_none_reversion unset_reversion = none_reversion
or_none_reversion a = a

-- The reversion action: Lazy without a policy, None where the policy leaves it open.
abbrev pub reversion_of : Option SpotPlacementPolicy → ReversionAction
reversion_of none = lazy
reversion_of (some policy) = or_none_reversion policy.reversion_action

abbrev pub is_on_demand : SpotPlacementType → Bool
is_on_demand on_demand = true
is_on_demand _ = false

abbrev pub has_fallback : Result CountError PodCounts → Bool
has_fallback (err e) = false
has_fallback (ok c) = ltb 0 c.fallback

-- The zero counts that come with an error.
abbrev pub or_zero : Result CountError PodCounts → PodCounts
or_zero (err e) = zero_counts
or_zero (ok c) = c

-- The WorkloadClass stays On-Demand once it has fallen back.
abbrev pub is_sticky :
    WorkloadClass → Option SpotPlacementPolicy → FallbackAction → Result CountError PodCounts → Bool
is_sticky wc policy action counts =
    (is_none_reversion (reversion_of policy) && is_fallback action)
    && (is_in_fallback wc || has_fallback counts)

abbrev pub is_above_ratio : ℕ → PodCounts → Bool
is_above_ratio ratio c = ltb ratio 100 && not (should_use_spot c.effective_spot c.total ratio)

-- mutatePodPlacement behind the Spot ratio, which is not 0.
unfoldable pub place_by_ratio :
    Pod
    → WorkloadClass
    → Option SpotPlacementPolicy
    → Result CountError PodCounts
    → Result Str (List FallbackBudget)
    → FallbackAction
    → ℕ
    → Pod
place_by_ratio pod wc policy counts budgets action ratio =
    if is_sticky wc policy action counts
    then mutate_for_on_demand pod
    else if is_above_ratio ratio (or_zero counts)
    then mutate_for_on_demand pod
    else if is_fallback action && budget_exhausted wc budgets counts
    then mutate_for_spot pod fail policy
    else mutate_for_spot pod action policy

-- mutatePodPlacement, for the counts and the budgets.
unfoldable pub place :
    Pod
    → WorkloadClass
    → CapacityStrategy
    → Option SpotPlacementPolicy
    → Result CountError PodCounts
    → Result Str (List FallbackBudget)
    → Result PercentError Pod
place pod wc cs policy counts budgets =
    if is_on_demand cs.type
    then ok (mutate_for_on_demand pod)
    else (spot_ratio_percent cs.spot_ratio >>= λ ratio. ok (
        if nat_beq ratio 0
        then mutate_for_on_demand pod
        else place_by_ratio pod wc policy counts budgets (or_fail cs.fallback_action) ratio))

-- The switch in the loop over the required conditions: the condition is there, holds, and is not stale.
abbrev pub holds_now : WorkloadClass → Str → Option Condition → Bool
holds_now wc type none = false
holds_now wc type (some c) =
    if (if type == ConditionType.validated then is_validated (some c) else is_true c.status)
    then not (ltb_ℤ (pos 0) wc.generation && not (eqb_ℤ c.observed_generation wc.generation))
    else false

abbrev pub required_conditions : Option InfrastructureProfileReference → List Str
required_conditions none = ConditionType.validated ∷ []
required_conditions (some ref) =
    ConditionType.validated ∷ ConditionType.placement_plugin_attached ∷ []

unfoldable pub is_ready : WorkloadClass → Bool
is_ready wc =
    all (λ type. holds_now wc type (lookup type wc.conditions))
      (required_conditions wc.infrastructure_profile_ref)

abbrev pub profile_supported : Option InfrastructureProfileReference → Bool
profile_supported none = true
profile_supported (some ref) = references_spot_placement_policy (some ref)

abbrev pub or_unchanged {κ} : {E : Type κ} → Pod → Result E Pod → Pod
or_unchanged pod (err e) = pod
or_unchanged pod (ok p) = p

abbrev pub some_policy :
    Result GetError SpotPlacementPolicy → Result GetError (Option SpotPlacementPolicy)
some_policy (err e) = err e
some_policy (ok policy) = ok (some policy)

module _ (lib : SelectorLib) (decode : Str → Result Str GuardrailParameters) (client : Client) where
  -- mutatePodPlacement
  unfoldable pub mutate_pod_placement :
      Pod → WorkloadClass → CapacityStrategy → Option SpotPlacementPolicy → Result PercentError Pod
  mutate_pod_placement pod wc cs policy =
      place pod wc cs policy (count_workload_class_pods lib client pod wc)
        (fallback_budgets decode client)

  -- The policy that the WorkloadClass references, by fetchSpotPlacementPolicy.
  unfoldable pub policy_of :
      Option InfrastructureProfileReference → Result GetError (Option SpotPlacementPolicy)
  policy_of none = ok none
  policy_of (some ref) = some_policy (client.get_spot_policy ref.name)

  unfoldable pub default_with_policy :
      Pod → WorkloadClass → CapacityStrategy → Result GetError (Option SpotPlacementPolicy) → Pod
  default_with_policy pod wc cs (err e) = pod
  default_with_policy pod wc cs (ok policy) =
      or_unchanged pod (mutate_pod_placement pod wc cs policy)

  unfoldable pub default_for_class : Pod → WorkloadClass → Option CapacityStrategy → Pod
  default_for_class pod wc none = pod
  default_for_class pod wc (some cs) =
      if not (profile_supported wc.infrastructure_profile_ref)
      then pod
      else if not (is_ready wc)
      then pod
      else default_with_policy pod wc cs (policy_of wc.infrastructure_profile_ref)

  unfoldable pub default_for_best : Pod → Option WorkloadClass → Pod
  default_for_best pod none = pod
  default_for_best pod (some wc) = default_for_class pod wc wc.capacity_strategy

  unfoldable pub default_for_match : Pod → Result ResolveError Match → Pod
  default_for_match pod (err e) = pod
  default_for_match pod (ok m) = default_for_best pod m.best

  -- Default
  unfoldable pub default : Pod → Pod
  default pod = default_for_match pod (find_best_match_workload_class lib client (some pod))
