-- ===== src/Examples/Webhook.antt =====
-- Pods that the placement webhook sees.
use workload_class.Prelude.{
  ltb, ◌≡◌, ◌≢◌, ◌↔◌, ◌⊎◌, ◌≤◌, ◌<◌, ◌+◌, refl, true, false, none, some, [], ◌∷◌, filter, str_eq,
  str_beq, lit, lookup, ok,
}
use workload_class.Kube.Objects.{Pod, str_val}
use workload_class.Api.{CapacityStrategy, spot, fallback_to_on_demand, on_demand}
use workload_class.Resolve.{
  everything, namespace_enforced_workload_class, named_enforced, find_best_match_workload_class,
  workload_class_pod_selector,
}
use workload_class.SpotPod.{is_pod_active, is_pod_targeted_for_spot}
use workload_class.SpotRatio.{
  spot_ratio_percent, parse_percentage, before_percent, atoi, unsigned_value, digits_value,
  is_percentage, guardrail_percent,
}
use workload_class.Parameters.{
  validate_parameters, mode_violations, ratio_violations, max_fallback_violations,
  reversion_violations, validate_combinations, max_fallback_ratio_positive,
}
use workload_class.PodWebhook.Counts.{
  PodCounts, is_selected, belongs, keep_pods, list_workload_class_pods, count_workload_class_pods,
}
use workload_class.PodWebhook.Counted.{is_counted, tally, count_workload_class_pods-tally}
use workload_class.PodWebhook.Budgets.{FallbackBudget, is_in_fallback, budget_exhausted}
use workload_class.PodWebhook.Limits.{AllWithin, budget_exhausted-AllWithin}
use workload_class.PodWebhook.Handler.{place, default}
use workload_class.PodWebhook.Decision.{StaysOnDemand, NeedsSpot, place-targeted_iff}
use workload_class.PodWebhook.Default.{IsPlacement, IsPlacedByBest, default-IsPlacement}
use workload_class.Examples.Samples.{selector_lib, client, pod, web_class, quarter, decode}

abbrev incoming : Pod
incoming = record pod { name = lit "web-1" }

is_everything : workload_class_pod_selector selector_lib client web_class ≡ ok everything
unfolding workload_class_pod_selector lookup lit str_beq
is_everything = refl

lists : list_workload_class_pods selector_lib client incoming web_class ≡ ok (pod ∷ [])
unfolding list_workload_class_pods workload_class_pod_selector keep_pods belongs
    find_best_match_workload_class namespace_enforced_workload_class named_enforced is_pod_active
    lookup lit str_beq
lists = refl

count_workload_class_pods-tally_example :
    (pod ∷ []
      ≡ filter
          (is_counted selector_lib client incoming web_class (ltb 1 2))
          (filter (is_selected selector_lib everything) (pod ∷ [])))
    × (count_workload_class_pods selector_lib client incoming web_class
        ≡ ok (tally client (pod ∷ [])))
count_workload_class_pods-tally_example =
    count_workload_class_pods-tally selector_lib client incoming web_class everything (pod ∷ []) _
      (pod ∷ []) is_everything refl refl lists

abbrev half : CapacityStrategy
half = record { type = spot; spot_ratio = lit "50%"; fallback_action = fallback_to_on_demand }

abbrev counts : PodCounts
counts = record { total = 3; effective_spot = 1; fallback = 1 }

reads_half : spot_ratio_percent half.spot_ratio ≡ ok 50
unfolding spot_ratio_percent parse_percentage before_percent atoi unsigned_value digits_value lit
reads_half = refl

place-targeted_iff_example :
    (p : Pod) × (place pod web_class half none (ok counts) (ok []) ≡ ok p)
    × ((is_pod_targeted_for_spot (some p) ≡ true) ↔ (
        (half.type ≢ on_demand)
        × (0 < 50)
        × (¬ StaysOnDemand pod web_class half none counts (ok []))
        × ((100 ≤ 50) ⊎ NeedsSpot pod web_class half none counts (ok []) 50)))
place-targeted_iff_example = place-targeted_iff pod web_class half none counts (ok []) 50 reads_half

abbrev quarter_budget : FallbackBudget
quarter_budget = record { guardrail = lit "quarter"; ratio = str_val (lit "25%") }

quarter-valid : validate_parameters quarter ≡ []
unfolding validate_parameters mode_violations ratio_violations max_fallback_violations
    reversion_violations validate_combinations max_fallback_ratio_positive is_percentage
    guardrail_percent before_percent atoi unsigned_value digits_value lit
quarter-valid = refl

budget_exhausted-AllWithin_example :
    (budget_exhausted web_class (ok (quarter_budget ∷ [])) (ok counts) ≡ false) ↔ (
      ((counts.fallback ≡ 0) × (is_in_fallback web_class ≡ false))
      ⊎ AllWithin (counts.fallback + 1) (counts.total + 1) (quarter_budget ∷ []))
budget_exhausted-AllWithin_example =
    budget_exhausted-AllWithin web_class (quarter_budget ∷ []) counts
      ((quarter, quarter-valid, refl), tt)

default-IsPlacement_example :
    IsPlacement pod (default selector_lib decode client pod)
    × ((default selector_lib decode client pod ≡ pod)
        ⊎ IsPlacedByBest selector_lib decode client pod (default selector_lib decode client pod))
default-IsPlacement_example = default-IsPlacement selector_lib decode client pod
