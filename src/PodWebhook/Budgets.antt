-- ===== src/PodWebhook/Budgets.antt =====
-- internal/webhook/v1/fallback_budget.go: the guardrails' budgets of Pods on On-Demand fallback.
use workload_class.Prelude.{
  ℕ, ◌+◌, ltb, Bool, false, not, ◌&&◌, ◌||◌, Option, none, some, List, [], ◌∷◌, ◌++◌, ◌==◌, str_eq,
  Str, lit, lookup, if◌then◌else◌, Result, ok, err,
}
use workload_class.Kube.Objects.{IntOrString, Condition}
use workload_class.Kube.Client.{Client}
use workload_class.Api.{WorkloadClass, Guardrail, GuardrailParameters, PluginConstraint}
use workload_class.Api.ConditionType
use workload_class.Resolve.{is_true}
use workload_class.Parameters.{max_fallback_of, fallback_within_budget, BudgetError}
use workload_class.PodWebhook.Counts.{PodCounts, CountError}

abbrev pub spot_plugin_name : Str
spot_plugin_name = lit "gke-spot-placement"

-- fallbackBudget
pub record FallbackBudget : Type 0 where
  pub guardrail : Str
  pub ratio : IntOrString

-- Parameters.Raw, with nil as the empty text.
abbrev pub raw_of : Option Str → Str
raw_of none = []
raw_of (some raw) = raw

-- meta.IsStatusConditionTrue
abbrev pub condition_is_true : Option Condition → Bool
condition_is_true none = false
condition_is_true (some c) = is_true c.status

unfoldable pub is_in_fallback : WorkloadClass → Bool
is_in_fallback wc = condition_is_true (lookup ConditionType.in_fallback wc.conditions)

abbrev pub budget_of_ratio : Str → Option IntOrString → List FallbackBudget
budget_of_ratio name none = []
budget_of_ratio name (some r) = record { guardrail = name; ratio = r } ∷ []

abbrev pub budget_of_decoded : Str → Result Str GuardrailParameters → List FallbackBudget
budget_of_decoded name (err e) = []
budget_of_decoded name (ok p) = budget_of_ratio name (max_fallback_of p.fallback)

-- The loop over the budgets: one that cannot be read is skipped.
abbrev pub is_exceeded : Result BudgetError Bool → Bool
is_exceeded (err e) = false
is_exceeded (ok within) = not within

unfoldable pub any_exceeded : ℕ → ℕ → List FallbackBudget → Bool
any_exceeded fallback_pods total_pods [] = false
any_exceeded fallback_pods total_pods (b ∷ bs) =
    is_exceeded (fallback_within_budget fallback_pods total_pods b.ratio)
    || any_exceeded fallback_pods total_pods bs

abbrev pub exceeds : WorkloadClass → List FallbackBudget → Result CountError PodCounts → Bool
exceeds wc budgets (err e) = false
exceeds wc budgets (ok c) =
    (ltb 0 c.fallback || is_in_fallback wc) && any_exceeded (c.fallback + 1) (c.total + 1) budgets

-- fallbackBudgetExhausted, for the budgets and the counts at hand.
unfoldable pub budget_exhausted :
    WorkloadClass → Result Str (List FallbackBudget) → Result CountError PodCounts → Bool
budget_exhausted wc (err e) counts = false
budget_exhausted wc (ok []) counts = false
budget_exhausted wc (ok (b ∷ bs)) counts = exceeds wc (b ∷ bs) counts

-- ParseGKESpotGuardrailParameters decodes JSON by the standard library: a parameter.
module _ (decode : Str → Result Str GuardrailParameters) where
  unfoldable pub constraint_budgets : Str → PluginConstraint → List FallbackBudget
  constraint_budgets name c =
      if not (c.name == spot_plugin_name) || (raw_of c.parameters == [])
      then []
      else budget_of_decoded name (decode (raw_of c.parameters))

  unfoldable pub placement_budgets : Str → List PluginConstraint → List FallbackBudget
  placement_budgets name [] = []
  placement_budgets name (c ∷ cs) = constraint_budgets name c ++ placement_budgets name cs

  abbrev pub guardrail_budgets : Str → Option (List PluginConstraint) → List FallbackBudget
  guardrail_budgets name none = []
  guardrail_budgets name (some placement) = placement_budgets name placement

  unfoldable pub all_budgets : List Guardrail → List FallbackBudget
  all_budgets [] = []
  all_budgets (g ∷ gs) = guardrail_budgets g.name g.placement ++ all_budgets gs

  abbrev pub budgets_of : Result Str (List Guardrail) → Result Str (List FallbackBudget)
  budgets_of (err e) = err e
  budgets_of (ok gs) = ok (all_budgets gs)

  -- fallbackBudgets
  unfoldable pub fallback_budgets : Client → Result Str (List FallbackBudget)
  fallback_budgets client = budgets_of client.list_guardrails
