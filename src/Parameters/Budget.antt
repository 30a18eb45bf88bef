-- ===== src/Parameters/Budget.antt =====
-- What the fallback budget of a validated guardrail allows.
use workload_class.Prelude.{
  subst, leb, ℕ, ◌*◌, ◌≤◌, ◌≡◌, ◌↔◌, refl, arith, Bool, true, some, [], append-eq-nil, ok, ap,
}
use workload_class.Prelude.Int.{◌≤ℤ◌, pos, negsuc}
use workload_class.Kube.Objects.{IntOrString, int_val, str_val}
use workload_class.Api.{GuardrailParameters}
use workload_class.SpotRatio.Percent.{denotes, is_percentage-denotes}
use workload_class.Parameters.{
  max_fallback_of, mode_violations, ratio_violations, max_fallback_violations, validate_parameters,
  percent_allows, fallback_within_budget,
}

-- A number of Pods, or a share of all Pods in percent.
abbrev pub Within : ℕ → ℕ → IntOrString → Type 0
Within fallback_pods total_pods (int_val n) = pos fallback_pods ≤ℤ n
Within fallback_pods total_pods (str_val s) = fallback_pods * 100 ≤ total_pods * denotes s

max_fallback-valid :
    (p : GuardrailParameters)
    → validate_parameters p ≡ []
    → max_fallback_violations (max_fallback_of p.fallback) ≡ []
unfolding validate_parameters
max_fallback-valid p h =
    let rest = append-eq-nil (mode_violations p.enforcement_mode) _ h in
    let behind = append-eq-nil (ratio_violations p.min_spot_ratio) _ rest.1 in
    (append-eq-nil (max_fallback_violations (max_fallback_of p.fallback)) _ behind.1).0

decides :
    (fallback_pods total_pods : ℕ) (r : IntOrString)
    → max_fallback_violations (some r) ≡ []
    → (d : Bool) × (fallback_within_budget fallback_pods total_pods r ≡ ok d)
      × ((d ≡ true) ↔ Within fallback_pods total_pods r)
unfolding max_fallback_violations fallback_within_budget
decides f t (int_val (pos n)) h = (leb f n, refl, (ground arith, ground arith))
decides f t (int_val (negsuc n)) h = ground arith
decides f t (str_val s) h =
    let reads = (is_percentage-denotes s (ground arith)).0 in
    (leb (f * 100) (t * denotes s), ap (percent_allows f t) reads, (ground arith, ground arith))

-- If the parameters of a guardrail pass validation and set maxFallbackRatio, then fallbackWithinBudget
-- reads it without an error, for any numbers of Pods, and returns true exactly if the Pods on fallback are
-- at most that number, or at most that percentage of all Pods.
pub validated-Within :
    (p : GuardrailParameters) (r : IntOrString) (fallback_pods total_pods : ℕ)
    → validate_parameters p ≡ []
    → max_fallback_of p.fallback ≡ some r
    → (d : Bool) × (fallback_within_budget fallback_pods total_pods r ≡ ok d)
      × ((d ≡ true) ↔ Within fallback_pods total_pods r)
validated-Within p r f t valid sets =
    decides f t r (subst (λ o. max_fallback_violations o ≡ []) sets (max_fallback-valid p valid))
