-- ===== src/PodWebhook/Limits.antt =====
-- When a guardrail's budget keeps a Pod from falling back.
use workload_class.Prelude.{
  ℕ, ◌+◌, ltb, ◌≡◌, ◌↔◌, ◌⊎◌, inl, inr, refl, arith, Bool, false, true, ◌&&◌, ◌||◌, some, List, [],
  ◌∷◌, All, ok,
}
use workload_class.Api.{WorkloadClass, GuardrailParameters}
use workload_class.Parameters.{validate_parameters, max_fallback_of}
use workload_class.Parameters.Budget.{Within, validated-Within}
use workload_class.PodWebhook.Counts.{PodCounts}
use workload_class.PodWebhook.Budgets.{
  FallbackBudget, is_in_fallback, any_exceeded, budget_exhausted,
}

-- The ratio passes the validation of a guardrail's parameters.
abbrev pub IsReadable : FallbackBudget → Type 0
IsReadable b =
    (p : GuardrailParameters) × (validate_parameters p ≡ [])
    × (max_fallback_of p.fallback ≡ some b.ratio)

-- Every budget allows these numbers.
abbrev pub AllWithin : ℕ → ℕ → List FallbackBudget → Type 0
AllWithin fallback_pods total_pods budgets =
    All (λ b. Within fallback_pods total_pods b.ratio) budgets

any_exceeded-AllWithin :
    (fallback_pods total_pods : ℕ) (budgets : List FallbackBudget)
    → All IsReadable budgets
    → (any_exceeded fallback_pods total_pods budgets ≡ false)
      ↔ AllWithin fallback_pods total_pods budgets
unfolding any_exceeded
any_exceeded-AllWithin f t [] h = (λ e. tt, λ w. refl)
any_exceeded-AllWithin f t (b ∷ bs) h =
    let (p, valid, sets) = h.0 in
    let (d, reads, means) = validated-Within p b.ratio f t valid sets in
    let rest = any_exceeded-AllWithin f t bs h.1 in
    (
      λ e. (means.0 (ground (arith, reads)), rest.0 (ground (arith, reads))),
      λ w. ground (arith, reads, means.1 w.0, rest.1 w.1),
    )

limited_iff :
    {W : Type 0} (n : ℕ) (lapsed exceeded : Bool)
    → (exceeded ≡ false) ↔ W
    → ((ltb 0 n || lapsed) && exceeded ≡ false) ↔ (((n ≡ 0) × (lapsed ≡ false)) ⊎ W)
limited_iff n lapsed true w = (
  λ e. inl (ground arith),
  λ o. elim o [ inl h ↦ ground arith | inr h ↦ absurd (ground (arith, w.1 h)) ],
)
limited_iff n lapsed false w = (λ e. inr (w.0 refl), λ o. ground arith)

-- If every budget passes the validation of its guardrail and the Pods could be counted, then the budgets
-- are not exhausted exactly if the workload is not in fallback, by its condition or by a Pod that has
-- fallen back, or every budget allows one Pod more, both on fallback and in all.
pub budget_exhausted-AllWithin :
    (wc : WorkloadClass) (budgets : List FallbackBudget) (c : PodCounts)
    → All IsReadable budgets
    → (budget_exhausted wc (ok budgets) (ok c) ≡ false) ↔ (
        ((c.fallback ≡ 0) × (is_in_fallback wc ≡ false))
        ⊎ AllWithin (c.fallback + 1) (c.total + 1) budgets)
unfolding budget_exhausted
budget_exhausted-AllWithin wc [] c h = (λ e. inr tt, λ w. refl)
budget_exhausted-AllWithin wc (b ∷ bs) c h =
    let all = any_exceeded-AllWithin (c.fallback + 1) (c.total + 1) (b ∷ bs) h in
    limited_iff c.fallback (is_in_fallback wc)
      (any_exceeded (c.fallback + 1) (c.total + 1) (b ∷ bs)) all
