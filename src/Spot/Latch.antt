-- ===== src/Spot/Latch.antt =====
-- The InFallback condition over a history of observations.
use workload_class.Prelude.{
  ◌<◌, ◌≡◌, inl, inr, refl, ap, ◌∙◌, arith, Bool, true, false, not, ◌&&◌, ◌||◌, none, some, List,
  [], ◌∷◌, All, ltb, nat_beq, lt→ltb, ==_refl, str_eq, lookup-insert, lookup-delete, Bool-cases,
}
use workload_class.Kube.Objects.{Condition}
use workload_class.Api.{WorkloadClass, ReversionAction, none_reversion}
use workload_class.Api.ConditionType
use workload_class.PodWebhook.Budgets.{condition_is_true, is_in_fallback}
use workload_class.PodWebhook.Handler.{is_none_reversion}
use workload_class.SpotRatio.{targets_spot}
use workload_class.Spot.Fallback.{
  WorkloadPods, Desired, absent, keep, set, is_empty_list, tracks_fallback,
  desired_fallback_condition, set_fallback_condition,
}

abbrev pub falls_back : WorkloadClass → WorkloadPods → ReversionAction → Bool
falls_back wc pods reversion =
    tracks_fallback wc
    && (not (is_empty_list pods.fallback)
        || (is_in_fallback wc && (is_none_reversion reversion && ltb 0 pods.active)))

pub set-in_fallback :
    (wc : WorkloadClass) (c : Condition)
    → is_in_fallback (set_fallback_condition wc (set c)) ≡ condition_is_true (some c)
unfolding is_in_fallback set_fallback_condition
set-in_fallback wc c = ap condition_is_true {y = some c} (
    lookup-insert ConditionType.in_fallback ConditionType.in_fallback c wc.conditions
    ∙ rw (==_refl ConditionType.in_fallback) refl)

pub absent-in_fallback :
    (wc : WorkloadClass) → is_in_fallback (set_fallback_condition wc absent) ≡ false
unfolding is_in_fallback set_fallback_condition
absent-in_fallback wc = ap condition_is_true {y = none} (
    lookup-delete ConditionType.in_fallback ConditionType.in_fallback wc.conditions
    ∙ rw (==_refl ConditionType.in_fallback) refl)

pub keep-in_fallback :
    (wc : WorkloadClass) → is_in_fallback (set_fallback_condition wc keep) ≡ is_in_fallback wc
unfolding set_fallback_condition
keep-in_fallback wc = refl

-- After the condition is written the workload is in fallback exactly if its WorkloadClass tracks fallback
-- and a Pod has fallen back, or it was in fallback before, the reversion action is None, and it has active
-- Pods.
pub in_fallback-after :
    (wc : WorkloadClass) (pods : WorkloadPods) (reversion : ReversionAction)
    → is_in_fallback (set_fallback_condition wc (desired_fallback_condition wc pods reversion))
      ≡ falls_back wc pods reversion
unfolding desired_fallback_condition
in_fallback-after wc pods reversion = elim (Bool-cases (tracks_fallback wc)) [
  | inr t ↦ rw t (absent-in_fallback wc)
  | inl t ↦ elim (Bool-cases (is_empty_list pods.fallback)) [
    | inr e ↦ rw (t, e) (set-in_fallback wc _)
    | inl e ↦
        elim (Bool-cases
          (is_in_fallback wc && (is_none_reversion reversion && ltb 0 pods.active))) [
            | inl k ↦ rw (t, e, k) (keep-in_fallback wc ∙ ground arith)
            | inr k ↦ elim (Bool-cases (nat_beq pods.active 0)) [
              | inl z ↦ rw (t, e, k, z) (set-in_fallback wc _)
              | inr z ↦ rw (t, e, k, z) (set-in_fallback wc _)
            ]
          ]
  ]
]

-- The reconciles of a WorkloadClass whose policy has the reversion action None, one for each observation.
pub observe : WorkloadClass → List WorkloadPods → WorkloadClass
observe wc [] = wc
observe wc (pods ∷ rest) =
    observe (set_fallback_condition wc (desired_fallback_condition wc pods none_reversion)) rest

set_fallback-tracks :
    (wc : WorkloadClass) (d : Desired)
    → tracks_fallback (set_fallback_condition wc d) ≡ tracks_fallback wc
unfolding tracks_fallback set_fallback_condition targets_spot
set_fallback-tracks wc absent = refl
set_fallback-tracks wc keep = refl
set_fallback-tracks wc (set c) = refl

-- For a WorkloadClass that tracks fallback (it targets Spot with a ratio above 0 and has the action
-- FallbackToOnDemand) and whose reversion action is None: once it is in fallback, it stays so through any
-- number of observations in each of which it has active Pods, even if none of them has fallen back any more.
pub observe-latched :
    (wc : WorkloadClass) (observed : List WorkloadPods)
    → tracks_fallback wc ≡ true
    → is_in_fallback wc ≡ true
    → All (λ pods. 0 < pods.active) observed
    → is_in_fallback (observe wc observed) ≡ true
unfolding observe
observe-latched wc [] t f h = f
observe-latched wc (pods ∷ rest) t f h =
    observe-latched (set_fallback_condition wc (desired_fallback_condition wc pods none_reversion))
      rest (set_fallback-tracks wc _ ∙ t)
      (in_fallback-after wc pods none_reversion ∙ ground (arith, lt→ltb 0 pods.active h.0)) h.1
