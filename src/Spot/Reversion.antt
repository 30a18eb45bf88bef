-- ===== src/Spot/Reversion.antt =====
-- internal/controller/spot_reversion.go: evicting the Pods that have fallen back. What the Eviction API answers
-- is an argument; the Pods that are evicted are returned in order, with the reason.
use workload_class.Prelude.{
  ℕ, suc, ◌*◌, ◌^◌, Bool, true, false, not, ◌&&◌, ◌||◌, Option, none, some, List, [], ◌∷◌, ltb,
  ◌==◌, str_eq, Str, if◌then◌else◌, Result, ok, err,
}
use workload_class.Prelude.Int.{ℤ, pos, sub_ℕ, ◌-ℤ◌, ltb_ℤ}
use workload_class.Kube.Objects.{Pod}
use workload_class.Kube.Client.{Client}
use workload_class.Api.{
  WorkloadClass, CapacityStrategy, Guardrail, GuardrailParameters, PluginConstraint,
  ReversionConstraints, ReversionAction, active, SpotPlacementPolicy,
}
use workload_class.SpotRatio.{PercentError, spot_ratio_percent, spot_share_met}
use workload_class.Temporal.{TimeLib, is_time_in_windows}
use workload_class.Disruption.Handler.{is_overdue_readiness}
use workload_class.PodWebhook.Budgets.{spot_plugin_name, raw_of}
use workload_class.Controller.Readiness.{min_positive_duration}
use workload_class.Spot.Capacity.{StatusLib, Cluster, check_spot_capacity}
use workload_class.Spot.Fallback.{
  WorkloadPods, tracks_fallback, effective_spot, pod_fallback_start_time, reversion_action_for,
  is_empty_list,
}

-- Nanoseconds.
abbrev pub default_min_duration_on_fallback : ℤ
default_min_duration_on_fallback = pos (300 * 10 ^ 9)

abbrev pub eviction_retry_delay : ℤ
eviction_retry_delay = pos (10 * 10 ^ 9)

abbrev pub too_new_retry_delay : ℤ
too_new_retry_delay = pos (1800 * 10 ^ 9)

-- What the Eviction API answers: created, NotFound, TooManyRequests or Forbidden, where the webhook's text may say
-- that the Pod is too new, or another error.
pub data Answered : Type 0 where
  evicted gone : Answered
  rejected : Bool → Answered
  failed : Str → Answered

pub data ReversionError : Type 0 where
  list_guardrails_failed eviction_failed : Str → ReversionError
  invalid_ratio : PercentError → ReversionError

-- disruptionWindowEnforced
unfoldable pub disruption_window_enforced : WorkloadClass → Bool
disruption_window_enforced wc =
    not wc.disruption_policy.emergency_override
    && not (is_overdue_readiness wc.maintenance_readiness)

-- isTooNewDenial, of a rejection.
abbrev pub retry_delay : Bool → ℤ
retry_delay too_new = if too_new then too_new_retry_delay else eviction_retry_delay

abbrev pub Eviction : Type 0
Eviction = Bool × ℤ

-- evictForReversion, for the answer.
unfoldable pub evict_for_reversion :
    TimeLib → WorkloadClass → ℕ → Answered → Result ReversionError Eviction
evict_for_reversion times wc now evicted = ok (true, pos 0)
evict_for_reversion times wc now gone = ok (false, pos 0)
evict_for_reversion times wc now (failed e) = err (eviction_failed e)
evict_for_reversion times wc now (rejected too_new) =
    let windows = is_time_in_windows times now wc.disruption_policy.allowed_disruption_windows in
    if disruption_window_enforced wc && not windows.0
    then ok (false, pos 0 -ℤ windows.1)
    else ok (false, retry_delay too_new)

abbrev pub stricter : Option ℤ → ℤ → Option ℤ
stricter none d = some d
stricter (some s) d = if ltb_ℤ d s then some d else some s

abbrev pub max_duration_of : Option ReversionConstraints → Option ℤ
max_duration_of none = none
max_duration_of (some r) = r.max_fallback_duration

-- A duration that is not set, or negative, is skipped.
abbrev pub apply_duration : Option ℤ → Option ℤ → Option ℤ
apply_duration strictest none = strictest
apply_duration strictest (some d) = if ltb_ℤ d (pos 0) then strictest else stricter strictest d

abbrev pub duration_of_decoded : Option ℤ → Result Str GuardrailParameters → Option ℤ
duration_of_decoded strictest (err e) = strictest
duration_of_decoded strictest (ok p) = apply_duration strictest (max_duration_of p.reversion)

module _ (decode : Str → Result Str GuardrailParameters) where
  unfoldable pub constraint_duration : Option ℤ → PluginConstraint → Option ℤ
  constraint_duration strictest c =
      if not (c.name == spot_plugin_name) || (raw_of c.parameters == [])
      then strictest
      else duration_of_decoded strictest (decode (raw_of c.parameters))

  unfoldable pub placement_duration : Option ℤ → List PluginConstraint → Option ℤ
  placement_duration strictest [] = strictest
  placement_duration strictest (c ∷ cs) = placement_duration (constraint_duration strictest c) cs

  abbrev pub guardrail_duration : Option ℤ → Option (List PluginConstraint) → Option ℤ
  guardrail_duration strictest none = strictest
  guardrail_duration strictest (some placement) = placement_duration strictest placement

  unfoldable pub strictest_duration : Option ℤ → List Guardrail → Option ℤ
  strictest_duration strictest [] = strictest
  strictest_duration strictest (g ∷ gs) =
      strictest_duration (guardrail_duration strictest g.placement) gs

  -- guardrailMaxFallbackDuration
  unfoldable pub guardrail_max_fallback_duration : Client → Result ReversionError (Option ℤ)
  guardrail_max_fallback_duration client = elim client.list_guardrails [
    | err e ↦ err (list_guardrails_failed e)
    | ok gs ↦ ok (strictest_duration none gs)
  ]

-- What the loop reads, besides the Pods.
pub record Limits : Type 0 where
  pub is_active : Bool
  pub max_duration : Option ℤ
  pub min_duration : ℤ
  pub spot_ratio : ℕ
  pub total : ℕ

pub data Choice : Type 0 where
  forced reverted : Choice
  wait : Choice

abbrev pub is_past : Option ℤ → ℤ → Bool
is_past none elapsed = false
is_past (some limit) elapsed = not (ltb_ℤ elapsed limit)

abbrev pub share_met : Limits → ℕ → Bool
share_met l spot_pods = not (ltb 0 l.spot_ratio) || spot_share_met spot_pods l.total l.spot_ratio

-- The switch of the loop.
unfoldable pub choose : Limits → ℕ → ℤ → Choice
choose l spot_pods elapsed =
    if is_past l.max_duration elapsed
    then forced
    else if not l.is_active
    then wait
    else if share_met l spot_pods
    then wait
    else if ltb_ℤ elapsed l.min_duration
    then wait
    else reverted

abbrev pub until_limit : ℤ → Option ℤ → ℤ → ℤ
until_limit requeue none elapsed = requeue
until_limit requeue (some limit) elapsed = min_positive_duration requeue (limit -ℤ elapsed)

-- The requeue time of a Pod that is left for now: for its limit, and before that for the minimal time where only that
-- keeps it.
unfoldable pub requeue_after : Limits → ℕ → ℤ → ℤ → ℤ
requeue_after l spot_pods requeue elapsed =
    if l.is_active && (not (share_met l spot_pods) && ltb_ℤ elapsed l.min_duration)
    then until_limit (min_positive_duration requeue (l.min_duration -ℤ elapsed)) l.max_duration
        elapsed
    else until_limit requeue l.max_duration elapsed

-- How the loop ends: its requeue time or error, and the Pods that it evicted.
pub record Reverted : Type 0 where
  pub result : Result ReversionError ℤ
  pub evicted_pods : List (Pod × Choice)

abbrev pub after_eviction : Pod × Choice → Reverted → Reverted
after_eviction p r = record r { evicted_pods = p ∷ r.evicted_pods }

abbrev pub is_waiting : Choice → Bool
is_waiting wait = true
is_waiting _ = false

abbrev pub has_no_owner : Pod → Bool
has_no_owner pod = elim pod.controller [ none ↦ true | some o ↦ false ]

module _ (times : TimeLib) (wc : WorkloadClass) (answer : Pod → Answered) (l : Limits)
    (now : ℕ) where
  -- A Pod that was not evicted: outside the window the loop stops.
  abbrev pub after_attempt :
      Pod × Choice → ℤ → (ℤ → Reverted) → Reverted → Result ReversionError Eviction → Reverted
  after_attempt p requeue continue next (err e) = record { result = err e; evicted_pods = [] }
  after_attempt p requeue continue next (ok (true, d)) = after_eviction p next
  after_attempt p requeue continue next (ok (false, d)) =
      if ltb_ℤ d (pos 0)
      then record { result = ok (min_positive_duration requeue (pos 0 -ℤ d)); evicted_pods = [] }
      else continue (min_positive_duration requeue d)

  -- The loop, over the Pods from the oldest.
  unfoldable pub revert_pods : List Pod → ℕ → ℤ → Reverted
  revert_pods [] spot_pods requeue = record { result = ok requeue; evicted_pods = [] }
  revert_pods (pod ∷ pods) spot_pods requeue =
      let elapsed = sub_ℕ now (pod_fallback_start_time pod) in
      let choice = choose l spot_pods elapsed in
      let skipped = revert_pods pods spot_pods requeue in
      let waiting = revert_pods pods spot_pods (requeue_after l spot_pods requeue elapsed) in
      let next = revert_pods pods (suc spot_pods) requeue in
      if has_no_owner pod
      then skipped
      else if is_waiting choice
      then waiting
      else after_attempt (pod, choice) requeue (λ r. revert_pods pods spot_pods r) next
          (evict_for_reversion times wc now (answer pod))

abbrev pub is_active_action : ReversionAction → Bool
is_active_action active = true
is_active_action _ = false

abbrev pub is_unlimited : Option ℤ → Bool
is_unlimited none = true
is_unlimited (some d) = false

abbrev pub min_duration_for : Option SpotPlacementPolicy → ℤ
min_duration_for none = default_min_duration_on_fallback
min_duration_for (some policy) = elim policy.min_duration_on_fallback [
  | none ↦ default_min_duration_on_fallback
  | some d ↦ d
]

abbrev pub nothing_to_do : Reverted
nothing_to_do = record { result = ok (pos 0); evicted_pods = [] }

abbrev pub ended_with : ReversionError → Reverted
ended_with e = record { result = err e; evicted_pods = [] }

abbrev pub ratio_of_strategy : Option CapacityStrategy → Result PercentError ℕ
ratio_of_strategy none = ok 0
ratio_of_strategy (some cs) = spot_ratio_percent cs.spot_ratio

abbrev pub has_capacity : Result Str Bool → Bool
has_capacity (ok b) = b
has_capacity (err e) = false

module _ (times : TimeLib) (lib : StatusLib) (decode : Str → Result Str GuardrailParameters)
    (client : Client) (cluster : Cluster) (answer : Pod → Answered) (now : ℕ) where
  abbrev pub revert_with_ratio :
      WorkloadClass
      → Option SpotPlacementPolicy
      → WorkloadPods
      → Option ℤ
      → Result PercentError ℕ
      → Reverted
  revert_with_ratio wc policy pods limit (err e) = ended_with (invalid_ratio e)
  revert_with_ratio wc policy pods limit (ok ratio) =
      let loop =
        revert_pods times wc answer
          (record {
            is_active = is_active_action (reversion_action_for policy);
            max_duration = limit;
            min_duration = min_duration_for policy;
            spot_ratio = ratio;
            total = pods.active;
          })
          now pods.fallback (effective_spot pods) (pos 0) in
      if has_capacity (check_spot_capacity lib cluster) then loop else nothing_to_do

  abbrev pub revert_with_limit :
      WorkloadClass
      → Option SpotPlacementPolicy
      → WorkloadPods
      → Result ReversionError (Option ℤ)
      → Reverted
  revert_with_limit wc policy pods (err e) = ended_with e
  revert_with_limit wc policy pods (ok limit) =
      if not (is_active_action (reversion_action_for policy)) && is_unlimited limit
      then nothing_to_do
      else revert_with_ratio wc policy pods limit (ratio_of_strategy wc.capacity_strategy)

  -- reconcileSpotReversion; a WorkloadClass that tracks fallback has a strategy.
  unfoldable pub reconcile_spot_reversion :
      WorkloadClass → Option SpotPlacementPolicy → WorkloadPods → Reverted
  reconcile_spot_reversion wc policy pods =
      if not (tracks_fallback wc) || is_empty_list pods.fallback
      then nothing_to_do
      else revert_with_limit wc policy pods (guardrail_max_fallback_duration decode client)
