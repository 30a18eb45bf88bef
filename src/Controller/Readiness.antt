-- ===== src/Controller/Readiness.antt =====
-- internal/controller/workloadclass_controller.go: calculateReadiness. The current time is an argument, and
-- pods that List returns are read from the client.
use workload_class.Prelude.{
  ℕ, suc, Bool, true, false, not, ◌&&◌, Option, none, some, List, [], ◌∷◌, filter, str_eq,
  if◌then◌else◌, Result, ok, ◌>>=◌,
}
use workload_class.Prelude.Int.{ℤ, pos, sub_ℕ, ◌-ℤ◌, ltb_ℤ}
use workload_class.Kube.Labels.{SelectorLib}
use workload_class.Kube.Objects.{Pod}
use workload_class.Kube.Client.{Client}
use workload_class.Api.{
  WorkloadClass, DisruptionPolicy, MaintenanceReadiness, ready, not_ready, overdue,
}
use workload_class.Resolve.{
  ResolveError, namespace_enforced_workload_class, best_match_workload_class_for_pod,
  workload_class_pod_selector,
}
use workload_class.SpotPod.{is_terminal, is_pod_active}
use workload_class.Pdb.{seconds}
use workload_class.Temporal.{TimeLib, Answer, is_time_in_windows}
use workload_class.Disruption.Handler.{days}
use workload_class.PodWebhook.Counts.{CountError, resolved, listed, has_name, is_selected}

abbrev pub is_positive : ℤ → Bool
is_positive z = ltb_ℤ (pos 0) z

-- minPositiveDuration
unfoldable pub min_positive_duration : ℤ → ℤ → ℤ
min_positive_duration a b =
    if not (is_positive a) then b else if not (is_positive b) then a else if ltb_ℤ b a then b else a

-- A positive number of days of an int32 as a duration, and none where the limit is not set.
abbrev pub limit_of : ℤ → Option ℤ
limit_of (pos (suc n)) = some (days (suc n))
limit_of _ = none

abbrev pub since : Option ℕ → ℕ → ℕ
since none created = created
since (some t) created = t

-- overdue: it is true where no limit is set.
unfoldable pub is_overdue : WorkloadClass → ℕ → Bool
is_overdue wc now = elim (limit_of wc.disruption_policy.max_non_disruption_duration_days) [
  | none ↦ true
  | some limit ↦ ltb_ℤ limit (sub_ℕ now (since wc.last_disruption_time wc.creation_timestamp))
]

-- gracePeriodPassed, for a grace period as a duration.
unfoldable pub grace_period_passed : ℤ → Option ℕ → ℕ → Bool × ℤ
grace_period_passed grace none now = (true, pos 0)
grace_period_passed grace (some deleted) now =
    let diff = grace -ℤ sub_ℕ now deleted in (not (is_positive diff), diff)

abbrev pub max : ℤ → ℤ → ℤ
max a b = if ltb_ℤ a b then b else a

-- evaluatePodGracePeriod
abbrev pub evaluate_pod_grace_period : ℤ → ℕ → Pod → Bool → ℤ → Bool × ℤ
evaluate_pod_grace_period grace now pod passed longest =
    let one = grace_period_passed grace pod.deletion_timestamp now in
    (passed && one.0, max longest one.1)

-- The loop over the grace periods.
unfoldable pub evaluate_grace : ℤ → ℕ → List Pod → Bool → ℤ → Bool × ℤ
evaluate_grace grace now [] passed longest = (passed, longest)
evaluate_grace grace now (pod ∷ pods) passed longest =
    let so_far = evaluate_pod_grace_period grace now pod passed longest in
    evaluate_grace grace now pods so_far.0 so_far.1

-- The loop over the ages: what is left to run of the first active Pod that is too new.
unfoldable pub too_new_for : ℤ → ℕ → List Pod → Option ℤ
too_new_for min_run now [] = none
too_new_for min_run now (pod ∷ pods) =
    let age = sub_ℕ now pod.creation_timestamp in
    let rest = too_new_for min_run now pods in
    if is_pod_active (some pod) && ltb_ℤ age min_run then some (min_run -ℤ age) else rest

abbrev pub Readiness : Type 0
Readiness = MaintenanceReadiness × ℤ

abbrev pub seconds_of : ℤ → Option ℤ
seconds_of (pos (suc n)) = some (seconds (suc n))
seconds_of _ = none

abbrev pub grace_answer : Bool × ℤ → ℤ → Readiness
grace_answer (true, longest) next = (ready, next)
grace_answer (false, longest) next = (not_ready, longest)

abbrev pub with_grace : Option ℤ → ℕ → ℤ → List Pod → Readiness
with_grace none now next pods = (ready, next)
with_grace (some grace) now next pods =
    grace_answer (evaluate_grace grace now pods true (pos 0)) next

-- The check of the grace periods.
unfoldable pub after_ages : DisruptionPolicy → ℕ → ℤ → List Pod → Readiness
after_ages policy now next pods =
    with_grace (seconds_of policy.grace_termination_duration_seconds) now next pods

abbrev pub age_check : ℤ → ℕ → List Pod → Option ℤ
age_check min_days now pods = elim (limit_of min_days) [
  | none ↦ none
  | some min_run ↦ too_new_for min_run now pods
]

abbrev pub if_too_new : Option ℤ → Readiness → Readiness
if_too_new (some wait) r = (not_ready, wait)
if_too_new none r = r

-- The checks of the matched Pods, inside a window.
unfoldable pub readiness_of_pods : DisruptionPolicy → ℕ → ℤ → List Pod → Readiness
readiness_of_pods policy now next pods =
    if_too_new (age_check policy.min_initial_run_duration_days now pods)
      (after_ages policy now next pods)

module _ (lib : SelectorLib) (client : Client) where
  abbrev pub prepend_if_named : Pod → WorkloadClass → Option WorkloadClass → List Pod → List Pod
  prepend_if_named pod wc best pods = if has_name best wc.name then pod ∷ pods else pods

  -- The loop that collects matchedPods.
  unfoldable pub matched_pods :
      WorkloadClass
      → Option WorkloadClass
      → List WorkloadClass
      → List Pod
      → Result ResolveError (List Pod)
  matched_pods wc enforced wcs [] = ok []
  matched_pods wc enforced wcs (pod ∷ pods) =
      let rest = matched_pods wc enforced wcs pods in
      if is_terminal pod.phase
      then rest
      else best_match_workload_class_for_pod lib (some pod) enforced wcs >>= λ best.
          rest >>= λ others. ok (prepend_if_named pod wc best others)

  -- The Pods of the WorkloadClass that have not ended.
  unfoldable pub pods_to_check : WorkloadClass → Result CountError (List Pod)
  pods_to_check wc = resolved (workload_class_pod_selector lib client wc) >>= λ selector.
      listed (client.list_pods wc.namespace) >>= λ pods.
      resolved (namespace_enforced_workload_class client wc.namespace) >>= λ enforced.
      listed (client.list_workload_classes wc.namespace) >>= λ wcs.
      resolved (matched_pods wc enforced wcs (filter (is_selected lib selector) pods))

  abbrev pub readiness_in : WorkloadClass → ℕ → Answer → Result CountError Readiness
  readiness_in wc now (false, next) = ok (not_ready, next)
  readiness_in wc now (true, next) =
      pods_to_check wc >>= λ pods. ok (readiness_of_pods wc.disruption_policy now next pods)

  -- calculateReadiness: the readiness, and when it is computed again.
  unfoldable pub calculate_readiness : TimeLib → WorkloadClass → ℕ → Result CountError Readiness
  calculate_readiness times wc now =
      let answer = is_time_in_windows times now wc.disruption_policy.allowed_disruption_windows in
      if wc.disruption_policy.emergency_override
      then ok (ready, pos 0)
      else if is_overdue wc now
      then ok (overdue, pos 0)
      else readiness_in wc now answer
