-- ===== src/Controller/ReadinessCases.antt =====
-- Which readiness calculateReadiness finds.
use workload_class.Prelude.{
  ℕ, ◌≡◌, refl, ap, ◌∙◌, arith, Bool, true, false, not, ◌&&◌, ◌||◌, Option, none, some, List, [],
  ◌∷◌, all, if◌then◌else◌, Result, ok,
}
use workload_class.Prelude.Int.{ℤ, pos, sub_ℕ, ltb_ℤ}
use workload_class.Kube.Labels.{SelectorLib}
use workload_class.Kube.Objects.{Pod}
use workload_class.Kube.Client.{Client}
use workload_class.Api.{
  WorkloadClass, DisruptionPolicy, MaintenanceReadiness, ready, not_ready, overdue,
}
use workload_class.SpotPod.{is_pod_active}
use workload_class.Temporal.{TimeLib, Answer, is_time_in_windows}
use workload_class.PodWebhook.Counts.{CountError}
use workload_class.Controller.Readiness.{
  min_positive_duration, is_positive, limit_of, seconds_of, is_overdue, grace_period_passed,
  evaluate_grace, max, with_grace, if_too_new, too_new_for, age_check, grace_answer, after_ages,
  readiness_of_pods, pods_to_check, Readiness, readiness_in, calculate_readiness,
}

-- minPositiveDuration is positive exactly if one of its arguments is, and is then one of the positive ones and
-- no later than any of them.
pub min_positive_lem :
    (a b : ℤ)
    → (is_positive (min_positive_duration a b) ≡ (is_positive a || is_positive b))
      × ((is_positive a && ltb_ℤ a (min_positive_duration a b)) ≡ false)
      × ((is_positive b && ltb_ℤ b (min_positive_duration a b)) ≡ false)
unfolding min_positive_duration
min_positive_lem a b = ground arith

-- An active Pod has run for the minimal time.
abbrev pub has_run_for : ℤ → ℕ → Pod → Bool
has_run_for min_run now pod =
    not (is_pod_active (some pod) && ltb_ℤ (sub_ℕ now pod.creation_timestamp) min_run)

abbrev pub all_old_enough : DisruptionPolicy → ℕ → List Pod → Bool
all_old_enough policy now pods = elim (limit_of policy.min_initial_run_duration_days) [
  | none ↦ true
  | some min_run ↦ all (has_run_for min_run now) pods
]

-- A Pod that is being deleted has been so for the grace period.
abbrev pub all_graces_passed : DisruptionPolicy → ℕ → List Pod → Bool
all_graces_passed policy now pods = elim (seconds_of policy.grace_termination_duration_seconds) [
  | none ↦ true
  | some grace ↦ all (λ pod. (grace_period_passed grace pod.deletion_timestamp now).0) pods
]

evaluate_grace-all :
    (grace : ℤ) (now : ℕ) (pods : List Pod) (passed : Bool) (longest : ℤ)
    → (evaluate_grace grace now pods passed longest).0
      ≡ (passed && all (λ pod. (grace_period_passed grace pod.deletion_timestamp now).0) pods)
unfolding evaluate_grace
evaluate_grace-all grace now [] passed longest = ground arith
evaluate_grace-all grace now (pod ∷ pods) passed longest =
    let one = grace_period_passed grace pod.deletion_timestamp now in
    ground (arith, evaluate_grace-all grace now pods (passed && one.0) (max longest one.1))

abbrev is_none : Option ℤ → Bool
is_none none = true
is_none (some z) = false

too_new_for-none :
    (min_run : ℤ) (now : ℕ) (pods : List Pod)
    → is_none (too_new_for min_run now pods) ≡ all (has_run_for min_run now) pods
unfolding too_new_for
too_new_for-none min_run now [] = refl
too_new_for-none min_run now (pod ∷ pods) = ground (arith, too_new_for-none min_run now pods)

age_check-none :
    (policy : DisruptionPolicy) (now : ℕ) (pods : List Pod)
    → is_none (age_check policy.min_initial_run_duration_days now pods)
      ≡ all_old_enough policy now pods
age_check-none policy now pods = by_limit (limit_of policy.min_initial_run_duration_days)
  where
    by_limit :
        (o : Option ℤ)
        → is_none (elim o [ none ↦ none | some m ↦ too_new_for m now pods ])
          ≡ elim o [ none ↦ true | some m ↦ all (has_run_for m now) pods ]
    by_limit none = refl
    by_limit (some m) = too_new_for-none m now pods

abbrev ready_if : Bool → MaintenanceReadiness
ready_if b = if b then ready else not_ready

after_ages-ready :
    (policy : DisruptionPolicy) (now : ℕ) (next : ℤ) (pods : List Pod)
    → (after_ages policy now next pods).0 ≡ ready_if (all_graces_passed policy now pods)
unfolding after_ages
after_ages-ready policy now next pods =
    by_grace (seconds_of policy.grace_termination_duration_seconds)
  where
    answered : (a : Bool × ℤ) → (grace_answer a next).0 ≡ ready_if a.0
    answered (true, z) = refl
    answered (false, z) = refl

    by_grace :
        (o : Option ℤ)
        → (with_grace o now next pods).0
          ≡ ready_if (elim o [
            | none ↦ true
            | some g ↦ all (λ p. (grace_period_passed g p.deletion_timestamp now).0) pods
          ])
    by_grace none = refl
    by_grace (some g) =
        answered (evaluate_grace g now pods true (pos 0))
        ∙ ap ready_if (evaluate_grace-all g now pods true (pos 0))

readiness_of_pods-ready :
    (policy : DisruptionPolicy) (now : ℕ) (next : ℤ) (pods : List Pod)
    → (readiness_of_pods policy now next pods).0
      ≡ ready_if (all_old_enough policy now pods && all_graces_passed policy now pods)
unfolding readiness_of_pods
readiness_of_pods-ready policy now next pods =
    by_age (age_check policy.min_initial_run_duration_days now pods)
      (after_ages policy now next pods)
    ∙ ap ready_if
        (ap (λ b. b && all_graces_passed policy now pods) (age_check-none policy now pods))
  where
    graced : Bool
    graced = all_graces_passed policy now pods

    by_age :
        (o : Option ℤ) (r : Readiness)
        → (if_too_new o (after_ages policy now next pods)).0 ≡ ready_if (is_none o && graced)
    by_age (some z) r = refl
    by_age none r = after_ages-ready policy now next pods

module _ (lib : SelectorLib) (client : Client) (times : TimeLib) (wc : WorkloadClass)
    (now : ℕ) where
  abbrev pub in_window : Bool
  in_window = (is_time_in_windows times now wc.disruption_policy.allowed_disruption_windows).0

  abbrev pub expected : List Pod → MaintenanceReadiness
  expected pods =
      if wc.disruption_policy.emergency_override
      then ready
      else if is_overdue wc now
      then overdue
      else ready_if (
          in_window
          && (all_old_enough wc.disruption_policy now pods
              && all_graces_passed wc.disruption_policy now pods))

  abbrev Gives : Result CountError Readiness → MaintenanceReadiness → Type 0
  Gives r m = (a : Readiness) × (r ≡ ok a) × (a.0 ≡ m)

  readiness_in-ready :
      (answer : Answer) (pods : List Pod)
      → pods_to_check lib client wc ≡ ok pods
      → Gives (readiness_in lib client wc now answer) (
          ready_if (
            answer.0
            && (all_old_enough wc.disruption_policy now pods
                && all_graces_passed wc.disruption_policy now pods)))
  readiness_in-ready (false, next) pods e = ((not_ready, next), refl, refl)
  readiness_in-ready (true, next) pods e = (
    readiness_of_pods wc.disruption_policy now next pods,
    rw e refl,
    readiness_of_pods-ready wc.disruption_policy now next pods,
  )

  if-Gives :
      (b c : Bool) (r : Result CountError Readiness) (m : MaintenanceReadiness)
      → Gives r m
      → Gives
          (if b then ok (ready, pos 0) else if c then ok (overdue, pos 0) else r)
          (if b then ready else if c then overdue else m)
  if-Gives true c r m h = ((ready, pos 0), refl, refl)
  if-Gives false true r m h = ((overdue, pos 0), refl, refl)
  if-Gives false false r m h = h

  -- If the Pods of the WorkloadClass can be listed, calculateReadiness returns Ready under the emergency
  -- override; otherwise Overdue if it is overdue; and otherwise Ready if now is in a window, every active
  -- Pod has run for the minimal time, and every Pod that is being deleted has been so for the grace
  -- period, and NotReady if not.
  pub calculate_readiness-expected :
      (pods : List Pod)
      → pods_to_check lib client wc ≡ ok pods
      → (r : Readiness) × (calculate_readiness lib client times wc now ≡ ok r)
        × (r.0 ≡ expected pods)
  unfolding calculate_readiness
  calculate_readiness-expected pods e =
      let answer = is_time_in_windows times now wc.disruption_policy.allowed_disruption_windows in
      if-Gives wc.disruption_policy.emergency_override (is_overdue wc now)
        (readiness_in lib client wc now answer) _ (readiness_in-ready answer pods e)

  -- Under the emergency override, and otherwise without a limit, neither the Pods nor the windows count.
  pub override-ready :
      wc.disruption_policy.emergency_override ≡ true
      → calculate_readiness lib client times wc now ≡ ok (ready, pos 0)
  unfolding calculate_readiness
  override-ready override = rw override refl

  pub unset_limit-overdue :
      wc.disruption_policy.max_non_disruption_duration_days ≡ pos 0
      → wc.disruption_policy.emergency_override ≡ false
      → calculate_readiness lib client times wc now ≡ ok (overdue, pos 0)
  unfolding calculate_readiness is_overdue
  unset_limit-overdue limit override = rw (limit, override) refl
