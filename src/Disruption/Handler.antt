-- ===== src/Disruption/Handler.antt =====
-- internal/webhook/disruption_webhook.go: Handle and handleAuthorizedSubject.
use workload_class.Prelude.{
  ℕ, zero, suc, ◌-◌, ◌*◌, ◌%◌, ◌^◌, Bool, true, false, not, ◌&&◌, Option, none, some, List, [], ◌∷◌,
  ltb, ◌==◌, str_eq, Str, lit, lookup, if◌then◌else◌, Result, ok, err,
}
use workload_class.Prelude.Int.{ℤ, pos, negsuc, sub_ℕ, ltb_ℤ}
use workload_class.Kube.Labels.{SelectorLib}
use workload_class.Kube.Objects.{Pod, Pdb, UserInfo, Condition, ConditionStatus, condition_false}
use workload_class.Kube.Client.{Client, GetError}
use workload_class.Api.{WorkloadClass, Subject, MaintenanceReadiness, overdue, pod_uid_label}
use workload_class.Api.ConditionType.{validated}
use workload_class.Resolve.{ResolveError, Match, find_best_match_workload_class, is_validated}
use workload_class.LeaseTracker.{Tracker, enqueue_lease}
use workload_class.PdbName.{pdb_name}
use workload_class.Pdb.{
  TimeFormat, get, is_workload_class_managed_pdb, subject_already_leasing, allow_lease, is_pdb_open,
}
use workload_class.Temporal.{TimeLib, is_time_in_windows}
use workload_class.Disruption.Identity.{matching_subjects}

-- The parts of an admission request that the handler reads.
pub record Request : Type 0 where
  pub sub_resource : Str
  pub name : Str
  pub namespace : Str
  pub user_info : UserInfo

-- Why an eviction is allowed; the last three name the subject.
pub data Allowance : Type 0 where
  not_an_eviction resolution_failed no_workload_class failed_validation : Allowance
  emergency is_overdue by_policy : Allowance
  authorized authorized_leased lease_requested : Subject → Allowance

pub data Denial : Type 0 where
  ongoing_lease outside_windows too_new : Denial

-- admission.Response
pub data Response : Type 0 where
  allowed : Allowance → Response
  denied : Denial → Response
  errored : GetError → Response

-- time.Duration(n) * 24 * time.Hour of an int32: the product wraps in int64.
unfoldable pub days : ℕ → ℤ
days n =
    let w = (n * (86400 * 10 ^ 9)) % 2 ^ 64 in
    if ltb w (2 ^ 63) then pos w else negsuc (2 ^ 64 - w - 1)

-- The guard on MinInitialRunDurationDays, and the comparison of the age behind it.
unfoldable pub is_too_new : ℤ → ℕ → ℕ → Bool
is_too_new (pos (suc n)) now creation = ltb_ℤ (sub_ℕ now creation) (days (suc n))
is_too_new (pos zero) now creation = false
is_too_new (negsuc n) now creation = false

abbrev pub is_false : ConditionStatus → Bool
is_false condition_false = true
is_false _ = false

-- The condition is there, it is False, and not for an overlap of selectors only.
abbrev pub fails_validation : Option Condition → Bool
fails_validation none = false
fails_validation (some c) = is_false c.status && not (is_validated (some c))

abbrev pub is_overdue_readiness : MaintenanceReadiness → Bool
is_overdue_readiness overdue = true
is_overdue_readiness _ = false

-- LeaseTracker.Enqueue on a tracker that may be nil.
abbrev pub request_lease :
    Option Tracker → WorkloadClass → Pod → Subject → Option Tracker × Response
request_lease none wc pod subject = (none, allowed (authorized subject))
request_lease (some t) wc pod subject =
    (some (enqueue_lease t wc pod subject).0, allowed (lease_requested subject))

abbrev pub first : (Subject → Bool) → List Subject → Option Subject
first test [] = none
first test (s ∷ ss) = if test s then some s else first test ss

module _ (time : TimeFormat) (now : ℕ) where
  -- handleAuthorizedSubject with the budget at hand: the loop over the subjects, and what follows it.
  unfoldable pub decide_lease :
      Option Tracker
      → WorkloadClass
      → Pod
      → Pdb
      → Subject
      → Option Subject
      → Option Tracker × Response
  decide_lease t wc pod pdb subject (some leasing) = (t, allowed (authorized_leased leasing))
  decide_lease t wc pod pdb subject none =
      if not (allow_lease time now (some pdb) (some pod))
      then (t, denied ongoing_lease)
      else if is_pdb_open (some pdb) && (get pdb.labels pod_uid_label == pod.uid)
      then (t, allowed (authorized subject))
      else request_lease t wc pod subject

  unfoldable pub handle_with_pdb :
      Option Tracker
      → WorkloadClass
      → Pod
      → Result GetError Pdb
      → Subject
      → List Subject
      → Option Tracker × Response
  unfolding decide_lease
  handle_with_pdb t wc pod (err e) subject subjects = (t, allowed (authorized subject))
  handle_with_pdb t wc pod (ok pdb) subject subjects =
      if not (is_workload_class_managed_pdb (some pdb))
      then (t, allowed (authorized subject))
      else decide_lease t wc pod pdb subject
          (first (subject_already_leasing time now (some pdb) (some pod)) (subject ∷ subjects))

module _ (lib : SelectorLib) (times : TimeLib) (time : TimeFormat) (hash : Str → Str)
    (client : Client) (now : ℕ) where
  -- handleAuthorizedSubject, for the first subject and the others.
  unfoldable pub handle_authorized_subject :
      Option Tracker → WorkloadClass → Pod → Subject → List Subject → Option Tracker × Response
  handle_authorized_subject t wc pod subject subjects =
      handle_with_pdb time now t wc pod (client.get_pdb pod.namespace (pdb_name hash pod.name))
        subject subjects

  -- Handle behind the identity check, for a user who is none of the subjects.
  unfoldable pub handle_by_policy : WorkloadClass → Pod → Response
  handle_by_policy wc pod =
      let windows = is_time_in_windows times now wc.disruption_policy.allowed_disruption_windows in
      if is_overdue_readiness wc.maintenance_readiness
      then allowed is_overdue
      else if not windows.0
      then denied outside_windows
      else if is_too_new wc.disruption_policy.min_initial_run_duration_days now
          pod.creation_timestamp
      then denied too_new
      else allowed by_policy

  unfoldable pub handle_subjects :
      Option Tracker → WorkloadClass → Pod → List Subject → Option Tracker × Response
  handle_subjects t wc pod [] = (t, handle_by_policy wc pod)
  handle_subjects t wc pod (s ∷ ss) = handle_authorized_subject t wc pod s ss

  unfoldable pub handle_class :
      Option Tracker → Request → Pod → WorkloadClass → Option Tracker × Response
  unfolding handle_subjects
  handle_class t request pod wc =
      if fails_validation (lookup validated wc.conditions)
      then (t, allowed failed_validation)
      else if wc.disruption_policy.emergency_override
      then (t, allowed emergency)
      else handle_subjects t wc pod (
          matching_subjects request.user_info
            wc.disruption_policy.allowed_disruptions_outside_of_window)

  unfoldable pub handle_best :
      Option Tracker → Request → Pod → Option WorkloadClass → Option Tracker × Response
  unfolding handle_class
  handle_best t request pod none = (t, allowed no_workload_class)
  handle_best t request pod (some wc) = handle_class t request pod wc

  unfoldable pub handle_match :
      Option Tracker → Request → Pod → Result ResolveError Match → Option Tracker × Response
  unfolding handle_best
  handle_match t request pod (err e) = (t, allowed resolution_failed)
  handle_match t request pod (ok m) = handle_best t request pod m.best

  unfoldable pub handle_pod :
      Option Tracker → Request → Result GetError Pod → Option Tracker × Response
  unfolding handle_match
  handle_pod t request (err e) = (t, errored e)
  handle_pod t request (ok pod) =
      handle_match t request pod (find_best_match_workload_class lib client (some pod))

  -- Handle
  unfoldable pub handle : Option Tracker → Request → Option Tracker × Response
  handle t request =
      if not (request.sub_resource == lit "eviction")
      then (t, allowed not_an_eviction)
      else handle_pod t request (client.get_pod request.namespace request.name)
