-- ===== src/Examples/Evictions.antt =====
-- Evictions of the sample Pod on a Saturday, in and outside of the window from 01:00 to 05:00.
use workload_class.Disruption.Requests.{Outcome, NeedsLease, is_lease_requested, handle-Outcome}
use workload_class.Prelude.{
  ◌*◌, ◌^◌, ◌≡◌, ◌≢◌, ◌↔◌, ◌⊎◌, refl, arith, true, false, some, [], ◌∷◌, ==_refl, str_eq, str_beq,
  lit, lookup, ok, Memᴰ,
}
use workload_class.Prelude.Int.{pos, ltb_ℤ, sub_ℕ}
use workload_class.LeaseTracker.{Tracker, new_pending_lease_tracker}
use workload_class.Kube.Objects.{Pdb, UserInfo}
use workload_class.Kube.Client.{Client}
use workload_class.Api.{DisruptionWindow}
use workload_class.Api.ConditionType.{validated}
use workload_class.Resolve.{
  find_best_match_workload_class, namespace_enforced_workload_class, named_enforced,
}
use workload_class.Pdb.{
  with_lease, subject_already_leasing, is_workload_class_managed_pdb, bypass_owner_value,
  lease_duration_for_pod, seconds,
}
use workload_class.Pdb.Lease.{with_lease-until_expiry}
use workload_class.Temporal.{evaluate_window, evaluate_same_day_window, is_time_in_windows}
use workload_class.Temporal.Choice.{IsOpen, is_time_in_windows_iff}
use workload_class.Disruption.Identity.{matches_identity, matches_user_kind, matching_subjects}
use workload_class.Disruption.Handler.{
  Request, denied, ongoing_lease, fails_validation, is_overdue_readiness, handle,
}
use workload_class.Disruption.Evictions.{
  is_denied, Governed, subjects, in_window, is_young, eviction-denied_iff, leased-denied,
}
use workload_class.Examples.Samples.{
  times, selector_lib, time_format, hash, pod, pdb, web_class, client, a_user, a_group,
}

abbrev tracker : Tracker
tracker = new_pending_lease_tracker (pos 0)

abbrev window : DisruptionWindow
window = record {
  name = lit "weekend";
  days_of_week = lit "Saturday" ∷ [];
  time_zone = [];
  start_time = lit "01:00";
  end_time = lit "05:00";
}

still_open : ltb_ℤ (sub_ℕ 35 20) (evaluate_window 10 40 20 true false).1 ≡ true
unfolding evaluate_window evaluate_same_day_window
still_open = refl

is_time_in_windows_iff_example :
    ((is_time_in_windows times (2 * (3600 * 10 ^ 9)) (window ∷ [])).0 ≡ true)
    ↔ ((v : DisruptionWindow) × Memᴰ v (window ∷ []) × IsOpen times (2 * (3600 * 10 ^ 9)) v)
is_time_in_windows_iff_example = is_time_in_windows_iff times (2 * (3600 * 10 ^ 9)) window []

abbrev stranger : UserInfo
stranger = record { username = lit "bob"; groups = lit "ops" ∷ [] }

abbrev ann : UserInfo
ann = record { username = lit "ann"; groups = [] }

abbrev eviction : UserInfo → Request
eviction user = record {
  sub_resource = lit "eviction";
  name = lit "web-0";
  namespace = lit "shop";
  user_info = user;
}

-- The group holds the lease.
abbrev leased : Pdb
leased = with_lease time_format hash 5 pdb pod a_group

abbrev evict_client : Client
evict_client = record client { get_pod = λ ns name. ok pod; get_pdb = λ ns name. ok leased }

governed : (user : UserInfo) → Governed selector_lib evict_client (eviction user) pod web_class
unfolding find_best_match_workload_class namespace_enforced_workload_class named_enforced lookup lit
    str_beq
governed user = record {
  eviction = refl;
  reads = refl;
  found = record { best = some web_class; ambiguous = [] };
  resolves = refl;
  best = refl;
}

no_subject : subjects (eviction stranger) web_class ≡ []
unfolding matching_subjects matches_identity matches_user_kind lit str_beq
no_subject = refl

eviction-denied_iff_example :
    (is_denied
        (handle selector_lib times time_format hash evict_client 9
          (some tracker)
          (eviction stranger)).1
      ≡ true)
    ↔ ((fails_validation (lookup validated web_class.conditions) ≡ false)
        × (web_class.disruption_policy.emergency_override ≡ false)
        × (is_overdue_readiness web_class.maintenance_readiness ≡ false)
        × ((in_window times 9 web_class ≡ false) ⊎ (is_young 9 pod web_class ≡ true)))
eviction-denied_iff_example =
    eviction-denied_iff selector_lib times time_format hash evict_client 9 (eviction stranger) pod
      web_class (some tracker) (governed stranger) no_subject

one_subject : subjects (eviction ann) web_class ≡ a_user ∷ []
unfolding matching_subjects matches_identity matches_user_kind lit str_beq
one_subject = refl

lasts_forty : lease_duration_for_pod (some pod) ≡ pos (40 * 10 ^ 9)
unfolding lease_duration_for_pod seconds
lasts_forty = refl

managed : is_workload_class_managed_pdb (some pdb) ≡ true
unfolding is_workload_class_managed_pdb
managed = ==_refl (lit "WorkloadClass")

holds_lease : subject_already_leasing time_format 9 (some leased) (some pod) a_group ≡ true
holds_lease =
    let h =
      with_lease-until_expiry time_format hash 5 pdb pod a_group (40 * 10 ^ 9) 9 managed lasts_forty
        (omega arith) in
    h.1

other_owner : bypass_owner_value a_user ≢ bypass_owner_value a_group
unfolding bypass_owner_value lit str_beq
other_owner = cc

no_condition : fails_validation (lookup validated web_class.conditions) ≡ false
unfolding lookup
no_condition = refl

leased-denied_example :
    handle selector_lib times time_format hash evict_client 9 (some tracker) (eviction ann)
    ≡ (some tracker, denied ongoing_lease)
leased-denied_example =
    leased-denied selector_lib times time_format hash evict_client 9 (eviction ann) pod web_class
      (some tracker) leased a_group a_user [] (governed ann) no_condition refl one_subject refl
      holds_lease (other_owner, tt)

handle-Outcome_example :
    let h = handle selector_lib times time_format hash client 9 (some tracker) (eviction ann) in
    ((is_lease_requested h.1 ≡ true)
      ↔ NeedsLease selector_lib times time_format hash client 9 (eviction ann) tracker)
    × Outcome selector_lib times time_format hash client 9 (eviction ann) tracker h
handle-Outcome_example =
    handle-Outcome selector_lib times time_format hash client 9 (eviction ann) tracker
