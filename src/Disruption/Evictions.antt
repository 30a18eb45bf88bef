-- ===== src/Disruption/Evictions.antt =====
-- Which evictions the disruption webhook lets through.
use workload_class.Prelude.{
  ℕ, ◌≡◌, ◌≢◌, ◌↔◌, ◌⊎◌, refl, arith, Bool, true, false, Option, none, some, List, [], ◌∷◌, All,
  ◌==◌, str_eq, Str, lit, lookup, ok,
}
use workload_class.Kube.Labels.{SelectorLib}
use workload_class.Kube.Objects.{Pod, Pdb}
use workload_class.Kube.Client.{Client}
use workload_class.Api.{WorkloadClass, Subject}
use workload_class.Api.ConditionType.{validated}
use workload_class.Resolve.{Match, find_best_match_workload_class}
use workload_class.LeaseTracker.{Tracker}
use workload_class.PdbName.{pdb_name}
use workload_class.Pdb.{
  TimeFormat, is_workload_class_managed_pdb, subject_already_leasing, bypass_owner_value,
}
use workload_class.Pdb.Lease.{leasing_exclusive}
use workload_class.Temporal.{TimeLib, is_time_in_windows}
use workload_class.Disruption.Identity.{matching_subjects}
use workload_class.Disruption.Handler.{
  handle_best, Request, Response, allowed, denied, errored, ongoing_lease, fails_validation,
  is_overdue_readiness, is_too_new, first, decide_lease, handle_with_pdb, handle_authorized_subject,
  handle_by_policy, handle_subjects, handle_class, handle_match, handle_pod, handle,
}

abbrev pub is_denied : Response → Bool
is_denied (allowed a) = false
is_denied (denied d) = true
is_denied (errored e) = false

module _ (lib : SelectorLib) (client : Client) (request : Request) (pod : Pod)
    (wc : WorkloadClass) where
  -- The request asks to evict the Pod, which the WorkloadClass governs.
  pub record Governed : Type 0 where
    pub eviction : (request.sub_resource == lit "eviction") ≡ true
    pub reads : client.get_pod request.namespace request.name ≡ ok pod
    pub found : Match
    pub resolves : find_best_match_workload_class lib client (some pod) ≡ ok found
    pub best : found.best ≡ some wc

abbrev pub subjects : Request → WorkloadClass → List Subject
subjects request wc =
    matching_subjects request.user_info wc.disruption_policy.allowed_disruptions_outside_of_window

abbrev pub in_window : TimeLib → ℕ → WorkloadClass → Bool
in_window times now wc =
    (is_time_in_windows times now wc.disruption_policy.allowed_disruption_windows).0

abbrev pub is_young : ℕ → Pod → WorkloadClass → Bool
is_young now pod wc =
    is_too_new wc.disruption_policy.min_initial_run_duration_days now pod.creation_timestamp

module _ (lib : SelectorLib) (times : TimeLib) (time : TimeFormat) (hash : Str → Str)
    (client : Client) (now : ℕ) (request : Request) (pod : Pod) (wc : WorkloadClass) where
  pub handle-governed :
      (t : Option Tracker)
      → Governed lib client request pod wc
      → handle lib times time hash client now t request
        ≡ handle_class lib times time hash client now t request pod wc
  unfolding handle handle_pod handle_match handle_best
  handle-governed t g = rw (g.eviction, g.reads, g.resolves, g.best) refl

  -- An eviction of a governed Pod by a user who is none of the WorkloadClass's subjects is denied exactly if
  -- the WorkloadClass did not fail its validation, has no emergency override and is not overdue, and either
  -- no disruption window is open or the Pod is younger than its minimal initial run.
  pub eviction-denied_iff :
      (t : Option Tracker)
      → Governed lib client request pod wc
      → subjects request wc ≡ []
      → (is_denied (handle lib times time hash client now t request).1 ≡ true) ↔ (
          (fails_validation (lookup validated wc.conditions) ≡ false)
          × (wc.disruption_policy.emergency_override ≡ false)
          × (is_overdue_readiness wc.maintenance_readiness ≡ false)
          × ((in_window times now wc ≡ false) ⊎ (is_young now pod wc ≡ true)))
  unfolding handle_class handle_subjects handle_by_policy
  eviction-denied_iff t g h = rw (handle-governed t g, h) (ground arith, ground arith)

  no_leasing :
      (pdb : Pdb) (r : Subject) (ss : List Subject)
      → subject_already_leasing time now (some pdb) (some pod) r ≡ true
      → All (λ q. bypass_owner_value q ≢ bypass_owner_value r) ss
      → first (subject_already_leasing time now (some pdb) (some pod)) ss ≡ none
  no_leasing pdb r [] h k = refl
  no_leasing pdb r (s ∷ ss) h k =
      ground (arith, k.0, leasing_exclusive time now pdb pod r s h, no_leasing pdb r ss h k.1)

  leasing-managed :
      (pdb : Pdb) (r : Subject)
      → subject_already_leasing time now (some pdb) (some pod) r ≡ true
      → is_workload_class_managed_pdb (some pdb) ≡ true
  unfolding subject_already_leasing
  leasing-managed pdb r h = ground arith

  -- While a subject holds the lease of the Pod's budget, the eviction of the governed Pod by a user whose
  -- subjects all have other owner values is denied, and no lease is requested; unless the WorkloadClass
  -- failed its validation or has an emergency override.
  pub leased-denied :
      (t : Option Tracker) (pdb : Pdb) (r s : Subject) (ss : List Subject)
      → Governed lib client request pod wc
      → fails_validation (lookup validated wc.conditions) ≡ false
      → wc.disruption_policy.emergency_override ≡ false
      → subjects request wc ≡ s ∷ ss
      → client.get_pdb pod.namespace (pdb_name hash pod.name) ≡ ok pdb
      → subject_already_leasing time now (some pdb) (some pod) r ≡ true
      → All (λ q. bypass_owner_value q ≢ bypass_owner_value r) (s ∷ ss)
      → handle lib times time hash client now t request ≡ (t, denied ongoing_lease)
  unfolding handle_class handle_subjects handle_authorized_subject handle_with_pdb decide_lease
  leased-denied t pdb r s ss g valid calm are reads holds others =
      rw
        (
          handle-governed t g,
          valid,
          calm,
          are,
          reads,
          leasing-managed pdb r holds,
          no_leasing pdb r (s ∷ ss) holds others,
          (leasing_exclusive time now pdb pod r r holds).0,
        )
        refl
