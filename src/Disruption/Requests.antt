-- ===== src/Disruption/Requests.antt =====
-- When the disruption webhook requests a lease.
use workload_class.Prelude.{
  ℕ, ◌≡◌, ◌⊎◌, inl, inr, refl, Bool, true, false, ◌&&◌, Option, none, some, List, [], ◌∷◌, arith,
  ap, ◌↔◌, ◌==◌, str_eq, Str, lit, lookup, Result, ok, err, Bool-cases, if◌then◌else◌, not,
}
use workload_class.Kube.Labels.{SelectorLib}
use workload_class.Kube.Objects.{Pod, Pdb}
use workload_class.Kube.Client.{Client, GetError}
use workload_class.Api.{WorkloadClass, Subject, pod_uid_label}
use workload_class.Api.ConditionType.{validated}
use workload_class.Resolve.{ResolveError, Match, find_best_match_workload_class}
use workload_class.LeaseTracker.{Tracker, enqueue_lease}
use workload_class.PdbName.{pdb_name}
use workload_class.Pdb.{
  TimeFormat, get, is_workload_class_managed_pdb, subject_already_leasing, allow_lease, is_pdb_open,
}
use workload_class.Temporal.{TimeLib}
use workload_class.Disruption.Handler.{
  Request, Response, handle_by_policy, allowed, lease_requested, fails_validation, first,
  decide_lease, handle_with_pdb, handle_authorized_subject, handle_subjects, handle_class,
  handle_best, handle_match, handle_pod, handle,
}
use workload_class.Disruption.Evictions.{Governed, subjects, handle-governed}

abbrev pub is_lease_requested : Response → Bool
is_lease_requested (allowed (lease_requested s)) = true
is_lease_requested _ = false

module _ (lib : SelectorLib) (time : TimeFormat) (hash : Str → Str) (client : Client) (now : ℕ)
    (request : Request) (pod : Pod) (wc : WorkloadClass) (pdb : Pdb) (s : Subject)
    (ss : List Subject) where
  -- The request asks to evict the Pod, which the WorkloadClass governs; the class did not fail its
  -- validation and has no emergency override; the user is the subject s and then those of ss; none of these
  -- holds the lease of the managed budget of the Pod's name, which may be leased and is not open for
  -- this instance of the Pod yet.
  pub record Needed : Type 0 where
    pub governed : Governed lib client request pod wc
    pub valid : fails_validation (lookup validated wc.conditions) ≡ false
    pub calm : wc.disruption_policy.emergency_override ≡ false
    pub are : subjects request wc ≡ s ∷ ss
    pub reads : client.get_pdb pod.namespace (pdb_name hash pod.name) ≡ ok pdb
    pub managed : is_workload_class_managed_pdb (some pdb) ≡ true
    pub unleased : first (subject_already_leasing time now (some pdb) (some pod)) (s ∷ ss) ≡ none
    pub grants : allow_lease time now (some pdb) (some pod) ≡ true
    pub still : (is_pdb_open (some pdb) && (get pdb.labels pod_uid_label == pod.uid)) ≡ false

module _ (lib : SelectorLib) (times : TimeLib) (time : TimeFormat) (hash : Str → Str)
    (client : Client) (now : ℕ) (request : Request) (u : Tracker) where
  abbrev pub NeedsLease : Type 0
  NeedsLease =
      (pod : Pod) × (wc : WorkloadClass) × (pdb : Pdb) × (s : Subject) × (ss : List Subject)
      × Needed lib time hash client now request pod wc pdb s ss

  -- The lease that is needed was enqueued for the first subject that the user is.
  abbrev Requested : Option Tracker × Response → Type 0
  Requested x =
      (pod : Pod) × (wc : WorkloadClass) × (pdb : Pdb) × (s : Subject) × (ss : List Subject)
      × Needed lib time hash client now request pod wc pdb s ss
      × (x ≡ (some (enqueue_lease u wc pod s).0, allowed (lease_requested s)))

  abbrev pub Outcome : Option Tracker × Response → Type 0
  Outcome x = ((x.0 ≡ some u) × (is_lease_requested x.1 ≡ false)) ⊎ Requested x

  if-Outcome :
      (b : Bool) (x y : Option Tracker × Response)
      → (b ≡ true → Outcome x)
      → (b ≡ false → Outcome y)
      → Outcome (if b then x else y)
  if-Outcome true x y f g = f refl
  if-Outcome false x y f g = g refl

  needed-requested :
      (pod : Pod) (wc : WorkloadClass) (pdb : Pdb) (s : Subject) (ss : List Subject)
      → Needed lib time hash client now request pod wc pdb s ss
      → handle lib times time hash client now (some u) request
        ≡ (some (enqueue_lease u wc pod s).0, allowed (lease_requested s))
  unfolding handle_class handle_subjects handle_authorized_subject handle_with_pdb decide_lease
  needed-requested pod wc pdb s ss n =
      rw
        (
          handle-governed lib times time hash client now request pod wc (some u) n.governed,
          n.valid,
          n.calm,
          n.are,
          n.reads,
          n.managed,
          n.unleased,
          n.grants,
          n.still,
        )
        refl

  -- For a Pod that the WorkloadClass governs, and a user who is a subject.
  module _ (pod : Pod) (wc : WorkloadClass) (s : Subject) (ss : List Subject)
      (governed : Governed lib client request pod wc)
      (valid : fails_validation (lookup validated wc.conditions) ≡ false)
      (calm : wc.disruption_policy.emergency_override ≡ false)
      (are : subjects request wc ≡ s ∷ ss) where
    decide_lease-Outcome :
        (pdb : Pdb) (o : Option Subject)
        → client.get_pdb pod.namespace (pdb_name hash pod.name) ≡ ok pdb
        → is_workload_class_managed_pdb (some pdb) ≡ true
        → first (subject_already_leasing time now (some pdb) (some pod)) (s ∷ ss) ≡ o
        → Outcome (decide_lease time now (some u) wc pod pdb s o)
    unfolding decide_lease
    decide_lease-Outcome pdb (some l) reads managed h = inl (refl, refl)
    decide_lease-Outcome pdb none reads managed unleased =
        elim (Bool-cases (allow_lease time now (some pdb) (some pod))) [
          | inr a ↦ rw a (inl (refl, refl))
          | inl grants ↦ rw grants (
              if-Outcome (is_pdb_open (some pdb) && (get pdb.labels pod_uid_label == pod.uid)) _ _
                (λ b. inl (refl, refl))
                (λ still. inr (
                  pod,
                  wc,
                  pdb,
                  s,
                  ss,
                  record {
                    governed = governed;
                    valid = valid;
                    calm = calm;
                    are = are;
                    reads = reads;
                    managed = managed;
                    unleased = unleased;
                    grants = grants;
                    still = still;
                  },
                  refl,
                )))
        ]

    handle_with_pdb-Outcome :
        (r : Result GetError Pdb)
        → client.get_pdb pod.namespace (pdb_name hash pod.name) ≡ r
        → Outcome (handle_with_pdb time now (some u) wc pod r s ss)
    unfolding handle_with_pdb
    handle_with_pdb-Outcome (err e) h = inl (refl, refl)
    handle_with_pdb-Outcome (ok pdb) h =
        elim (Bool-cases (is_workload_class_managed_pdb (some pdb))) [
          | inr a ↦ rw a (inl (refl, refl))
          | inl a ↦ rw a (
              decide_lease-Outcome pdb
                (first (subject_already_leasing time now (some pdb) (some pod)) (s ∷ ss)) h a refl)
        ]

  handle_by_policy-no_lease :
      (wc : WorkloadClass) (pod : Pod)
      → is_lease_requested (handle_by_policy lib times time hash client now wc pod) ≡ false
  unfolding handle_by_policy
  handle_by_policy-no_lease wc pod = ground arith

  handle_subjects-Outcome :
      (pod : Pod) (wc : WorkloadClass) (ss : List Subject)
      → Governed lib client request pod wc
      → fails_validation (lookup validated wc.conditions) ≡ false
      → wc.disruption_policy.emergency_override ≡ false
      → subjects request wc ≡ ss
      → Outcome (handle_subjects lib times time hash client now (some u) wc pod ss)
  unfolding handle_subjects handle_authorized_subject
  handle_subjects-Outcome pod wc [] g valid calm are = inl (refl, handle_by_policy-no_lease wc pod)
  handle_subjects-Outcome pod wc (s ∷ ss) g valid calm are =
      handle_with_pdb-Outcome pod wc s ss g valid calm are
        (client.get_pdb pod.namespace (pdb_name hash pod.name)) refl

  handle_class-Outcome :
      (pod : Pod) (wc : WorkloadClass)
      → Governed lib client request pod wc
      → Outcome (handle_class lib times time hash client now (some u) request pod wc)
  unfolding handle_class
  handle_class-Outcome pod wc g =
      if-Outcome (fails_validation (lookup validated wc.conditions)) _ _ (λ a. inl (refl, refl))
        (λ valid.
          if-Outcome wc.disruption_policy.emergency_override _ _ (λ b. inl (refl, refl))
            (λ calm. handle_subjects-Outcome pod wc (subjects request wc) g valid calm refl))

  -- For an eviction request for this Pod.
  module _ (pod : Pod) (eviction : (request.sub_resource == lit "eviction") ≡ true)
      (reads : client.get_pod request.namespace request.name ≡ ok pod) where
    handle_best-Outcome :
        (m : Match) (o : Option WorkloadClass)
        → find_best_match_workload_class lib client (some pod) ≡ ok m
        → m.best ≡ o
        → Outcome (handle_best lib times time hash client now (some u) request pod o)
    unfolding handle_best
    handle_best-Outcome m none h b = inl (refl, refl)
    handle_best-Outcome m (some wc) h b =
        handle_class-Outcome pod wc
          record { eviction = eviction; reads = reads; found = m; resolves = h; best = b }

    handle_match-Outcome :
        (r : Result ResolveError Match)
        → find_best_match_workload_class lib client (some pod) ≡ r
        → Outcome (handle_match lib times time hash client now (some u) request pod r)
    unfolding handle_match
    handle_match-Outcome (err e) h = inl (refl, refl)
    handle_match-Outcome (ok m) h = handle_best-Outcome m m.best h refl

  handle_pod-Outcome :
      (r : Result GetError Pod)
      → (request.sub_resource == lit "eviction") ≡ true
      → client.get_pod request.namespace request.name ≡ r
      → Outcome (handle_pod lib times time hash client now (some u) request r)
  unfolding handle_pod
  handle_pod-Outcome (err e) h k = inl (refl, refl)
  handle_pod-Outcome (ok pod) h k =
      handle_match-Outcome pod h k (find_best_match_workload_class lib client (some pod)) refl

  handle-cases : Outcome (handle lib times time hash client now (some u) request)
  unfolding handle
  handle-cases =
      if-Outcome (not (request.sub_resource == lit "eviction")) _ _ (λ a. inl (refl, refl))
        (λ a.
          handle_pod-Outcome (client.get_pod request.namespace request.name) (ground arith) refl)

  requested-needed :
      (x : Option Tracker × Response) → Outcome x → is_lease_requested x.1 ≡ true → NeedsLease
  requested-needed x (inl h) r = absurd (ground (arith, h.1))
  requested-needed x (inr (pod, wc, pdb, s, ss, n, e)) r = (pod, wc, pdb, s, ss, n)

  -- For every request and lease tracker, the handler answers that a lease is requested exactly if: the
  -- request is the eviction of the Pod of its name, which a WorkloadClass governs that did not fail its
  -- validation and has no emergency override, the user is among its subjects, none of the subjects that
  -- the user is holds the lease of the Pod's managed budget, that budget may be leased, and it is not open
  -- for this instance of the Pod. In that case the request of that Pod, class and first such subject is
  -- enqueued, and in all others the lease tracker is left as it is.
  pub handle-Outcome :
      let h = handle lib times time hash client now (some u) request in
      ((is_lease_requested h.1 ≡ true) ↔ NeedsLease) × Outcome h
  handle-Outcome = (
    (
      requested-needed (handle lib times time hash client now (some u) request) handle-cases,
      λ (pod, wc, pdb, s, ss, n).
          ap (λ x. is_lease_requested x.1) (needed-requested pod wc pdb s ss n),
    ),
    handle-cases,
  )
