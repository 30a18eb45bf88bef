-- ===== src/LeaseTracker/Requests.antt =====
-- Which request the tracker holds for a Pod of a WorkloadClass, and how Enqueue changes it.
use workload_class.Prelude.{
  ◌≤◌, ◌<◌, ◌≡◌, refl, ◌↔◌, inl, inr, arith, true, ◌&&◌, Option, none, some, [], ◌∷◌, ◌++◌, length,
  length-append, ◌==◌, ==_iff, ==_refl, str_eq, Str, lookup, insert, lookup-insert, lookup-delete,
  if◌then◌else◌, Bool-cases, subst, ◌∙◌,
}
use workload_class.Kube.Objects.{Pod, NamespacedName, key_eq}
use workload_class.Api.{WorkloadClass, Subject}
use workload_class.LeaseTracker.{
  PendingLease, Leases, Tracker, leases_of, request, signal, key_of, enqueue_lease, drain_leases,
  receive,
}

-- The abstract view: the request for a Pod name under a WorkloadClass.
unfoldable pub request_of : Tracker → NamespacedName → Str → Option PendingLease
request_of t key name = lookup name (leases_of t key)

abbrev pub lease_for : Pod → Subject → PendingLease
lease_for pod subject = record { pod_name = pod.name; pod_uid = pod.uid; subject = subject }

-- The earlier request for the same Pod instance, or else the new one.
abbrev pub kept_or_new : Option PendingLease → Pod → Subject → PendingLease
kept_or_new none pod subject = lease_for pod subject
kept_or_new (some old) pod subject = if old.pod_uid == pod.uid then old else lease_for pod subject

lookup-request :
    (leases : Leases) (pod : Pod) (subject : Subject) (name : Str)
    → lookup name (request leases pod subject) ≡ (
        if pod.name == name
        then some (kept_or_new (lookup name leases) pod subject)
        else lookup name leases)
unfolding request
lookup-request leases pod subject name = elim (Bool-cases (pod.name == name)) [
  | inl e ↦
      subst
        (λ n. lookup n (request leases pod subject) ≡ (
          if pod.name == n
          then some (kept_or_new (lookup n leases) pod subject)
          else lookup n leases))
        ((==_iff pod.name name).0 e)
        (ground
          (arith, ==_refl pod.name, lookup-insert pod.name pod.name (lease_for pod subject) leases))
  | inr n ↦ ground (arith, lookup-insert name pod.name (lease_for pod subject) leases)
]

leases_of-signal : (t : Tracker) (k j : NamespacedName) → leases_of (signal t k).0 j ≡ leases_of t j
unfolding leases_of signal
leases_of-signal t k j = ground arith

leases_of-insert :
    (t : Tracker) (k j : NamespacedName) (leases : Leases)
    → leases_of (record t { pending = insert k leases t.pending }) j
      ≡ (if k == j then leases else leases_of t j)
unfolding leases_of
leases_of-insert t k j leases = ground (arith, lookup-insert j k leases t.pending)

leases_of-enqueue :
    (t : Tracker) (wc : WorkloadClass) (pod : Pod) (subject : Subject) (key : NamespacedName)
    → leases_of (enqueue_lease t wc pod subject).0 key
      ≡ (if key_of wc == key then request (leases_of t key) pod subject else leases_of t key)
unfolding enqueue_lease
leases_of-enqueue t wc pod subject key = elim (Bool-cases (key_of wc == key)) [
  | inl e ↦
      subst
        (λ k.
          leases_of (enqueue_lease t wc pod subject).0 k
          ≡ (if key_of wc == k then request (leases_of t k) pod subject else leases_of t k))
        ((==_iff (key_of wc) key).0 e)
        (leases_of-signal _ (key_of wc) (key_of wc)
          ∙ ground (
            arith,
            ==_refl (key_of wc),
            leases_of-insert t (key_of wc) (key_of wc)
                (request (leases_of t (key_of wc)) pod subject),
          ))
  | inr n ↦
      leases_of-signal _ (key_of wc) key
      ∙ ground (
        arith,
        leases_of-insert t (key_of wc) key (request (leases_of t (key_of wc)) pod subject),
      )
]

-- Enqueue changes the request of no other Pod name and no other WorkloadClass; for its own Pod the
-- earlier request stays if it is for the same Pod instance, and else the new one takes its place.
pub request_of-enqueue :
    (t : Tracker) (wc : WorkloadClass) (pod : Pod) (subject : Subject) (key : NamespacedName)
    (name : Str)
    → request_of (enqueue_lease t wc pod subject).0 key name ≡ (
        if (key_of wc == key) && (pod.name == name)
        then some (kept_or_new (request_of t key name) pod subject)
        else request_of t key name)
unfolding request_of
request_of-enqueue t wc pod subject key name =
    rw (leases_of-enqueue t wc pod subject key)
      (ground (arith, lookup-request (leases_of t key) pod subject name))

-- Drain forgets the requests of its WorkloadClass and keeps all others, and leaves the channel alone.
pub request_of-drain :
    (t : Tracker) (k key : NamespacedName) (name : Str)
    → (request_of (drain_leases t k).0 key name
        ≡ (if k == key then none else request_of t key name))
      × ((drain_leases t k).0.events ≡ t.events)
unfolding request_of drain_leases leases_of lookup
request_of-drain t k key name = (ground (arith, lookup-delete key k t.pending), refl)

enqueue-recorded :
    (t : Tracker) (wc : WorkloadClass) (pod : Pod) (subject : Subject)
    → request_of (enqueue_lease t wc pod subject).0 (key_of wc) pod.name
      ≡ some (kept_or_new (request_of t (key_of wc) pod.name) pod subject)
enqueue-recorded t wc pod subject = ground (
  arith,
  request_of-enqueue t wc pod subject (key_of wc) pod.name,
  ==_refl (key_of wc),
  ==_refl pod.name,
)

pub request_of-receive :
    (t : Tracker) (key : NamespacedName) (name : Str)
    → request_of (receive t).0 key name ≡ request_of t key name
unfolding request_of leases_of receive
request_of-receive t key name = ground arith

-- If the channel holds no more than its capacity, Enqueue reports that the key went into it exactly
-- if there is room, and else leaves it as it is; the channel still holds no more than its capacity,
-- and the request is recorded in both cases, unless there is one for the same Pod instance.
pub enqueue_signals :
    (t : Tracker) (wc : WorkloadClass) (pod : Pod) (subject : Subject)
    → length t.events ≤ t.capacity
    → let (u, sent) = enqueue_lease t wc pod subject in
      ((sent ≡ true) ↔ (length t.events < t.capacity))
      × (u.events ≡ (if sent then t.events ++ key_of wc ∷ [] else t.events))
      × (length u.events ≤ u.capacity)
      × (request_of u (key_of wc) pod.name
          ≡ some (kept_or_new (request_of t (key_of wc) pod.name) pod subject))
unfolding enqueue_lease signal
enqueue_signals t wc pod subject h = (
  ground arith,
  ground arith,
  ground (arith, length-append t.events (key_of wc ∷ [])),
  enqueue-recorded t wc pod subject,
)
