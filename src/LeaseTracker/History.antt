-- ===== src/LeaseTracker/History.antt =====
-- The tracker over any history of calls.
use mathlib.Core.List.{Mem}
use workload_class.Prelude.{
  ◌≡◌, ◌⊎◌, arith, false, ◌&&◌, none, some, List, [], ◌∷◌, ◌==◌, ==_iff, ==_refl, str_eq, Str, All,
}
use workload_class.Kube.Objects.{Pod, NamespacedName, key_eq}
use workload_class.Api.{WorkloadClass, Subject}
use workload_class.LeaseTracker.{
  PendingLease, Tracker, key_of, enqueue_lease, drain_leases, receive,
}
use workload_class.LeaseTracker.Drained.{drain-mem}
use workload_class.LeaseTracker.Requests.{
  request_of, lease_for, request_of-enqueue, request_of-drain, request_of-receive,
}

pub data Call : Type 0 where
  enqueues : WorkloadClass → Pod → Subject → Call
  drains : NamespacedName → Call
  receives : Call

pub step : Tracker → Call → Tracker
step t (enqueues wc pod subject) = (enqueue_lease t wc pod subject).0
step t (drains key) = (drain_leases t key).0
step t receives = (receive t).0

pub run : Tracker → List Call → Tracker
run t [] = t
run t (c ∷ cs) = run (step t c) cs

-- The call neither drains the WorkloadClass nor asks for another instance of the Pod.
abbrev pub Leaves : NamespacedName → Str → Str → Call → Type 0
Leaves key name uid (enqueues wc pod subject) =
    ((key_of wc == key) && (pod.name == name) ≡ false) ⊎ (pod.uid ≡ uid)
Leaves key name uid (drains k) = (k == key) ≡ false
Leaves key name uid receives = Unit

step-kept :
    (t : Tracker) (c : Call) (key : NamespacedName) (name : Str) (l : PendingLease)
    → Leaves key name l.pod_uid c
    → request_of t key name ≡ some l
    → request_of (step t c) key name ≡ some l
unfolding step
step-kept t (enqueues wc pod subject) key name l h e =
    ground (arith, request_of-enqueue t wc pod subject key name, ==_iff l.pod_uid pod.uid)
step-kept t (drains k) key name l h e = ground (arith, request_of-drain t k key name)
step-kept t receives key name l h e = ground (arith, request_of-receive t key name)

run-kept :
    (t : Tracker) (cs : List Call) (key : NamespacedName) (name : Str) (l : PendingLease)
    → All (Leaves key name l.pod_uid) cs
    → request_of t key name ≡ some l
    → request_of (run t cs) key name ≡ some l
unfolding run
run-kept t [] key name l h e = e
run-kept t (c ∷ cs) key name l h e =
    run-kept (step t c) cs key name l h.1 (step-kept t c key name l h.0 e)

-- The first subject wins: if no lease is pending for the Pod when it is enqueued, then after any calls
-- that neither drain its WorkloadClass nor ask for another instance of the Pod, Drain returns the
-- lease for this subject.
pub run-first_wins :
    (t : Tracker) (wc : WorkloadClass) (pod : Pod) (subject : Subject) (cs : List Call)
    → request_of t (key_of wc) pod.name ≡ none
    → All (Leaves (key_of wc) pod.name pod.uid) cs
    → Mem
        (lease_for pod subject)
        (drain_leases (run (enqueue_lease t wc pod subject).0 cs) (key_of wc)).1
run-first_wins t wc pod subject cs absent h =
    drain-mem (run (enqueue_lease t wc pod subject).0 cs) (key_of wc) pod.name
      (lease_for pod subject)
      (run-kept (enqueue_lease t wc pod subject).0 cs (key_of wc) pod.name (lease_for pod subject) h
        (ground (
          arith,
          request_of-enqueue t wc pod subject (key_of wc) pod.name,
          absent,
          ==_refl (key_of wc),
          ==_refl pod.name,
        )))
