-- ===== src/LeaseTracker.antt =====
-- internal/utils/lease_tracker.go: the requests that the disruption webhook hands to the controller.
-- The mutex makes each method one step on the tracker; a method on a nil tracker does nothing.
pub mod Requests
pub mod Drained
pub mod History
use workload_class.Prelude.{
  ℕ, zero, suc, ◌+◌, Bool, true, false, not, ◌&&◌, ◌||◌, Option, none, some, List, [], ◌∷◌, ◌++◌,
  length, ltb, ◌==◌, str_eq, Str, lit, lookup, insert, delete, if◌then◌else◌, map, nat_beq,
}
use workload_class.Prelude.Int.{ℤ, pos, negsuc}
use workload_class.Kube.Objects.{Pod, NamespacedName, key_eq}
use workload_class.Api.{WorkloadClass, Subject}

pub record PendingLease : Type 0 where
  pub pod_name : Str
  pub pod_uid : Str
  pub subject : Subject

abbrev pub Leases : Type 0
Leases = List (Str × PendingLease)

-- `events` are the keys waiting in the channel, of which `capacity` fit in.
pub record Tracker : Type 0 where
  pub pending : List (NamespacedName × Leases)
  pub events : List NamespacedName
  pub capacity : ℕ

abbrev pub default_buffer_size : ℕ
default_buffer_size = 1024

abbrev pub buffer_size : ℤ → ℕ
buffer_size (pos (suc n)) = suc n
buffer_size (pos zero) = default_buffer_size
buffer_size (negsuc n) = default_buffer_size

unfoldable pub new_pending_lease_tracker : ℤ → Tracker
new_pending_lease_tracker size = record { pending = []; events = []; capacity = buffer_size size }

abbrev pub or_empty : Option Leases → Leases
or_empty none = []
or_empty (some leases) = leases

-- t.pending[wcKey]
unfoldable pub leases_of : Tracker → NamespacedName → Leases
leases_of t key = or_empty (lookup key t.pending)

abbrev pub keeps : Option PendingLease → Str → Bool
keeps none uid = false
keeps (some lease) uid = lease.pod_uid == uid

-- The request that is kept for the Pod: an earlier one for the same Pod instance, or the new one.
unfoldable pub request : Leases → Pod → Subject → Leases
request leases pod subject =
    if keeps (lookup pod.name leases) pod.uid
    then leases
    else insert pod.name (record { pod_name = pod.name; pod_uid = pod.uid; subject = subject })
        leases

-- The non-blocking send.
unfoldable pub signal : Tracker → NamespacedName → Tracker × Bool
signal t key =
    if ltb (length t.events) t.capacity
    then (record t { events = t.events ++ key ∷ [] }, true)
    else (t, false)

abbrev pub key_of : WorkloadClass → NamespacedName
key_of wc = record { namespace = wc.namespace; name = wc.name }

-- Enqueue behind its nil checks.
unfoldable pub enqueue_lease : Tracker → WorkloadClass → Pod → Subject → Tracker × Bool
enqueue_lease t wc pod subject =
    signal
      (record t {
        pending = insert (key_of wc) (request (leases_of t (key_of wc)) pod subject) t.pending;
      })
      (key_of wc)

abbrev pub held {ℓ} : {A : Type ℓ} → Tracker × A → Option Tracker × A
held (t, a) = (some t, a)

unfoldable pub enqueue :
    Option Tracker → Option WorkloadClass → Option Pod → Subject → Option Tracker × Bool
enqueue none wc pod subject = (none, false)
enqueue (some t) none pod subject = (some t, false)
enqueue (some t) (some wc) none subject = (some t, false)
enqueue (some t) (some wc) (some pod) subject = held (enqueue_lease t wc pod subject)

-- `<` on Go strings, byte by byte.
unfoldable pub str_lt : Str → Str → Bool
str_lt s [] = false
str_lt [] (y ∷ ys) = true
str_lt (x ∷ xs) (y ∷ ys) = ltb x y || (nat_beq x y && str_lt xs ys)

-- sort.Slice by Pod name: the names are different, so any correct sort returns this list.
unfoldable pub insert_sorted : PendingLease → List PendingLease → List PendingLease
insert_sorted l [] = l ∷ []
insert_sorted l (m ∷ ms) =
    if str_lt m.pod_name l.pod_name then m ∷ insert_sorted l ms else l ∷ m ∷ ms

unfoldable pub sort_leases : List PendingLease → List PendingLease
sort_leases [] = []
sort_leases (l ∷ ls) = insert_sorted l (sort_leases ls)

abbrev pub values : Leases → List PendingLease
values m = map (λ p. p.1) m

-- Drain on a tracker that is not nil.
unfoldable pub drain_leases : Tracker → NamespacedName → Tracker × List PendingLease
drain_leases t key =
    (record t { pending = delete key t.pending }, sort_leases (values (leases_of t key)))

unfoldable pub drain : Option Tracker → NamespacedName → Option Tracker × List PendingLease
drain none key = (none, [])
drain (some t) key = held (drain_leases t key)

-- The controller receives from Events().
unfoldable pub receive : Tracker → Tracker × Option NamespacedName
receive t = elim t.events [ [] ↦ (t, none) | key ∷ rest ↦ (record t { events = rest }, some key) ]
