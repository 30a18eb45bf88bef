-- ===== src/LeaseTracker/Drained.antt =====
-- What Drain returns: the requests of the WorkloadClass, each once, by Pod name in ascending order.
use mathlib.Core.List.Perm
use mathlib.Core.List.{Perm, Mem, mem-cons_self, mem-cons_of_mem}
use workload_class.LeaseTracker.Requests.{request_of}
use workload_class.Prelude.{
  subst, lookup, ◌==◌, str_eq, ◌≡◌, refl, inl, inr, arith, true, false, some, List, [], ◌∷◌, Str,
  Bool-cases, All,
}
use workload_class.Kube.Objects.{NamespacedName}
use workload_class.LeaseTracker.{
  PendingLease, Leases, Tracker, leases_of, values, str_lt, insert_sorted, sort_leases,
  drain_leases,
}

-- No later name is below an earlier one.
abbrev pub IsSorted : List PendingLease → Type 0
IsSorted [] = Unit
IsSorted (l ∷ ls) = All (λ m. str_lt m.pod_name l.pod_name ≡ false) ls × IsSorted ls

str_lt_trans : (a b c : Str) → str_lt b a ≡ false → str_lt c b ≡ false → str_lt c a ≡ false
unfolding str_lt
str_lt_trans [] [] c h k = k
str_lt_trans [] (y ∷ b) [] h k = cc
str_lt_trans [] (y ∷ b) (z ∷ c) h k = refl
str_lt_trans (x ∷ a) [] c h k = cc
str_lt_trans (x ∷ a) (y ∷ b) [] h k = cc
str_lt_trans (x ∷ a) (y ∷ b) (z ∷ c) h k = ground (arith, str_lt_trans a b c)

str_lt-asym : (a b : Str) → str_lt a b ≡ true → str_lt b a ≡ false
unfolding str_lt
str_lt-asym [] [] h = refl
str_lt-asym [] (y ∷ b) h = refl
str_lt-asym (x ∷ a) [] h = cc
str_lt-asym (x ∷ a) (y ∷ b) h = ground (arith, str_lt-asym a b)

abbrev Above : Str → List PendingLease → Type 0
Above name ls = All (λ m. str_lt m.pod_name name ≡ false) ls

Above-mono : (a b : Str) (ls : List PendingLease) → str_lt b a ≡ false → Above b ls → Above a ls
Above-mono a b [] h k = tt
Above-mono a b (m ∷ ms) h k = (str_lt_trans a b m.pod_name h k.0, Above-mono a b ms h k.1)

insert_sorted-Above :
    (name : Str) (l : PendingLease) (ls : List PendingLease)
    → str_lt l.pod_name name ≡ false
    → Above name ls
    → Above name (insert_sorted l ls)
unfolding insert_sorted
insert_sorted-Above name l [] h k = (h, tt)
insert_sorted-Above name l (m ∷ ms) h k = elim (Bool-cases (str_lt m.pod_name l.pod_name)) [
  | inl e ↦ rw e (k.0, insert_sorted-Above name l ms h k.1)
  | inr n ↦ rw n (h, k)
]

insert_sorted-IsSorted :
    (l : PendingLease) (ls : List PendingLease) → IsSorted ls → IsSorted (insert_sorted l ls)
unfolding insert_sorted
insert_sorted-IsSorted l [] h = (tt, tt)
insert_sorted-IsSorted l (m ∷ ms) h = elim (Bool-cases (str_lt m.pod_name l.pod_name)) [
  | inl e ↦ rw e (
    insert_sorted-Above m.pod_name l ms (str_lt-asym m.pod_name l.pod_name e) h.0,
    insert_sorted-IsSorted l ms h.1,
  )
  | inr n ↦ rw n ((n, Above-mono l.pod_name m.pod_name ms n h.0), h)
]

sort_leases-IsSorted : (ls : List PendingLease) → IsSorted (sort_leases ls)
unfolding sort_leases
sort_leases-IsSorted [] = tt
sort_leases-IsSorted (l ∷ ls) = insert_sorted-IsSorted l (sort_leases ls) (sort_leases-IsSorted ls)

insert_sorted-perm :
    (l : PendingLease) (ls : List PendingLease) → Perm (insert_sorted l ls) (l ∷ ls)
unfolding insert_sorted
insert_sorted-perm l [] = Perm.refl (l ∷ [])
insert_sorted-perm l (m ∷ ms) = elim (Bool-cases (str_lt m.pod_name l.pod_name)) [
  | inl e ↦ rw e (Perm.trans (Perm.cons m (insert_sorted-perm l ms)) (Perm.swap l m ms))
  | inr n ↦ rw n (Perm.refl (l ∷ m ∷ ms))
]

sort_leases-perm : (ls : List PendingLease) → Perm (sort_leases ls) ls
unfolding sort_leases
sort_leases-perm [] = Perm.refl []
sort_leases-perm (l ∷ ls) =
    Perm.trans (insert_sorted-perm l (sort_leases ls)) (Perm.cons l (sort_leases-perm ls))

-- Drain returns exactly the leases pending for the WorkloadClass, as often as they are pending, with
-- their Pod names in ascending byte order.
pub drain-IsSorted_perm :
    (t : Tracker) (key : NamespacedName)
    → IsSorted (drain_leases t key).1 × Perm (drain_leases t key).1 (values (leases_of t key))
unfolding drain_leases
drain-IsSorted_perm t key =
    (sort_leases-IsSorted (values (leases_of t key)), sort_leases-perm (values (leases_of t key)))

mem-values :
    (m : Leases) (name : Str) (l : PendingLease) → lookup name m ≡ some l → Mem l (values m)
unfolding lookup
mem-values [] name l h = cc
mem-values ((k, v) ∷ m) name l h = elim (Bool-cases (k == name)) [
  | inl e ↦ subst (λ x. Mem x (v ∷ values m)) (ground (arith, e)) mem-cons_self
  | inr n ↦ mem-cons_of_mem v (mem-values m name l (ground arith))
]

-- A pending request is among the leases that Drain returns.
pub drain-mem :
    (t : Tracker) (key : NamespacedName) (name : Str) (l : PendingLease)
    → request_of t key name ≡ some l
    → Mem l (drain_leases t key).1
unfolding request_of
drain-mem t key name l h =
    (Perm.mem_iff (drain-IsSorted_perm t key).1).1 (mem-values (leases_of t key) name l h)
