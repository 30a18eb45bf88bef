-- ===== src/Pdb/Owner.antt =====
-- The owner value of a lease identifies its subject, and how long a lease lasts.
use workload_class.Prelude.{
  if◌then◌else◌, nat_beq, ℕ, zero, suc, ◌-◌, ◌*◌, ◌%◌, ◌^◌, ◌≤◌, ◌≡◌, ◌≢◌, refl, sym, ◌∙◌, arith,
  false, none, some, [], ◌∷◌, ◌++◌, Str, str_eq, str_beq, lit, inl, inr, ◌⊎◌, ==_iff, ◌==◌, nat_eq,
}
use workload_class.Prelude.Int.{pos, negsuc}
use workload_class.Kube.Objects.{Pod}
use workload_class.Api.{Subject}
use workload_class.Pdb.{bypass_owner_value, service_account, seconds, lease_duration_for_pod}

-- The kinds that the API allows.
pub data IsKind : Str → Type 0 where
  user : {k : Str} → k ≡ lit "User" → IsKind k
  group : {k : Str} → k ≡ lit "Group" → IsKind k
  account : {k : Str} → k ≡ lit "ServiceAccount" → IsKind k

user-ne-group : (lit "User" == lit "Group") ≡ false
unfolding lit str_beq
user-ne-group = refl

group-ne-user : (lit "Group" == lit "User") ≡ false
unfolding lit str_beq
group-ne-user = refl

account-ne :
    ((lit "ServiceAccount" == lit "User") ≡ false) × ((lit "ServiceAccount" == lit "Group") ≡ false)
unfolding lit str_beq
account-ne = (refl, refl)

-- A namespace has no colon.
abbrev pub NoColon : Str → Type 0
NoColon [] = Unit
NoColon (c ∷ s) = (c ≢ b':') × NoColon s

split_colon :
    (a b x y : Str) → NoColon a → NoColon b → (a ++ b':' ∷ x) ≡ (b ++ b':' ∷ y) → (a ≡ b) × (x ≡ y)
split_colon [] [] x y h k e = ground arith
split_colon [] (d ∷ b) x y h k e = ground (arith, k.0)
split_colon (c ∷ a) [] x y h k e = ground (arith, h.0)
split_colon (c ∷ a) (d ∷ b) x y h k e = ground (arith, split_colon a b x y h.1 k.1)

-- What the owner value is for each kind, as bytes.
bypass_owner_value-user :
    (s : Subject) → s.kind ≡ lit "User" → bypass_owner_value s ≡ lit "user:" ++ s.name
unfolding bypass_owner_value
bypass_owner_value-user s h = ground (arith, ==_iff s.kind (lit "User"))

bypass_owner_value-group :
    (s : Subject) → s.kind ≡ lit "Group" → bypass_owner_value s ≡ lit "group:" ++ s.name
unfolding bypass_owner_value
bypass_owner_value-group s h = ground (
  arith,
  ==_iff s.kind (lit "Group"),
  group-ne-user,
  ==_iff s.kind (lit "User"),
  ==_iff (lit "Group") (lit "User"),
)

bypass_owner_value-account :
    (s : Subject)
    → s.kind ≡ lit "ServiceAccount"
    → bypass_owner_value s ≡ service_account s.namespace s.name
unfolding bypass_owner_value
bypass_owner_value-account s h = rw (h, account-ne.0, account-ne.1) refl

append-cancel : (p a b : Str) → (p ++ a) ≡ (p ++ b) → a ≡ b
append-cancel [] a b e = e
append-cancel (c ∷ p) a b e = append-cancel p a b (ground arith)

user_ne_group : (a b : Str) → (lit "user:" ++ a) ≢ (lit "group:" ++ b)
unfolding lit
user_ne_group a b e = ground arith

user_ne_account : (a n b : Str) → (lit "user:" ++ a) ≢ service_account n b
unfolding lit
user_ne_account a n b e = ground arith

group_ne_account : (a n b : Str) → (lit "group:" ++ a) ≢ service_account n b
unfolding lit
group_ne_account a n b e = ground arith

service_account-injective :
    (n a m b : Str)
    → NoColon n
    → NoColon m
    → service_account n a ≡ service_account m b
    → (n ≡ m) × (a ≡ b)
service_account-injective n a m b h k e =
    split_colon n m a b h k (unfold lit in append-cancel (lit "system:serviceaccount:") _ _ e)

not_account : {k : Str} → (k ≡ lit "User") ⊎ (k ≡ lit "Group") → k ≢ lit "ServiceAccount"
not_account (inl h) e = ground (arith, account-ne, ==_iff (lit "ServiceAccount") (lit "User"))
not_account (inr h) e = ground (arith, account-ne, ==_iff (lit "ServiceAccount") (lit "Group"))

abbrev pub Same : Subject → Subject → Type 0
Same s r =
    (s.kind ≡ r.kind)
    × (s.name ≡ r.name)
    × (s.kind ≡ lit "ServiceAccount" → s.namespace ≡ r.namespace)

-- Two subjects of allowed kinds whose namespaces have no colon have the same owner value only if they
-- have the same kind and name and, as service accounts, the same namespace.
pub bypass_owner_value_injective :
    (s r : Subject)
    → IsKind s.kind
    → IsKind r.kind
    → NoColon s.namespace
    → NoColon r.namespace
    → bypass_owner_value s ≡ bypass_owner_value r
    → Same s r
bypass_owner_value_injective s r (user h) (user k) ns nr e = (
  h ∙ sym k,
  append-cancel (lit "user:") s.name r.name
      (cc (bypass_owner_value-user s h, bypass_owner_value-user r k)),
  λ a. absurd (not_account (inl h) a),
)
bypass_owner_value_injective s r (user h) (group k) ns nr e =
    absurd
      (user_ne_group s.name r.name (cc (bypass_owner_value-user s h, bypass_owner_value-group r k)))
bypass_owner_value_injective s r (user h) (account k) ns nr e = absurd (
    user_ne_account s.name r.namespace r.name
      (cc (bypass_owner_value-user s h, bypass_owner_value-account r k)))
bypass_owner_value_injective s r (group h) (user k) ns nr e =
    absurd
      (user_ne_group r.name s.name (cc (bypass_owner_value-group s h, bypass_owner_value-user r k)))
bypass_owner_value_injective s r (group h) (group k) ns nr e = (
  h ∙ sym k,
  append-cancel (lit "group:") s.name r.name
      (cc (bypass_owner_value-group s h, bypass_owner_value-group r k)),
  λ a. absurd (not_account (inr h) a),
)
bypass_owner_value_injective s r (group h) (account k) ns nr e = absurd (
    group_ne_account s.name r.namespace r.name
      (cc (bypass_owner_value-group s h, bypass_owner_value-account r k)))
bypass_owner_value_injective s r (account h) (user k) ns nr e = absurd (
    user_ne_account r.name s.namespace s.name
      (cc (bypass_owner_value-account s h, bypass_owner_value-user r k)))
bypass_owner_value_injective s r (account h) (group k) ns nr e = absurd (
    group_ne_account r.name s.namespace s.name
      (cc (bypass_owner_value-account s h, bypass_owner_value-group r k)))
bypass_owner_value_injective s r (account h) (account k) ns nr e =
    let (same_namespace, same_name) =
      service_account-injective s.namespace s.name r.namespace r.name ns nr
        (sym (bypass_owner_value-account s h) ∙ e ∙ bypass_owner_value-account r k) in
    (h ∙ sym k, same_name, λ _. same_namespace)

seconds-exact : (n : ℕ) → n ≤ 9223372036 → seconds n ≡ pos (n * 10 ^ 9)
unfolding seconds
seconds-exact n h = ground arith

seconds-negative : (n : ℕ) → 9223372037 ≤ n → n ≤ 18446744073 → (m : ℕ) × (seconds n ≡ negsuc m)
unfolding seconds
seconds-negative n h k = (2 ^ 64 - (n * 10 ^ 9) % 2 ^ 64 - 1, ground arith)

-- The lease of a Pod without a deletion grace period that has n seconds of termination grace, at
-- most 9223372036, lasts n seconds, or 30 if n is 0.
pub lease_duration-seconds :
    (pod : Pod) (n : ℕ)
    → pod.deletion_grace_period_seconds ≡ none
    → pod.termination_grace_period_seconds ≡ some (pos n)
    → n ≤ 9223372036
    → lease_duration_for_pod (some pod) ≡ pos ((if nat_beq n 0 then 30 else n) * 10 ^ 9)
unfolding lease_duration_for_pod
lease_duration-seconds pod zero d t h = ground arith
lease_duration-seconds pod (suc n) d t h = ground (arith, seconds-exact (suc n) h)

-- If a Pod has no deletion grace period and from 9223372037 to 18446744073 seconds of termination
-- grace, the duration of its lease is negative: the number of nanoseconds wraps in int64.
pub lease_duration_wraps :
    (pod : Pod) (n : ℕ)
    → pod.deletion_grace_period_seconds ≡ none
    → pod.termination_grace_period_seconds ≡ some (pos n)
    → 9223372037 ≤ n
    → n ≤ 18446744073
    → (m : ℕ) × (lease_duration_for_pod (some pod) ≡ negsuc m)
unfolding lease_duration_for_pod
lease_duration_wraps pod zero d t h k = absurd (omega arith)
lease_duration_wraps pod (suc n) d t h k =
    let (m, e) = seconds-negative (suc n) h k in (m, ground (arith, e))
