-- ===== src/Disruption/Identity.antt =====
-- internal/webhook/disruption_webhook.go: which subjects of a WorkloadClass a user is.
use workload_class.Prelude.{
  ◌≢◌, refl, str_beq, ◌≡◌, ◌↔◌, ◌⊎◌, arith, Bool, true, false, List, [], filter, contains, ◌==◌,
  ==_iff, str_eq, Str, lit, if◌then◌else◌, Result, ok, err,
}
use workload_class.Kube.Objects.{UserInfo}
use workload_class.Api.{Subject}
use workload_class.Pdb.{service_account}

pub data IdentityError : Type 0 where
  empty_name : IdentityError
  unexpected_namespace : Str → Str → IdentityError
  invalid_kind : Str → IdentityError

-- matchesUserKind
unfoldable pub matches_user_kind : UserInfo → Subject → Result IdentityError Bool
matches_user_kind user subject =
    if subject.namespace == []
    then ok (user.username == subject.name)
    else err (unexpected_namespace subject.kind subject.namespace)

-- matchesGroupKind
unfoldable pub matches_group_kind : UserInfo → Subject → Result IdentityError Bool
matches_group_kind user subject =
    if subject.namespace == []
    then ok (contains user.groups subject.name)
    else err (unexpected_namespace subject.kind subject.namespace)

-- matchesServiceAccountKind
unfoldable pub matches_service_account_kind : UserInfo → Subject → Result IdentityError Bool
matches_service_account_kind user subject =
    ok (user.username == service_account subject.namespace subject.name)

-- matchesIdentity
unfoldable pub matches_identity : UserInfo → Subject → Result IdentityError Bool
matches_identity user subject =
    if subject.name == []
    then err empty_name
    else if subject.kind == lit "User"
    then matches_user_kind user subject
    else if subject.kind == lit "Group"
    then matches_group_kind user subject
    else if subject.kind == lit "ServiceAccount"
    then matches_service_account_kind user subject
    else err (invalid_kind subject.kind)

-- An error is logged, and the subject is passed over.
abbrev pub is_allowed : Result IdentityError Bool → Bool
is_allowed (ok b) = b
is_allowed (err e) = false

-- The loop over AllowedDisruptionsOutsideOfWindow.
unfoldable pub matching_subjects : UserInfo → List Subject → List Subject
matching_subjects user subjects = filter (λ s. is_allowed (matches_identity user s)) subjects

-- The user is the subject: by name, by a group, or by the name that Kubernetes gives to service accounts.
abbrev pub IsSubject : UserInfo → Subject → Type 0
IsSubject user s =
    (s.name ≢ [])
    × (((s.kind ≡ lit "User") × (s.namespace ≡ []) × (user.username ≡ s.name))
        ⊎ (((s.kind ≡ lit "Group") × (s.namespace ≡ []) × (contains user.groups s.name ≡ true))
            ⊎ ((s.kind ≡ lit "ServiceAccount")
                × (user.username ≡ service_account s.namespace s.name))))

group-ne-user : (k : Str) → k ≡ lit "Group" → (k == lit "User") ≡ false
unfolding lit str_beq
group-ne-user k h = rw h refl

account-ne :
    (k : Str)
    → k ≡ lit "ServiceAccount"
    → ((k == lit "User") ≡ false) × ((k == lit "Group") ≡ false)
unfolding lit str_beq
account-ne k h = rw h (refl, refl)

-- matchesIdentity returns true without an error exactly if the subject has a name and is a User of
-- the user's name, a Group among the user's groups, both without a namespace, or the ServiceAccount
-- that the user's name stands for.
pub matches_identity_iff :
    (user : UserInfo) (s : Subject) → (matches_identity user s ≡ ok true) ↔ IsSubject user s
unfolding matches_identity matches_user_kind matches_group_kind matches_service_account_kind
matches_identity_iff user s = (
  ground (
    arith,
    ==_iff s.name [],
    ==_iff s.kind (lit "User"),
    ==_iff s.kind (lit "Group"),
    ==_iff s.kind (lit "ServiceAccount"),
    ==_iff s.namespace [],
    ==_iff user.username s.name,
    ==_iff user.username (service_account s.namespace s.name),
  ),
  ground (
    arith,
    ==_iff s.name [],
    ==_iff s.kind (lit "User"),
    ==_iff s.kind (lit "Group"),
    ==_iff s.kind (lit "ServiceAccount"),
    ==_iff s.namespace [],
    ==_iff user.username s.name,
    ==_iff user.username (service_account s.namespace s.name),
    group-ne-user s.kind,
    account-ne s.kind,
  ),
)
