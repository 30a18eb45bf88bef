-- ===== src/Selector/Constraint.antt =====
-- One key of SelectorsOverlap: a constraint stands for the values that the label may take.
use workload_class.Prelude.{
  ℕ, zero, suc, ◌+◌, ◌≤◌, ◌≡◌, refl, ◌⊎◌, inl, inr, arith, Bool, true, false, not, ◌&&◌, Option,
  none, some, List, [], ◌∷◌, filter, contains, Str, str_eq, str_beq, contains-append,
  contains-filter, length, if◌then◌else◌, Bool-cases, ==_iff,
}
use workload_class.Kube.Labels.{
  Operator, op_in, op_not_in, op_exists, op_does_not_exist, op_other, requirement_holds, is_known,
}
use workload_class.Selector.{KeyConstraint, intersect, add, non_empty, in_allows, satisfiable}

abbrev pub in_holds : Option (List Str) → Str → Bool
in_holds none v = true
in_holds (some xs) v = contains xs v

-- The label may be absent, or may have the value.
abbrev pub admits : KeyConstraint → Option Str → Bool
admits c none = not c.exists
admits c (some v) = not c.not_exists && in_holds c.in_set v && not (contains c.not_in v)

-- A key with an In requirement must be present.
abbrev pub IsCoherent : KeyConstraint → Type 0
IsCoherent c = (c.in_set ≡ none) ⊎ (c.exists ≡ true)

pub add-IsCoherent :
    (c : KeyConstraint) (op : Operator) (vs : List Str) → IsCoherent c → IsCoherent (add c op vs)
unfolding add
add-IsCoherent c op_in vs h = inr refl
add-IsCoherent c op_not_in vs h = h
add-IsCoherent c op_exists vs h = inr refl
add-IsCoherent c op_does_not_exist vs h = h
add-IsCoherent c (op_other o) vs h = h

in_holds-intersect :
    (o : Option (List Str)) (vs : List Str) (v : Str)
    → contains (intersect o vs) v ≡ (in_holds o v && contains vs v)
in_holds-intersect none vs v = refl
in_holds-intersect (some xs) vs v = contains-filter (contains vs) xs v

pub admits-add :
    (c : KeyConstraint) (op : Operator) (vs : List Str) (o : Option Str)
    → is_known op ≡ true
    → admits (add c op vs) o ≡ (admits c o && requirement_holds op vs o)
unfolding add requirement_holds
admits-add c op_in vs none k = ground arith
admits-add c op_in vs (some v) k = ground (arith, in_holds-intersect c.in_set vs v)
admits-add c op_not_in vs none k = ground arith
admits-add c op_not_in vs (some v) k = ground (arith, contains-append vs c.not_in v)
admits-add c op_exists vs none k = ground arith
admits-add c op_exists vs (some v) k = ground arith
admits-add c op_does_not_exist vs none k = ground arith
admits-add c op_does_not_exist vs (some v) k = ground arith
admits-add c (op_other o) vs v k = ground arith

-- A text that is longer than every text of the list.
total : List Str → ℕ
total [] = 0
total (x ∷ xs) = length x + total xs

repeat : ℕ → Str
repeat zero = []
repeat (suc n) = b'a' ∷ repeat n

repeat-longer : (x : Str) (n : ℕ) → length x ≤ n → str_beq (repeat (suc n)) x ≡ false
unfolding repeat str_beq
repeat-longer [] n h = refl
repeat-longer (c ∷ []) zero h = ground arith
repeat-longer (c ∷ d ∷ x) zero h = absurd (omega arith)
repeat-longer (c ∷ x) (suc n) h = ground (arith, repeat-longer x n)

fresh : List Str → Str
fresh xs = repeat (suc (total xs))

contains-repeat : (xs : List Str) (n : ℕ) → total xs ≤ n → contains xs (repeat (suc n)) ≡ false
unfolding contains total
contains-repeat [] n h = refl
contains-repeat (x ∷ xs) n h = ground (arith, repeat-longer x n, contains-repeat xs n)

contains-fresh : (xs : List Str) → contains xs (fresh xs) ≡ false
unfolding fresh
contains-fresh xs = contains-repeat xs (total xs) (omega arith)

abbrev first : List Str → Option Str
first [] = none
first (x ∷ xs) = some x

abbrev pick_in : Option (List Str) → List Str → Option Str
pick_in none not_in = some (fresh not_in)
pick_in (some xs) not_in = first (filter (λ x. not (contains not_in x)) xs)

-- A value of the label that meets the constraint, or its absence.
pub pick : KeyConstraint → Option Str
pick c = if c.not_exists then none else pick_in c.in_set c.not_in

-- The first element that passes a filter is in the list and passes the test.
first-filter :
    (f : Str → Bool) (xs : List Str)
    → non_empty (filter f xs) ≡ true
    → (v : Str) × (first (filter f xs) ≡ some v) × (contains xs v ≡ true) × (f v ≡ true)
unfolding contains
first-filter f [] h = cc
first-filter f (x ∷ xs) h = elim (Bool-cases (f x)) [
  | inl e ↦ (x, rw e, ground (arith, ==_iff x x), e)
  | inr n ↦ let (v, p, q, r) = first-filter f xs (rw n at h) in (v, rw n p, ground (arith, q), r)
]

admits-pick_in :
    (c : KeyConstraint) (o : Option (List Str))
    → c.in_set ≡ o
    → c.not_exists ≡ false
    → in_allows o c.not_in ≡ true
    → admits c (pick_in o c.not_in) ≡ true
admits-pick_in c none e n h = ground (arith, contains-fresh c.not_in)
admits-pick_in c (some xs) e n h =
    let (v, p, q, r) = first-filter (λ x. not (contains c.not_in x)) xs h in
    rw p (ground (arith, e, n, q, r))

pub admits-pick : (c : KeyConstraint) → satisfiable c ≡ true → admits c (pick c) ≡ true
unfolding satisfiable pick
admits-pick c h = elim (Bool-cases c.not_exists) [
  | inl e ↦ ground arith
  | inr n ↦ ground (arith, admits-pick_in c c.in_set refl n)
]

non_empty-filter :
    (f : Str → Bool) (xs : List Str) (v : Str)
    → contains xs v ≡ true
    → f v ≡ true
    → non_empty (filter f xs) ≡ true
unfolding contains
non_empty-filter f [] v h k = cc
non_empty-filter f (x ∷ xs) v h k = ground (arith, ==_iff v x, non_empty-filter f xs v)

in_allows-holds :
    (o : Option (List Str)) (not_in : List Str) (v : Str)
    → in_holds o v ≡ true
    → contains not_in v ≡ false
    → in_allows o not_in ≡ true
in_allows-holds none not_in v h k = refl
in_allows-holds (some xs) not_in v h k =
    non_empty-filter (λ x. not (contains not_in x)) xs v h (ground (arith, k))

in_allows-none : (o : Option (List Str)) (xs : List Str) → o ≡ none → in_allows o xs ≡ true
in_allows-none none xs e = refl
in_allows-none (some x) xs e = cc

pub satisfiable-admits :
    (c : KeyConstraint) (o : Option Str) → IsCoherent c → admits c o ≡ true → satisfiable c ≡ true
unfolding satisfiable
satisfiable-admits c none k h = ground (arith, in_allows-none c.in_set c.not_in)
satisfiable-admits c (some v) k h = ground (arith, in_allows-holds c.in_set c.not_in v)
