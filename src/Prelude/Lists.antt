-- ===== src/Prelude/Lists.antt =====
-- Lists measured by native numbers, and Boolean searches through them.
use Prim.Native.Nat.{ℕ, zero, suc, ◌+◌, ◌≤◌}
use mathlib.Core.Path.{◌≡◌, refl, sym, subst}
use mathlib.Core.Logic.{◌↔◌, inl, inr}
use mathlib.Core.Bool.{Bool, true, false, ◌&&◌, ◌||◌}
use mathlib.Core.List.{List, [], ◌∷◌, ◌++◌, Memᴰ}
use native.Mathlib.Omega.{arith}
use workload_class.Prelude.Tests.{if◌then◌else◌, Comparable, ◌==◌, ==_iff, Bool-cases}

module _ {ℓ} {A : Type ℓ} where
  abbrev pub length : List A → ℕ
  length [] = 0
  length (x ∷ xs) = suc (length xs)

  abbrev pub take : ℕ → List A → List A
  take zero xs = []
  take (suc n) [] = []
  take (suc n) (x ∷ xs) = x ∷ take n xs

  -- `for _, x := range xs { if keep(x) { out = append(out, x) } }`.
  abbrev pub filter : (A → Bool) → List A → List A
  filter keep [] = []
  filter keep (x ∷ xs) = if keep x then x ∷ filter keep xs else filter keep xs

  -- slices.ContainsFunc.
  abbrev pub any : (A → Bool) → List A → Bool
  any test [] = false
  any test (x ∷ xs) = test x || any test xs

  abbrev pub all : (A → Bool) → List A → Bool
  all test [] = true
  all test (x ∷ xs) = test x && all test xs

  abbrev pub All {κ} : (A → Type κ) → List A → Type κ
  All P [] = Unit
  All P (x ∷ xs) = P x × All P xs

  pub append-eq-nil : (xs ys : List A) → (xs ++ ys) ≡ [] → (xs ≡ []) × (ys ≡ [])
  append-eq-nil [] ys h = (refl, h)
  append-eq-nil (x ∷ xs) ys h = cc

  pub length-append : (xs ys : List A) → length (xs ++ ys) ≡ length xs + length ys
  length-append [] ys = omega arith
  length-append (x ∷ xs) ys = omega (arith, length-append xs ys)

  pub length-take-le : (n : ℕ) (xs : List A) → length (take n xs) ≤ n
  length-take-le zero xs = omega arith
  length-take-le (suc n) [] = omega arith
  length-take-le (suc n) (x ∷ xs) = omega (arith, length-take-le n xs)

  pub all-append : (f : A → Bool) (xs ys : List A) → all f (xs ++ ys) ≡ (all f xs && all f ys)
  all-append f [] ys = refl
  all-append f (x ∷ xs) ys = ground (arith, all-append f xs ys)

  pub any-append : (f : A → Bool) (xs ys : List A) → any f (xs ++ ys) ≡ (any f xs || any f ys)
  any-append f [] ys = refl
  any-append f (x ∷ xs) ys = ground (arith, any-append f xs ys)

  pub All-append {κ} :
      (P : A → Type κ) (front back : List A) → All P front → All P back → All P (front ++ back)
  All-append P [] back h k = k
  All-append P (a ∷ front) back h k = let rest = All-append P front back h.1 k in (h.0, rest)

  pub All-append_iff {κ} :
      (P : A → Type κ) (front back : List A) → All P (front ++ back) ↔ (All P front × All P back)
  All-append_iff P [] back = (λ h. (tt, h), λ h. h.1)
  All-append_iff P (a ∷ front) back =
      let rest = All-append_iff P front back in
      (
        λ h. let (one, two) = rest.0 h.1 in ((h.0, one), two),
        λ h. let (one, two) = h in (one.0, rest.1 (one.1, two)),
      )

  pub All-map {κ ι} :
      (P : A → Type κ) (Q : A → Type ι)
      → ((a : A) → P a → Q a)
      → (xs : List A) → All P xs
      → All Q xs
  All-map P Q f [] h = tt
  All-map P Q f (x ∷ xs) h = (f x h.0, All-map P Q f xs h.1)

  pub all_of :
      (test : A → Bool) {a : A} {xs : List A} → all test xs ≡ true → Memᴰ a xs → test a ≡ true
  all_of test {xs = []} h m = elim m [ ]
  all_of test {xs = x ∷ xs} h (Memᴰ.head e) = subst (λ y. test y ≡ true) (sym e) (ground arith)
  all_of test {xs = x ∷ xs} h (Memᴰ.tail m) = all_of test (ground arith) m

module _ {ℓ} {A : Type ℓ} ⦃e : Comparable A⦄ where
  -- slices.Contains.
  unfoldable pub contains : List A → A → Bool
  contains xs a = any (λ x. a == x) xs

  pub contains-cons :
      (x : A) (xs : List A) (a : A) → contains (x ∷ xs) a ≡ (a == x || contains xs a)
  unfolding contains
  contains-cons x xs a = refl

  pub contains-nil : (a : A) → contains [] a ≡ false
  unfolding contains
  contains-nil a = refl

  pub contains-append :
      (xs ys : List A) (a : A) → contains (xs ++ ys) a ≡ (contains xs a || contains ys a)
  unfolding contains
  contains-append [] ys a = refl
  contains-append (x ∷ xs) ys a = ground (arith, contains-append xs ys a)

  pub contains-filter :
      (f : A → Bool) (xs : List A) (a : A) → contains (filter f xs) a ≡ (contains xs a && f a)
  unfolding contains
  contains-filter f [] a = refl
  contains-filter f (x ∷ xs) a = elim (Bool-cases (a == x)) [
    | inl e ↦
        subst (λ y. contains (filter f (y ∷ xs)) a ≡ (contains (y ∷ xs) a && f a))
          ((==_iff a x).0 e) (ground (arith, contains-filter f xs a, ==_iff a a))
    | inr n ↦ ground (arith, contains-filter f xs a)
  ]
