-- ===== src/Guardrail/Days.antt =====
-- The days on which a WorkloadClass allows disruption, and the test that they lie within a limit.
use workload_class.Prelude.{
  ◌≡◌, refl, ◌↔◌, ◌⊎◌, inl, inr, sym, subst, arith, Bool, true, false, ◌||◌, List, [], ◌∷◌, all,
  contains, contains-cons, contains-nil, append-eq-nil, Str, str_eq, if◌then◌else◌, Bool-cases,
  ==_iff, ==_refl, ◌==◌,
}
use workload_class.Api.{DisruptionWindow}
use workload_class.Guardrail.{
  all_weekdays, is_nil, is_subset, DaysViolation, window_violation, window_violations,
  days_of_week_violation,
}

-- No windows: every day; a window without days: every day.
unfoldable pub window_allows : DisruptionWindow → Str → Bool
window_allows w d =
    if is_nil w.days_of_week then contains all_weekdays d else contains w.days_of_week d

unfoldable pub any_allows : List DisruptionWindow → Str → Bool
any_allows [] d = false
any_allows (w ∷ ws) d = window_allows w d || any_allows ws d

unfoldable pub allows : List DisruptionWindow → Str → Bool
allows [] d = contains all_weekdays d
allows (w ∷ ws) d = any_allows (w ∷ ws) d

iff_trans {ℓ κ ι} : {A : Type ℓ} {B : Type κ} {C : Type ι} → A ↔ B → B ↔ C → A ↔ C
iff_trans p q = (λ a. q.0 (p.0 a), λ c. p.1 (q.1 c))

abbrev pub Within : (Str → Bool) → List Str → Type 0
Within f limit = (d : Str) → f d ≡ true → contains limit d ≡ true

all-Within : (xs limit : List Str) → (all (contains limit) xs ≡ true) ↔ Within (contains xs) limit
all-Within [] limit = (λ h d e. ground (arith, contains-nil d), λ h. refl)
all-Within (x ∷ xs) limit = (
  λ h d e. elim (Bool-cases (d == x)) [
    | inl q ↦ subst (λ y. contains limit y ≡ true) (sym ((==_iff d x).0 q)) (ground arith)
    | inr n ↦ (all-Within xs limit).0 (ground arith) d (ground (arith, contains-cons x xs d))
  ],
  λ h. ground (
    arith,
    h x (ground (arith, contains-cons x xs x, ==_refl x)),
    (all-Within xs limit).1 (λ d e. h d (ground (arith, contains-cons x xs d))),
  ),
)

-- IsSubset decides whether every element of the first list is in the second.
pub is_subset_iff : (xs limit : List Str) → (is_subset xs limit ≡ true) ↔ Within (contains xs) limit
unfolding is_subset
is_subset_iff [] limit = all-Within [] limit
is_subset_iff (x ∷ xs) limit = all-Within (x ∷ xs) limit

choose_nil_iff : (b : Bool) (v : DaysViolation) → ((if b then [] else v ∷ []) ≡ []) ↔ (b ≡ true)
choose_nil_iff true v = (λ h. refl, λ h. refl)
choose_nil_iff false v = (λ h. cc, λ h. cc)

window_violation_iff :
    (limit : List Str) (w : DisruptionWindow)
    → (window_violation limit w ≡ []) ↔ Within (window_allows w) limit
unfolding window_allows
window_violation_iff limit w = elim (Bool-cases (is_nil w.days_of_week)) [
  | inl e ↦ rw e (iff_trans (choose_nil_iff _ _) (is_subset_iff all_weekdays limit))
  | inr n ↦ rw n (iff_trans (choose_nil_iff _ _) (is_subset_iff w.days_of_week limit))
]

Within-or :
    (f g : Str → Bool) (limit : List Str)
    → Within (λ d. f d || g d) limit ↔ (Within f limit × Within g limit)
Within-or f g limit = (
  λ h. (λ d e. h d (ground arith), λ d e. h d (ground arith)),
  λ h d e. ground (arith, h.0 d, h.1 d),
)

window_violations_iff :
    (limit : List Str) (ws : List DisruptionWindow)
    → (window_violations limit ws ≡ []) ↔ Within (any_allows ws) limit
unfolding window_violations any_allows
window_violations_iff limit [] = (λ h d e. cc, λ h. refl)
window_violations_iff limit (w ∷ ws) = (
  λ h.
      let (here, later) = append-eq-nil (window_violation limit w) (window_violations limit ws) h in
      (Within-or (window_allows w) (any_allows ws) limit).1
        ((window_violation_iff limit w).0 here, (window_violations_iff limit ws).0 later),
  λ h.
      let (here, later) = (Within-or (window_allows w) (any_allows ws) limit).0 h in
      ground
        (arith, (window_violation_iff limit w).1 here, (window_violations_iff limit ws).1 later),
)

-- daysOfWeekViolation reports nothing exactly if the guardrail restricts no days, or every day on
-- which the windows allow disruption is one of its days.
pub days_of_week_violation_iff :
    (limit : List Str) (ws : List DisruptionWindow)
    → (days_of_week_violation limit ws ≡ []) ↔ ((limit ≡ []) ⊎ Within (allows ws) limit)
unfolding days_of_week_violation allows
days_of_week_violation_iff [] ws = (λ h. inl refl, λ h. refl)
days_of_week_violation_iff (d ∷ ds) [] = (
  λ h. inr ((is_subset_iff all_weekdays (d ∷ ds)).0 ((choose_nil_iff _ _).0 h)),
  λ h. elim h [
    | inl e ↦ cc
    | inr k ↦ (choose_nil_iff _ _).1 ((is_subset_iff all_weekdays (d ∷ ds)).1 k)
  ],
)
days_of_week_violation_iff (d ∷ ds) (w ∷ ws) = (
  λ h. inr ((window_violations_iff (d ∷ ds) (w ∷ ws)).0 h),
  λ h. elim h [ inl e ↦ cc | inr k ↦ (window_violations_iff (d ∷ ds) (w ∷ ws)).1 k ],
)
