-- ===== src/Guardrail/Weekdays.antt =====
-- Windows that name weekdays only allow disruption on weekdays, and on one of them at least.
use workload_class.Prelude.{
  ◌≡◌, refl, sym, subst, inl, inr, arith, true, not, List, [], ◌∷◌, Str, str_eq, lit, contains,
  contains-cons, contains-nil, All, filter, Bool-cases, ==_refl, ◌==◌, ==_iff,
}
use workload_class.Api.{DisruptionWindow}
use workload_class.Guardrail.{all_weekdays, invalid_weekdays}
use workload_class.Guardrail.Days.{Within, allows, any_allows, window_allows}

-- Every window names weekdays only, as WeekdaysValid checks.
abbrev pub ValidDays : List DisruptionWindow → Type 0
ValidDays ws = All (λ w. invalid_weekdays w.days_of_week ≡ []) ws

invalid-Within :
    (days : List Str) → invalid_weekdays days ≡ [] → Within (contains days) all_weekdays
unfolding invalid_weekdays
invalid-Within [] h d e = ground (arith, contains-nil d)
invalid-Within (x ∷ xs) h d e = elim (Bool-cases (contains all_weekdays x)) [
  | inl c ↦ elim (Bool-cases (d == x)) [
    | inl q ↦ subst (λ y. contains all_weekdays y ≡ true) (sym ((==_iff d x).0 q)) c
    | inr n ↦ invalid-Within xs (rw c at h) d (ground (arith, contains-cons x xs d))
  ]
  | inr c ↦ absurd (cons-ne-nil x (filter (λ y. not (contains all_weekdays y)) xs) (rw c at h))
]
  where
    cons-ne-nil : (y : Str) (ys : List Str) → (y ∷ ys) ≡ [] → ⊥
    cons-ne-nil y ys k = cc

window_allows-weekday :
    (w : DisruptionWindow)
    → invalid_weekdays w.days_of_week ≡ []
    → Within (window_allows w) all_weekdays
unfolding window_allows
window_allows-weekday w h d e = ground (arith, invalid-Within w.days_of_week h d)

any_allows-weekday :
    (ws : List DisruptionWindow) → ValidDays ws → Within (any_allows ws) all_weekdays
unfolding any_allows
any_allows-weekday [] h d e = cc
any_allows-weekday (w ∷ ws) h d e =
    ground (arith, window_allows-weekday w h.0 d, any_allows-weekday ws h.1 d)

pub allows-weekday : (ws : List DisruptionWindow) → ValidDays ws → Within (allows ws) all_weekdays
unfolding allows
allows-weekday [] h d e = e
allows-weekday (w ∷ ws) h d e = any_allows-weekday (w ∷ ws) h d e

sunday : contains all_weekdays (lit "Sunday") ≡ true
unfolding contains
sunday = rw (==_refl (lit "Sunday")) refl

-- Disruption is allowed on some day.
window_allows-some :
    (w : DisruptionWindow) (days : List Str)
    → w.days_of_week ≡ days
    → (d : Str) × (window_allows w d ≡ true)
unfolding window_allows
window_allows-some w [] e = (lit "Sunday", rw e sunday)
window_allows-some w (d ∷ ds) e = (d, ground (arith, e, contains-cons d ds d, ==_refl d))

pub allows-some : (ws : List DisruptionWindow) → (d : Str) × (allows ws d ≡ true)
unfolding allows any_allows
allows-some [] = (lit "Sunday", sunday)
allows-some (w ∷ ws) =
    let (d, h) = window_allows-some w w.days_of_week refl in (d, ground (arith, h))
