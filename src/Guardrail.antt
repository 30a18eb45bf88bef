-- ===== src/Guardrail.antt =====
-- internal/utils/guardrail.go, subset.go, and the checks of validateAgainstGuardrails in
-- internal/controller/workloadclass_controller.go: whether a WorkloadClass complies with guardrails.
pub mod Days
pub mod Comply
pub mod Weekdays
pub mod Strictest
pub mod Validate
use workload_class.Prelude.{
  ℕ, zero, suc, Bool, true, false, not, ◌&&◌, ◌||◌, Option, none, some, List, [], ◌∷◌, ◌++◌, length,
  all, filter, contains, Str, str_eq, lit, if◌then◌else◌,
}
use workload_class.Prelude.Int.{ℤ, pos, negsuc, ltb_ℤ, eqb_ℤ}
use workload_class.Api.{WorkloadClass, DisruptionWindow, Disruption, Guardrail}

abbrev pub all_weekdays : List Str
all_weekdays =
    lit "Sunday"
    ∷ lit "Monday"
    ∷ lit "Tuesday"
    ∷ lit "Wednesday"
    ∷ lit "Thursday"
    ∷ lit "Friday"
    ∷ lit "Saturday"
    ∷ []

abbrev pub is_nil {ℓ} : {A : Type ℓ} → List A → Bool
is_nil [] = true
is_nil (x ∷ xs) = false

-- IsSubset; the map that it fills is used as a set.
unfoldable pub is_subset : List Str → List Str → Bool
is_subset subset superset = if is_nil subset then true else all (contains superset) subset

-- WeekdaysValid: the days that are no weekdays; no error if there are none.
unfoldable pub invalid_weekdays : List Str → List Str
invalid_weekdays days = filter (λ d. not (contains all_weekdays d)) days

-- The descriptions, with what their texts name. A text of the days joins several of the first type.
pub data DaysViolation : Type 0 where
  windows_missing : List Str → DaysViolation
  days_missing : Str → List Str → DaysViolation
  days_exceed : Str → List Str → List Str → DaysViolation

pub data Violation : Type 0 where
  days_of_week : List DaysViolation → Violation
  too_many_windows : ℤ → ℕ → Violation
  duration_out_of_range : ℤ → ℤ → Violation
  disjoint_days_of_week : Violation

-- One round of the loop of daysOfWeekViolation.
abbrev pub window_violation : List Str → DisruptionWindow → List DaysViolation
window_violation days w =
    if is_nil w.days_of_week
    then (if is_subset all_weekdays days then [] else days_missing w.name days ∷ [])
    else (if is_subset w.days_of_week days then [] else days_exceed w.name days w.days_of_week ∷ [])

unfoldable pub window_violations : List Str → List DisruptionWindow → List DaysViolation
window_violations days [] = []
window_violations days (w ∷ ws) = window_violation days w ++ window_violations days ws

-- daysOfWeekViolation; "" is the empty list.
unfoldable pub days_of_week_violation : List Str → List DisruptionWindow → List DaysViolation
days_of_week_violation [] windows = []
days_of_week_violation (d ∷ ds) [] =
    if is_subset all_weekdays (d ∷ ds) then [] else windows_missing (d ∷ ds) ∷ []
days_of_week_violation (d ∷ ds) (w ∷ ws) = window_violations (d ∷ ds) (w ∷ ws)

-- allowedWindowsViolation
unfoldable pub allowed_windows_violation : ℤ → ℕ → List Violation
allowed_windows_violation max_allowed wlc_windows =
    if ltb_ℤ (pos 0) max_allowed && ltb_ℤ max_allowed (pos wlc_windows)
    then too_many_windows max_allowed wlc_windows ∷ []
    else []

-- disruptionDurationDaysViolation
unfoldable pub disruption_duration_days_violation : ℤ → ℤ → List Violation
disruption_duration_days_violation wlc_max guardrail_max =
    if ltb_ℤ (pos 0) guardrail_max && (not (ltb_ℤ (pos 0) wlc_max) || ltb_ℤ guardrail_max wlc_max)
    then duration_out_of_range guardrail_max wlc_max ∷ []
    else []

abbrev pub as_violations : List DaysViolation → List Violation
as_violations [] = []
as_violations (v ∷ vs) = days_of_week (v ∷ vs) ∷ []

abbrev pub windows_of : WorkloadClass → List DisruptionWindow
windows_of wlc = wlc.disruption_policy.allowed_disruption_windows

-- GuardrailViolations, of the disruption constraints of a guardrail.
unfoldable pub guardrail_violations : WorkloadClass → Disruption → List Violation
guardrail_violations wlc g =
    as_violations (days_of_week_violation g.days_of_week (windows_of wlc))
    ++ (allowed_windows_violation g.max_allowed_windows (length (windows_of wlc))
        ++ disruption_duration_days_violation wlc.disruption_policy.max_non_disruption_duration_days
            g.max_non_disruption_duration_days)

-- The variables of the loop of validateAgainstGuardrails.
pub record Effective : Type 0 where
  pub days : List Str
  pub days_restricted : Bool
  pub min_windows : ℤ
  pub min_duration : ℤ

-- `limit > 0 && (min == 0 || limit < min)`
abbrev pub tighten : ℤ → ℤ → ℤ
tighten limit min =
    if ltb_ℤ (pos 0) limit && (eqb_ℤ min (pos 0) || ltb_ℤ limit min) then limit else min

abbrev pub restrict_days : List Str → Effective → Effective
restrict_days [] e = e
restrict_days (d ∷ ds) e = record e {
  days = filter (contains (d ∷ ds)) e.days;
  days_restricted = true;
}

unfoldable pub restrict : Disruption → Effective → Effective
restrict d e = record (restrict_days d.days_of_week e) {
  min_windows = tighten d.max_allowed_windows e.min_windows;
  min_duration = tighten d.max_non_disruption_duration_days e.min_duration;
}

unfoldable pub restrict_all : Effective → List Guardrail → Effective
restrict_all e [] = e
restrict_all e (g ∷ gs) = restrict_all (restrict g.disruption e) gs

abbrev pub unrestricted : Effective
unrestricted = record {
  days = all_weekdays;
  days_restricted = false;
  min_windows = pos 0;
  min_duration = pos 0;
}

abbrev pub as_disruption : Effective → Disruption
as_disruption e = record {
  days_of_week = if e.days_restricted then e.days else [];
  max_allowed_windows = e.min_windows;
  max_non_disruption_duration_days = e.min_duration;
}

abbrev pub effective_violations : WorkloadClass → Effective → List Violation
effective_violations wlc e =
    (if e.days_restricted && is_nil e.days then disjoint_days_of_week ∷ [] else [])
    ++ guardrail_violations wlc (as_disruption e)

-- validateAgainstGuardrails
unfoldable pub validate_against_guardrails : WorkloadClass → List Guardrail → List Violation
validate_against_guardrails wlc [] = []
validate_against_guardrails wlc (g ∷ gs) =
    effective_violations wlc (restrict_all unrestricted (g ∷ gs))
