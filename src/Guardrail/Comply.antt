-- ===== src/Guardrail/Comply.antt =====
-- GuardrailViolations reports nothing exactly for the WorkloadClasses that comply.
use workload_class.Prelude.{
  ℕ, ◌≡◌, refl, ◌↔◌, ◌⊎◌, arith, List, [], ◌∷◌, append-eq-nil, length, Str,
}
use workload_class.Prelude.Int.{ℤ, pos, negsuc, ◌≤ℤ◌}
use workload_class.Api.{WorkloadClass, Disruption}
use workload_class.Guardrail.{
  DaysViolation, windows_of, allowed_windows_violation, disruption_duration_days_violation,
  as_violations, guardrail_violations,
}
use workload_class.Guardrail.Days.{Within, allows, days_of_week_violation_iff}

-- A limit that is 0 or less is not enforced; a WorkloadClass value of 0 or less is no bound at all.
abbrev pub WindowsComply : ℤ → ℕ → Type 0
WindowsComply limit n = (limit ≤ℤ pos 0) ⊎ (pos n ≤ℤ limit)

abbrev pub DurationComplies : ℤ → ℤ → Type 0
DurationComplies limit value = (limit ≤ℤ pos 0) ⊎ ((pos 1 ≤ℤ value) × (value ≤ℤ limit))

abbrev pub DaysComply : List Str → WorkloadClass → Type 0
DaysComply limit wlc = (limit ≡ []) ⊎ Within (allows (windows_of wlc)) limit

pub record Complies (wlc : WorkloadClass) (g : Disruption) : Type 0 where
  pub days : DaysComply g.days_of_week wlc
  pub windows : WindowsComply g.max_allowed_windows (length (windows_of wlc))
  pub duration :
      DurationComplies g.max_non_disruption_duration_days
        wlc.disruption_policy.max_non_disruption_duration_days

pub windows_iff :
    (limit : ℤ) (n : ℕ) → (allowed_windows_violation limit n ≡ []) ↔ WindowsComply limit n
unfolding allowed_windows_violation
windows_iff (pos k) n = (ground arith, ground arith)
windows_iff (negsuc k) n = (ground arith, ground arith)

pub duration_iff :
    (value limit : ℤ)
    → (disruption_duration_days_violation value limit ≡ []) ↔ DurationComplies limit value
unfolding disruption_duration_days_violation
duration_iff (pos k) (pos n) = (ground arith, ground arith)
duration_iff (pos k) (negsuc n) = (ground arith, ground arith)
duration_iff (negsuc k) (pos n) = (ground arith, ground arith)
duration_iff (negsuc k) (negsuc n) = (ground arith, ground arith)

as_violations-nil : (vs : List DaysViolation) → (as_violations vs ≡ []) ↔ (vs ≡ [])
as_violations-nil [] = (λ h. refl, λ h. refl)
as_violations-nil (v ∷ vs) = (λ h. cc, λ h. cc)

-- GuardrailViolations is empty exactly if the WorkloadClass complies: if the guardrail restricts the
-- days, every day on which disruption is allowed is among them; if it limits the number of windows,
-- there are no more; and if it limits the duration, the WorkloadClass sets one from 1 to the limit.
pub guardrail_violations-Complies :
    (wlc : WorkloadClass) (g : Disruption) → (guardrail_violations wlc g ≡ []) ↔ Complies wlc g
unfolding guardrail_violations
guardrail_violations-Complies wlc g = (forth, back)
  where
    value : ℤ
    value = wlc.disruption_policy.max_non_disruption_duration_days

    forth : guardrail_violations wlc g ≡ [] → Complies wlc g
    forth h =
        let (d, rest) = append-eq-nil _ _ h in
        let (w, t) = append-eq-nil _ _ rest in
        record {
          days =
              (days_of_week_violation_iff g.days_of_week (windows_of wlc)).0
                ((as_violations-nil _).0 d);
          windows = (windows_iff g.max_allowed_windows (length (windows_of wlc))).0 w;
          duration = (duration_iff value g.max_non_disruption_duration_days).0 t;
        }

    back : Complies wlc g → guardrail_violations wlc g ≡ []
    back c = ground (
      arith,
      (as_violations-nil _).1
          ((days_of_week_violation_iff g.days_of_week (windows_of wlc)).1 c.days),
      (windows_iff g.max_allowed_windows (length (windows_of wlc))).1 c.windows,
      (duration_iff value g.max_non_disruption_duration_days).1 c.duration,
    )
