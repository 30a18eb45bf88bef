-- ===== src/Guardrail/Validate.antt =====
-- validateAgainstGuardrails decides compliance with every guardrail.
use workload_class.Prelude.{
  ◌≡◌, refl, ◌↔◌, ◌⊎◌, inl, inr, arith, Bool, true, false, ◌&&◌, List, [], ◌∷◌, append-eq-nil, Str,
  str_eq, contains, contains-nil, if◌then◌else◌,
}
use workload_class.Api.{WorkloadClass, Guardrail}
use workload_class.Guardrail.{
  disjoint_days_of_week, all_weekdays, is_nil, Violation, windows_of, Effective, restrict_all,
  unrestricted, as_disruption, effective_violations, guardrail_violations,
  validate_against_guardrails,
}
use workload_class.Guardrail.Days.{Within}
use workload_class.Guardrail.Comply.{DaysComply, guardrail_violations-Complies}
use workload_class.Guardrail.Weekdays.{ValidDays, allows-weekday, allows-some}
use workload_class.Guardrail.Strictest.{Inv, Meets, restrict_all-Meets, allowed, AllComply}

unrestricted-Inv : Inv unrestricted
unrestricted-Inv = record { days = inr refl; windows = omega arith; duration = omega arith }

is_nil-false : (xs : List Str) (d : Str) → contains xs d ≡ true → is_nil xs ≡ false
is_nil-false [] d h = ground (arith, contains-nil d)
is_nil-false (x ∷ xs) d h = refl

is_nil-of : (xs : List Str) → xs ≡ [] → is_nil xs ≡ true
is_nil-of [] h = refl
is_nil-of (x ∷ xs) h = cc

module _ (wlc : WorkloadClass) (valid : ValidDays (windows_of wlc)) where
  unrestricted-Meets : Meets wlc unrestricted
  unrestricted-Meets = record {
    days = allows-weekday (windows_of wlc) valid;
    windows = inl (omega arith);
    duration = inl (omega arith);
  }

  abbrev reported : Effective → List Violation
  reported e = if e.days_restricted && is_nil e.days then disjoint_days_of_week ∷ [] else []

  Within-of-restricted :
      (e : Effective) (b : Bool)
      → e.days_restricted ≡ b
      → (b ≡ true) ⊎ (e.days ≡ all_weekdays)
      → (if b && is_nil e.days then disjoint_days_of_week ∷ [] else []) ≡ []
      → DaysComply (if b then e.days else []) wlc
      → Within (allowed wlc) e.days
  Within-of-restricted e true r i q (inl h) d a = ground (arith, is_nil-of e.days h, q)
  Within-of-restricted e true r i q (inr w) d a = w d a
  Within-of-restricted e false r (inl i) q h d a = cc
  Within-of-restricted e false r (inr i) q h d a = rw i (allows-weekday (windows_of wlc) valid d a)

  effective-Meets : (e : Effective) → Inv e → effective_violations wlc e ≡ [] → Meets wlc e
  effective-Meets e i h =
      let (q, rest) = append-eq-nil (reported e) (guardrail_violations wlc (as_disruption e)) h in
      let c = (guardrail_violations-Complies wlc (as_disruption e)).0 rest in
      record {
        days = Within-of-restricted e e.days_restricted refl i.days q c.days;
        windows = c.windows;
        duration = c.duration;
      }

  DaysComply-of-Within :
      (e : Effective) (b : Bool)
      → Within (allowed wlc) e.days
      → DaysComply (if b then e.days else []) wlc
  DaysComply-of-Within e true w = inr w
  DaysComply-of-Within e false w = inl refl

  Meets-effective : (e : Effective) → Meets wlc e → effective_violations wlc e ≡ []
  Meets-effective e m =
      let (d, a) = allows-some (windows_of wlc) in
      ground (
        arith,
        is_nil-false e.days d (m.days d a),
        (guardrail_violations-Complies wlc (as_disruption e)).1 (record {
          days = DaysComply-of-Within e e.days_restricted m.days;
          windows = m.windows;
          duration = m.duration;
        }),
      )

  -- The strictest limits suffice: for a WorkloadClass whose windows name weekdays only,
  -- validateAgainstGuardrails reports nothing exactly if it complies with every guardrail.
  pub validate_against_guardrails_iff :
      (gs : List Guardrail) → (validate_against_guardrails wlc gs ≡ []) ↔ AllComply wlc gs
  unfolding validate_against_guardrails
  validate_against_guardrails_iff [] = (λ h. tt, λ h. refl)
  validate_against_guardrails_iff (g ∷ gs) =
      let (i, both) = restrict_all-Meets wlc (g ∷ gs) unrestricted unrestricted-Inv in
      (
        λ h. (both.0 (effective-Meets (restrict_all unrestricted (g ∷ gs)) i h)).0,
        λ h. Meets-effective (restrict_all unrestricted (g ∷ gs)) (both.1 (h, unrestricted-Meets)),
      )
