-- ===== src/Guardrail/Strictest.antt =====
-- The strictest combination of several guardrails that validateAgainstGuardrails checks is as strict
-- as all of them.
use workload_class.Prelude.{
  ℕ, ◌≡◌, refl, ◌↔◌, ◌⊎◌, inl, inr, arith, Bool, true, List, [], ◌∷◌, length, Str, str_eq, contains,
  contains-filter, All,
}
use workload_class.Prelude.Int.{ℤ, pos, negsuc, ◌≤ℤ◌}
use workload_class.Api.{WorkloadClass, Disruption, Guardrail}
use workload_class.Guardrail.{
  all_weekdays, windows_of, Effective, tighten, restrict_days, restrict, restrict_all,
}
use workload_class.Guardrail.Days.{Within, allows}
use workload_class.Guardrail.Comply.{WindowsComply, DurationComplies, DaysComply, Complies}

abbrev pub IsNonNeg : ℤ → Type 0
IsNonNeg z = pos 0 ≤ℤ z

tighten-IsNonNeg : (limit min : ℤ) → IsNonNeg min → IsNonNeg (tighten limit min)
tighten-IsNonNeg (pos n) (pos m) h = ground arith
tighten-IsNonNeg (negsuc n) (pos m) h = ground arith
tighten-IsNonNeg limit (negsuc m) h = absurd (omega arith)

tighten-windows :
    (limit min : ℤ) (n : ℕ)
    → IsNonNeg min
    → WindowsComply (tighten limit min) n ↔ (WindowsComply limit n × WindowsComply min n)
tighten-windows (pos l) (pos m) n h = (ground arith, ground arith)
tighten-windows (negsuc l) (pos m) n h = (ground arith, ground arith)
tighten-windows limit (negsuc m) n h = absurd (omega arith)

tighten-duration :
    (limit min v : ℤ)
    → IsNonNeg min
    → DurationComplies (tighten limit min) v ↔ (DurationComplies limit v × DurationComplies min v)
tighten-duration (pos l) (pos m) (pos v) h = (ground arith, ground arith)
tighten-duration (negsuc l) (pos m) (pos v) h = (ground arith, ground arith)
tighten-duration (pos l) (pos m) (negsuc v) h = (ground arith, ground arith)
tighten-duration (negsuc l) (pos m) (negsuc v) h = (ground arith, ground arith)
tighten-duration limit (negsuc m) v h = absurd (omega arith)

-- Between two guardrails: unrestricted days are all weekdays, and the least limits are not negative.
pub record Inv (e : Effective) : Type 0 where
  pub days : (e.days_restricted ≡ true) ⊎ (e.days ≡ all_weekdays)
  pub windows : IsNonNeg e.min_windows
  pub duration : IsNonNeg e.min_duration

restrict_days-free :
    (ds : List Str) (e : Effective)
    → (e.days_restricted ≡ true) ⊎ (e.days ≡ all_weekdays)
    → ((restrict_days ds e).days_restricted ≡ true) ⊎ ((restrict_days ds e).days ≡ all_weekdays)
restrict_days-free [] e h = h
restrict_days-free (d ∷ ds) e h = inl refl

restrict-Inv : (g : Disruption) (e : Effective) → Inv e → Inv (restrict g e)
unfolding restrict
restrict-Inv g e h = record {
  days = restrict_days-free g.days_of_week e h.days;
  windows = tighten-IsNonNeg g.max_allowed_windows e.min_windows h.windows;
  duration = tighten-IsNonNeg g.max_non_disruption_duration_days e.min_duration h.duration;
}

module _ (wlc : WorkloadClass) where
  abbrev pub allowed : Str → Bool
  allowed = allows (windows_of wlc)

  abbrev pub value : ℤ
  value = wlc.disruption_policy.max_non_disruption_duration_days

  abbrev pub count : ℕ
  count = length (windows_of wlc)

  -- The WorkloadClass is within the limits that the loop has reached.
  pub record Meets (e : Effective) : Type 0 where
    pub days : Within allowed e.days
    pub windows : WindowsComply e.min_windows count
    pub duration : DurationComplies e.min_duration value

  restrict_days-Within :
      (ds : List Str) (e : Effective)
      → Within allowed (restrict_days ds e).days ↔ (DaysComply ds wlc × Within allowed e.days)
  restrict_days-Within [] e = (λ h. (inl refl, h), λ h. h.1)
  restrict_days-Within (d ∷ ds) e = (
    λ h. (
      inr (λ x a. ground (arith, h x a, contains-filter (contains (d ∷ ds)) e.days x)),
      λ x a. ground (arith, h x a, contains-filter (contains (d ∷ ds)) e.days x),
    ),
    λ h x a.
        rw (contains-filter (contains (d ∷ ds)) e.days x)
          (ground (arith, h.1 x a, within_of h.0 x a)),
  )
    where
      within_of : DaysComply (d ∷ ds) wlc → Within allowed (d ∷ ds)
      within_of (inl e) = λ x a. cc
      within_of (inr w) = w

  restrict-Meets :
      (g : Disruption) (e : Effective) → Inv e → Meets (restrict g e) ↔ (Complies wlc g × Meets e)
  unfolding restrict
  restrict-Meets g e i = (
    λ m.
        let (gd, ed) = (restrict_days-Within g.days_of_week e).0 m.days in
        let (gw, ew) =
          (tighten-windows g.max_allowed_windows e.min_windows count i.windows).0 m.windows in
        let (gt, et) =
          (tighten-duration g.max_non_disruption_duration_days e.min_duration value i.duration).0
            m.duration in
        (
          record { days = gd; windows = gw; duration = gt },
          record { days = ed; windows = ew; duration = et },
        ),
    λ (c, m). record {
      days = (restrict_days-Within g.days_of_week e).1 (c.days, m.days);
      windows =
          (tighten-windows g.max_allowed_windows e.min_windows count i.windows).1
            (c.windows, m.windows);
      duration =
          (tighten-duration g.max_non_disruption_duration_days e.min_duration value i.duration).1
            (c.duration, m.duration);
    },
  )

  abbrev pub AllComply : List Guardrail → Type 0
  AllComply gs = All (λ g. Complies wlc g.disruption) gs

  pub restrict_all-Meets :
      (gs : List Guardrail) (e : Effective)
      → Inv e
      → Inv (restrict_all e gs) × (Meets (restrict_all e gs) ↔ (AllComply gs × Meets e))
  unfolding restrict_all
  restrict_all-Meets [] e i = (i, (λ m. (tt, m), λ h. h.1))
  restrict_all-Meets (g ∷ gs) e i =
      let (j, ih) =
        restrict_all-Meets gs (restrict g.disruption e) (restrict-Inv g.disruption e i) in
      (
        j,
        (
          λ m.
              let (rest, here) = ih.0 m in
              let (c, old) = (restrict-Meets g.disruption e i).0 here in ((c, rest), old),
          λ h. ih.1 (h.0.1, (restrict-Meets g.disruption e i).1 (h.0.0, h.1)),
        ),
      )
