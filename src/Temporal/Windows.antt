-- ===== src/Temporal/Windows.antt =====
-- When a disruption window is open, and how long the answer holds.
use workload_class.Prelude.{
  ℕ, ◌+◌, ◌≤◌, ◌<◌, ◌≡◌, ◌≢◌, ◌↔◌, ◌⊎◌, inl, inr, refl, arith, Bool, true, false, Bool-cases, ltb,
  subst,
}
use workload_class.Prelude.Int.{ltb_ℤ, sub_ℕ}
use workload_class.Temporal.{
  week, evaluate_cross_midnight_window, evaluate_same_day_window, evaluate_window,
}

-- Strictly between start and end on an active day, or all of an active day if both are the same moment; if
-- the end is before the start, behind the start of an active day, or before the end on the day after one.
abbrev pub Open : ℕ → ℕ → ℕ → Bool → Bool → Type 0
Open start end now today yesterday =
    ((today ≡ true) × (start < now) × (now < end))
    ⊎ (((today ≡ true) × (start ≡ end))
        ⊎ ((end < start) × (((today ≡ true) × (start < now)) ⊎ ((yesterday ≡ true) × (now < end)))))

-- evaluateWindow reports that the window is open exactly if the moment is strictly between start and
-- end and today is active, or both are the same moment and today is active, or the end is before the
-- start and the moment is behind the start on an active day or before the end on the day after one.
pub evaluate_window_iff :
    (start end now : ℕ) (today yesterday : Bool)
    → ((evaluate_window start end now today yesterday).0 ≡ true)
      ↔ Open start end now today yesterday
unfolding evaluate_window evaluate_cross_midnight_window evaluate_same_day_window
evaluate_window_iff start end now today yesterday = (ground arith, ground arith)

cross-until :
    (start end now t : ℕ) (today yesterday : Bool)
    → now ≢ start
    → now ≤ t
    → ltb_ℤ (sub_ℕ t now) (evaluate_cross_midnight_window start end now today yesterday).1 ≡ true
    → (evaluate_cross_midnight_window start end t today yesterday).0
      ≡ (evaluate_cross_midnight_window start end now today yesterday).0
unfolding evaluate_cross_midnight_window
cross-until start end now t true true n l h = ground arith
cross-until start end now t true false n l h = ground arith
cross-until start end now t false yesterday n l h = ground arith

same-until :
    (start end now t : ℕ)
    → now ≢ start
    → now ≤ t
    → ltb_ℤ (sub_ℕ t now) (evaluate_same_day_window start end now).1 ≡ true
    → (evaluate_same_day_window start end t).0 ≡ (evaluate_same_day_window start end now).0
unfolding evaluate_same_day_window
same-until start end now t n l h = ground arith

-- Which of the two functions evaluateWindow calls.
picks-cross :
    (start end now : ℕ) (today yesterday : Bool)
    → ltb end start ≡ true
    → evaluate_window start end now today yesterday
      ≡ evaluate_cross_midnight_window start end now today yesterday
unfolding evaluate_window
picks-cross start end now today yesterday c = rw c refl

picks-same :
    (start end now : ℕ) (yesterday : Bool)
    → ltb end start ≡ false
    → evaluate_window start end now true yesterday ≡ evaluate_same_day_window start end now
unfolding evaluate_window
picks-same start end now yesterday c = rw c refl

picks-none :
    (start end now : ℕ) (yesterday : Bool)
    → ltb end start ≡ false
    → evaluate_window start end now false yesterday ≡ (false, week)
unfolding evaluate_window
picks-none start end now yesterday c = rw c refl

-- The answer of evaluateWindow holds as long as it says: if the moment is not exactly the start,
-- then at every later moment before the returned duration has passed, the window, with the same
-- start, end and active days, is open exactly if it is now.
pub evaluate_window-until :
    (start end now t : ℕ) (today yesterday : Bool)
    → now ≢ start
    → now ≤ t
    → ltb_ℤ (sub_ℕ t now) (evaluate_window start end now today yesterday).1 ≡ true
    → (evaluate_window start end t today yesterday).0
      ≡ (evaluate_window start end now today yesterday).0
evaluate_window-until start end now t today yesterday n l h = elim (Bool-cases (ltb end start)) [
  | inl c ↦
      let now_is = picks-cross start end now today yesterday c in
      rw (picks-cross start end t today yesterday c, now_is)
        (cross-until start end now t today yesterday n l
          (subst (λ a. ltb_ℤ (sub_ℕ t now) a.1 ≡ true) now_is h))
  | inr c ↦ same_day today c h
]
  where
    same_day :
        (active : Bool)
        → ltb end start ≡ false
        → ltb_ℤ (sub_ℕ t now) (evaluate_window start end now active yesterday).1 ≡ true
        → (evaluate_window start end t active yesterday).0
          ≡ (evaluate_window start end now active yesterday).0
    same_day true c k =
        let now_is = picks-same start end now yesterday c in
        rw (picks-same start end t yesterday c, now_is)
          (same-until start end now t n l (subst (λ a. ltb_ℤ (sub_ℕ t now) a.1 ≡ true) now_is k))
    same_day false c k =
        rw (picks-none start end t yesterday c, picks-none start end now yesterday c) refl

-- At its very start a window that ends more than a nanosecond later on the same day is closed, and the next change is said to be a week
-- away, although the window opens with the next nanosecond.
pub window_start_closed :
    (start end : ℕ) (yesterday : Bool)
    → start + 1 < end
    → (evaluate_window start end start true yesterday ≡ (false, week))
      × ((evaluate_window start end (start + 1) true yesterday).0 ≡ true)
unfolding evaluate_window evaluate_cross_midnight_window evaluate_same_day_window
window_start_closed start end yesterday h = (ground arith, ground arith)
