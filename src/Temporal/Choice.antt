-- ===== src/Temporal/Choice.antt =====
-- IsTimeInWindows over all windows.
use workload_class.Prelude.{
  Str, ℕ, ◌≡◌, ◌↔◌, inl, inr, refl, arith, Bool, true, false, ◌||◌, Option, none, some, List, [],
  ◌∷◌, any, Memᴰ, Bool-cases, sym, ◌∙◌, subst, ap,
}
use workload_class.Api.{DisruptionWindow}
use workload_class.Temporal.{
  week, Answer, TimeLib, WindowInfo, window_info, is_active, evaluate_info, evaluate_loaded,
  evaluate, combine, in_windows_from, is_time_in_windows,
}
use workload_class.Temporal.Windows.{Open, evaluate_window_iff}

any-Mem :
    (f : DisruptionWindow → Bool) (ws : List DisruptionWindow)
    → any f ws ≡ true
    → (v : DisruptionWindow) × Memᴰ v ws × (f v ≡ true)
any-Mem f [] h = cc
any-Mem f (w ∷ ws) h = elim (Bool-cases (f w)) [
  | inl e ↦ (w, Memᴰ.head refl, e)
  | inr e ↦ let (v, m, k) = any-Mem f ws (ground arith) in (v, Memᴰ.tail m, k)
]

Mem-any :
    (f : DisruptionWindow → Bool) (ws : List DisruptionWindow) (v : DisruptionWindow)
    → Memᴰ v ws
    → f v ≡ true
    → any f ws ≡ true
Mem-any f [] v m h = elim m [ ]
Mem-any f (w ∷ ws) v (Memᴰ.head e) h = ground (arith, ap f e)
Mem-any f (w ∷ ws) v (Memᴰ.tail m) h = ground (arith, Mem-any f ws v m h)

abbrev opens : Option Answer → Bool
opens none = false
opens (some a) = a.0

module _ (lib : TimeLib) (now : ℕ) where
  -- The window has a valid zone and clock times, and is open on its days in that zone.
  abbrev pub IsOpen : DisruptionWindow → Type 0
  IsOpen w =
      (i : WindowInfo) × (window_info lib now w ≡ some i)
      × Open i.start i.end now (is_active w.days_of_week (i.location.weekday now))
          (is_active w.days_of_week (i.location.weekday_before now))

  info_iff :
      (days : List Str) (i : WindowInfo)
      → (opens (evaluate_info lib now days i) ≡ true)
        ↔ Open i.start i.end now
            (is_active days (i.location.weekday now))
            (is_active days (i.location.weekday_before now))
  unfolding evaluate_info
  info_iff days i = (
    ground (
      arith,
      evaluate_window_iff i.start i.end now (is_active days (i.location.weekday now))
          (is_active days (i.location.weekday_before now)),
    ),
    ground (
      arith,
      evaluate_window_iff i.start i.end now (is_active days (i.location.weekday now))
          (is_active days (i.location.weekday_before now)),
    ),
  )

  abbrev OpenAt : List Str → WindowInfo → Type 0
  OpenAt days i =
      Open i.start i.end now (is_active days (i.location.weekday now))
        (is_active days (i.location.weekday_before now))

  abbrev InfoOpen : List Str → Option WindowInfo → Type 0
  InfoOpen days o = (i : WindowInfo) × (o ≡ some i) × OpenAt days i

  loaded_iff :
      (days : List Str) (o : Option WindowInfo)
      → (opens (evaluate_loaded lib now days o) ≡ true) ↔ InfoOpen days o
  loaded_iff days none = (λ h. cc, λ k. let (i, e, o) = k in cc)
  loaded_iff days (some i) = (
    λ h. (i, refl, (info_iff days i).0 h),
    λ k.
        let (j, e, o) = k in
        let same : j ≡ i = cc in (info_iff days i).1 (subst (OpenAt days) same o),
  )

  window_iff : (w : DisruptionWindow) → (opens (evaluate lib now w) ≡ true) ↔ IsOpen w
  unfolding evaluate
  window_iff w = loaded_iff w.days_of_week (window_info lib now w)

  combine-opens : (a : Answer) (o : Option Answer) → (combine a o).0 ≡ (a.0 || opens o)
  combine-opens a none = ground arith
  combine-opens a (some b) = refl

  from-any :
      (a : Answer) (ws : List DisruptionWindow)
      → (in_windows_from lib now a ws).0 ≡ (a.0 || any (λ w. opens (evaluate lib now w)) ws)
  unfolding in_windows_from
  from-any a [] = ground arith
  from-any a (w ∷ ws) =
      ground
        (arith, from-any (combine a (evaluate lib now w)) ws, combine-opens a (evaluate lib now w))

  -- IsTimeInWindows returns true for some windows exactly if one of them is open: its zone and clock times
  -- are valid, and the moment lies in it on one of its days. Windows with an error are skipped.
  pub is_time_in_windows_iff :
      (w : DisruptionWindow) (ws : List DisruptionWindow)
      → ((is_time_in_windows lib now (w ∷ ws)).0 ≡ true)
        ↔ ((v : DisruptionWindow) × Memᴰ v (w ∷ ws) × IsOpen v)
  unfolding is_time_in_windows
  is_time_in_windows_iff w ws =
      let opened : DisruptionWindow → Bool = λ v. opens (evaluate lib now v) in
      let all_windows = from-any (false, week) (w ∷ ws) in
      (
        λ h.
            let (v, m, k) = any-Mem opened (w ∷ ws) (sym all_windows ∙ h) in
            (v, m, (window_iff v).0 k),
        λ k. let (v, m, o) = k in all_windows ∙ Mem-any opened (w ∷ ws) v m ((window_iff v).1 o),
      )
