-- ===== src/Temporal.antt =====
-- internal/utils/temporal.go: whether the current time lies in a disruption window. Times are numbers of
-- nanoseconds since some moment, durations integers of nanoseconds.
pub mod Windows
pub mod Choice
use workload_class.Prelude.{
  ℕ, ◌+◌, ◌*◌, ◌^◌, Bool, true, false, not, ◌&&◌, ◌||◌, Option, none, some, List, [], ◌∷◌, ltb,
  nat_beq, contains, ◌==◌, str_eq, Str, lit, if◌then◌else◌,
}
use workload_class.Prelude.Int.{ℤ, pos, negsuc, sub_ℕ, ltb_ℤ}
use workload_class.Api.{DisruptionWindow}

abbrev pub hour : ℕ
hour = 3600 * 10 ^ 9

abbrev pub day : ℕ
day = 24 * hour

abbrev pub week : ℤ
week = pos (24 * 7 * hour)

-- The package time, for a loaded location: the weekday of a moment, that of the day before, and the moment
-- of an hour and minute on the local day of a moment.
pub record Location : Type 0 where
  pub weekday : ℕ → Str
  pub weekday_before : ℕ → Str
  pub at : ℕ → ℕ × ℕ → ℕ

-- time.LoadLocation, and time.Parse with the layout 15:04, which gives the hour and the minute.
pub record TimeLib : Type 0 where
  pub load_location : Str → Option Location
  pub parse_clock : Str → Option (ℕ × ℕ)

-- A bool and a duration, which the functions return together.
abbrev pub Answer : Type 0
Answer = Bool × ℤ

abbrev pub min : ℤ → ℤ → ℤ
min a b = if ltb_ℤ b a then b else a

-- evaluateCrossMidnightWindow
unfoldable pub evaluate_cross_midnight_window : ℕ → ℕ → ℕ → Bool → Bool → Answer
evaluate_cross_midnight_window start end now today_active yesterday_active =
    if today_active && ltb start now
    then (true, sub_ℕ (end + day) now)
    else if yesterday_active && ltb now end
    then (true, sub_ℕ end now)
    else if today_active && ltb now start
    then (false, sub_ℕ start now)
    else (false, week)

-- evaluateSameDayWindow
unfoldable pub evaluate_same_day_window : ℕ → ℕ → ℕ → Answer
evaluate_same_day_window start end now =
    if (ltb start now && ltb now end) || nat_beq start end
    then (true, sub_ℕ end now)
    else if ltb now start
    then (false, min week (sub_ℕ start now))
    else (false, week)

-- evaluateWindow
unfoldable pub evaluate_window : ℕ → ℕ → ℕ → Bool → Bool → Answer
evaluate_window start end now today_active yesterday_active =
    if ltb end start
    then evaluate_cross_midnight_window start end now today_active yesterday_active
    else if not today_active
    then (false, week)
    else evaluate_same_day_window start end now

-- isLocalTimeZone
unfoldable pub is_local_time_zone : Str → Bool
is_local_time_zone time_zone = (time_zone == lit "Local") || (time_zone == lit "local")

abbrev pub location_name : Str → Str
location_name [] = lit "Etc/UTC"
location_name (c ∷ cs) = c ∷ cs

pub record WindowInfo : Type 0 where
  pub start : ℕ
  pub end : ℕ
  pub location : Location

abbrev pub no_days : List Str → Bool
no_days [] = true
no_days (d ∷ ds) = false

abbrev pub is_active : List Str → Str → Bool
is_active days weekday = no_days days || contains days weekday

abbrev pub combine : Answer → Option Answer → Answer
combine a none = a
combine (in_window, min_wait) (some (in_current, wait)) =
    (in_window || in_current, min min_wait wait)

module _ (lib : TimeLib) where
  -- TimeZoneValid
  unfoldable pub time_zone_valid : Str → Bool
  time_zone_valid time_zone =
      if is_local_time_zone time_zone
      then false
      else elim (lib.load_location time_zone) [ none ↦ false | some l ↦ true ]

module _ (lib : TimeLib) (now : ℕ) where
  abbrev pub anchored : Option Location → Option (ℕ × ℕ) → Option (ℕ × ℕ) → Option WindowInfo
  anchored (some l) (some start) (some end) =
      some (record { start = l.at now start; end = l.at now end; location = l })
  anchored _ _ _ = none

  -- windowInfo; none is an error.
  unfoldable pub window_info : DisruptionWindow → Option WindowInfo
  window_info w =
      if is_local_time_zone (location_name w.time_zone)
      then none
      else anchored (lib.load_location (location_name w.time_zone)) (lib.parse_clock w.start_time)
          (lib.parse_clock w.end_time)

  -- The body of the loop of IsTimeInWindows behind the error; none continues with the next window.
  unfoldable pub evaluate_info : List Str → WindowInfo → Option Answer
  evaluate_info days i =
      let today_active = is_active days (i.location.weekday now) in
      let yesterday_active = is_active days (i.location.weekday_before now) in
      if not today_active && not yesterday_active
      then none
      else some (evaluate_window i.start i.end now today_active yesterday_active)

  abbrev pub evaluate_loaded : List Str → Option WindowInfo → Option Answer
  evaluate_loaded days none = none
  evaluate_loaded days (some i) = evaluate_info days i

  unfoldable pub evaluate : DisruptionWindow → Option Answer
  evaluate w = evaluate_loaded w.days_of_week (window_info w)

  -- The loop.
  unfoldable pub in_windows_from : Answer → List DisruptionWindow → Answer
  in_windows_from a [] = a
  in_windows_from a (w ∷ ws) = in_windows_from (combine a (evaluate w)) ws

  -- IsTimeInWindows
  unfoldable pub is_time_in_windows : List DisruptionWindow → Answer
  is_time_in_windows [] = (true, pos 0)
  is_time_in_windows (w ∷ ws) = in_windows_from (false, week) (w ∷ ws)
