-- ===== src/Calendar/Civil.antt =====
-- The dates are those of the Gregorian calendar.
use respawn.Base.{
  ℕ, ◌+◌, ◌-◌, ◌*◌, ◌/◌, ◌%◌, ◌≤◌, ◌<◌, Bool-cases, ltb→lt, ltb, if◌then◌else◌, Bool, true, false,
  not, ◌&&◌, ◌||◌, ◌==◌, nat_eq, ◌⊎◌, inl, inr, sym, ap, ◌∙◌, ◌≡◌, refl, arith,
}
use mathlib.Core.Path.{subst}
use respawn.Calendar.{Ymd, year_of_era, day_of_year, month_day, days_to_ymd}

year_of_era_bounds :
    (doe : ℕ)
    → doe < 146_097
    → (year_of_era doe ≤ 399)
      × (365 * year_of_era doe + year_of_era doe / 4 - year_of_era doe / 100 ≤ doe)
unfolding year_of_era
year_of_era_bounds doe h = (omega arith, omega arith)

month_day_bounds :
    (y doy : ℕ)
    → doy ≤ 365
    → (1 ≤ (month_day y doy).month)
      × ((month_day y doy).month ≤ 12)
      × (1 ≤ (month_day y doy).day)
      × ((month_day y doy).day ≤ 31)
unfolding month_day
month_day_bounds y doy h = (ground arith, ground arith, ground arith, ground arith)

-- The Gregorian calendar.
abbrev pub is_leap : ℕ → Bool
is_leap y = (y % 4 == 0 && not (y % 100 == 0)) || y % 400 == 0

abbrev pub days_in_month : ℕ → ℕ → ℕ
days_in_month y m =
    if m == 2
    then (if is_leap y then 29 else 28)
    else if m == 4 || m == 6 || m == 9 || m == 11
    then 30
    else 31

abbrev pub next_day : Ymd → Ymd
next_day d =
    if ltb d.day (days_in_month d.year d.month)
    then record d { day = d.day + 1 }
    else if ltb d.month 12
    then record { year = d.year; month = d.month + 1; day = 1 }
    else record { year = d.year + 1; month = 1; day = 1 }

day_step :
    (doe : ℕ)
    → doe + 1 < 146_097
    → ((year_of_era (doe + 1) ≡ year_of_era doe) × (day_of_year (doe + 1) ≡ day_of_year doe + 1))
      ⊎ ((year_of_era (doe + 1) ≡ year_of_era doe + 1) × (day_of_year (doe + 1) ≡ 0))
unfolding day_of_year year_of_era
day_step doe h = ground arith

-- A year of 366 days, counted from March 1, is one whose February has 29 days.
year_end :
    (doe : ℕ)
    → doe < 146_097
    → (day_of_year doe ≤ 364) ⊎ ((day_of_year doe ≡ 365) × (is_leap (year_of_era doe + 1) ≡ true))
unfolding day_of_year year_of_era
year_end doe h = ground arith

year_change :
    (doe : ℕ)
    → doe + 1 < 146_097
    → day_of_year (doe + 1) ≡ 0
    → (day_of_year doe ≡ 365) ⊎ ((day_of_year doe ≡ 364) × (is_leap (year_of_era doe + 1) ≡ false))
unfolding day_of_year year_of_era
year_change doe h e = ground arith

is_leap_era : (y e : ℕ) → is_leap (y + e * 400) ≡ is_leap y
is_leap_era y e = ground arith

month_step : (y doy : ℕ) → doy < 364 → next_day (month_day y doy) ≡ month_day y (doy + 1)
unfolding month_day
month_step y doy h = ground arith

february_28 : (y : ℕ) → is_leap (y + 1) ≡ true → next_day (month_day y 364) ≡ month_day y 365
unfolding month_day nat_eq
february_28 y h = rw h refl

february_29 : (y : ℕ) → is_leap (y + 1) ≡ true → next_day (month_day y 365) ≡ month_day (y + 1) 0
unfolding month_day nat_eq
february_29 y h = rw h refl

february_end : (y : ℕ) → is_leap (y + 1) ≡ false → next_day (month_day y 364) ≡ month_day (y + 1) 0
unfolding month_day nat_eq
february_end y h = rw h refl

leap_year : (yoe era : ℕ) (b : Bool) → is_leap (yoe + 1) ≡ b → is_leap (yoe + era * 400 + 1) ≡ b
leap_year yoe era b h =
    let same : yoe + era * 400 + 1 ≡ yoe + 1 + era * 400 = omega arith in
    ap is_leap same ∙ is_leap_era (yoe + 1) era ∙ h

-- The day after a day of an era.
era_step :
    (era doe : ℕ)
    → doe + 1 < 146_097
    → next_day (month_day (year_of_era doe + era * 400) (day_of_year doe))
      ≡ month_day (year_of_era (doe + 1) + era * 400) (day_of_year (doe + 1))
era_step era doe h =
    let yoe = year_of_era doe in
    let y = yoe + era * 400 in
    let next_year : yoe + 1 + era * 400 ≡ y + 1 = omega arith in
    elim (day_step doe h) [
      | inl (same, next) ↦
          rw (same, next)
            (elim (year_end (doe + 1) h) [
              | inl early ↦ month_step y (day_of_year doe) (omega arith)
              | inr (late, is_so) ↦
                  let last : day_of_year doe ≡ 364 = omega arith in
                  let leap = subst (λ v. is_leap (v + 1) ≡ true) same is_so in
                  rw last (february_28 y (leap_year yoe era true leap))
            ])
      | inr (later, first) ↦
          rw (later, first, next_year)
            (elim (year_change doe h first) [
              | inl late ↦ elim (year_end doe (omega arith)) [
                | inl early ↦ absurd (omega arith)
                | inr (last, leap) ↦ rw last (february_29 y (leap_year yoe era true leap))
              ]
              | inr (last, common) ↦ rw last (february_end y (leap_year yoe era false common))
            ])
    ]

-- The last day of an era is February 29.
era_end :
    (era : ℕ)
    → next_day (month_day (year_of_era 146_096 + era * 400) (day_of_year 146_096))
      ≡ month_day (year_of_era 0 + (era + 1) * 400) (day_of_year 0)
unfolding nat_eq year_of_era day_of_year
era_end era =
    let next_year : 0 + (era + 1) * 400 ≡ 399 + era * 400 + 1 = omega arith in
    rw next_year (february_29 (399 + era * 400) (leap_year 399 era true refl))

day_after : (days : ℕ) → next_day (days_to_ymd days) ≡ days_to_ymd (days + 1)
unfolding days_to_ymd
day_after days =
    let era = (days + 719_468) / 146_097 in
    let doe = (days + 719_468) % 146_097 in
    elim (Bool-cases (ltb (doe + 1) 146_097)) [
      | inl within ↦
          let h = ltb→lt _ _ within in
          let next : (days + 1 + 719_468) % 146_097 ≡ doe + 1 = omega arith in
          let same : (days + 1 + 719_468) / 146_097 ≡ era = omega arith in
          rw (next, same) (era_step era doe h)
      | inr last ↦
          let end : doe ≡ 146_096 = ground arith in
          let next : (days + 1 + 719_468) % 146_097 ≡ 0 = omega arith in
          let later : (days + 1 + 719_468) / 146_097 ≡ era + 1 = omega arith in
          rw (next, later, end) (era_end era)
    ]

epoch : days_to_ymd 0 ≡ record { year = 1970; month = 1; day = 1 }
unfolding days_to_ymd month_day year_of_era day_of_year
epoch = refl

-- The epoch is January 1, 1970, and the date of each day is the one that follows the date of the
-- day before in the Gregorian calendar.
pub days_to_ymd-suc :
    (days : ℕ)
    → (days_to_ymd 0 ≡ record { year = 1970; month = 1; day = 1 })
      × (days_to_ymd (days + 1) ≡ next_day (days_to_ymd days))
days_to_ymd-suc days = (epoch, sym (day_after days))

-- A date has a month from 1 to 12 and a day from 1 to 31.
pub days_to_ymd-IsDate :
    (days : ℕ)
    → (1 ≤ (days_to_ymd days).month)
      × ((days_to_ymd days).month ≤ 12)
      × (1 ≤ (days_to_ymd days).day)
      × ((days_to_ymd days).day ≤ 31)
unfolding days_to_ymd
days_to_ymd-IsDate days =
    let doe = (days + 719_468) % 146_097 in
    month_day_bounds _ (day_of_year doe) (elim (year_end doe (omega arith)) [
      | inl early ↦ omega arith
      | inr (late, leap) ↦ omega arith
    ])
