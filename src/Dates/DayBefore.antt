-- ===== src/Dates/DayBefore.antt =====
-- The day before a day (src/reporting/cash-flow.service.ts, general-ledger.service.ts).
use accounting_api.Common.{
  ℕ, ◌≡◌, ◌≢◌, ◌∙◌, sym, ap, ◌≤◌, ◌<◌, false, not, refl, arith, leb, ltb, ltb→lt, ==_iff,
  Bool-cases, inl, inr, ◌==◌, ◌+◌, ◌*◌, ◌-◌,
}
use accounting_api.Dates.{
  Date, IsDate, days_in_month, day_key, key, leb_date, utc_year, is_leap, truncate_to_utc_day,
  day_before,
}
use accounting_api.Dates.FiscalYear.{utc_year-late}

-- What a `@db.Date` column holds.
pub record IsDay (d : Date) : Type 0 where
  pub is_date : IsDate d
  pub midnight : d.time ≡ 0

days_in_month-le : (y m : ℕ) → days_in_month y m ≤ 31
unfolding days_in_month
days_in_month-le y m = ground arith

december : (y : ℕ) → days_in_month y 12 ≡ 31
unfolding days_in_month
december y = refl

-- A date before the end of a month is at most the month's last day.
last_day :
    (e : Date) (y m : ℕ)
    → IsDate e
    → 1 ≤ m
    → m ≤ 12
    → day_key e < (y * 12 + m) * 31
    → day_key e ≤ (y * 12 + (m - 1)) * 31 + (days_in_month y m - 1)
last_day e y m he h1 h2 below =
    let month_in = he.month_in in
    let day_in = he.day_in in
    elim (Bool-cases (e.year * 12 + e.month == y * 12 + m)) [
      | inl same ↦
          let sum = (==_iff (e.year * 12 + e.month) (y * 12 + m)).0 same in
          let year_is : e.year ≡ y = omega (arith, sum, month_in, h1, h2) in
          let month_is : e.month ≡ m = omega (arith, sum, month_in, h1, h2) in
          let within : e.day ≤ days_in_month y m = rw (year_is, month_is) at day_in.1 in
          omega (arith, sum, within, day_in.0, month_in, h1)
      | inr other ↦
          let day_small = days_in_month-le e.year e.month in
          let apart : e.year * 12 + e.month < y * 12 + m =
            ground (arith, below, other, month_in, h1) in
          omega (arith, apart, day_in, day_small, month_in, h1)
    ]

first_day : (n : ℕ) → 1 ≤ n → ltb 1 n ≡ false → n ≡ 1
first_day n h k = ground arith

-- The two instants at midnight.
before_key :
    (e f : Date)
    → IsDay e
    → IsDay f
    → 1 ≤ f.year
    → (day_key e ≤ day_key (day_before f) → day_key e < day_key f)
      × (day_key e < day_key f → day_key e ≤ day_key (day_before f))
unfolding day_before
before_key e f he hf h =
    let m_in = hf.is_date.month_in in
    let d_in = hf.is_date.day_in in
    let e_in = he.is_date.month_in in
    elim (Bool-cases (ltb 1 f.day)) [
      | inl t ↦ let later = ltb→lt 1 f.day t in rw t (λ k. omega arith, λ k. omega arith)
      | inr first ↦ elim (Bool-cases (ltb 1 f.month)) [
        | inl t ↦
            let later = ltb→lt 1 f.month t in
            let small = days_in_month-le f.year (f.month - 1) in
            let one = first_day f.day d_in.0 first in
            rw (first, t)
              (
                λ k. omega arith,
                λ k.
                    last_day e f.year (f.month - 1) he.is_date (omega arith) (omega arith)
                      (omega arith),
              )
        | inr t ↦
            let one = first_day f.day d_in.0 first in
            let january = first_day f.month m_in.0 t in
            rw (first, t)
              (
                λ k. omega arith,
                λ k.
                    let last =
                      last_day e (f.year - 1) 12 he.is_date (omega arith) (omega arith)
                        (omega arith) in
                    omega (arith, last, december (f.year - 1)),
              )
      ]
    ]

compare_swap : (a b c : ℕ) → (a ≤ b → a < c) → (a < c → a ≤ b) → leb a b ≡ not (leb c a)
compare_swap a b c h k = ground arith

pub day_before-midnight : (f : Date) → f.time ≡ 0 → (day_before f).time ≡ 0
unfolding day_before
day_before-midnight f h = ground (arith, h)

-- A day is at most the day before another just when it is not at or after that one.
pub leb_date-day_before :
    (e f : Date) → IsDay e → IsDay f → 1 ≤ f.year → leb_date e (day_before f) ≡ not (leb_date f e)
leb_date-day_before e f he hf h =
    let keys = before_key e f he hf h in
    let at_midnight = he.midnight in
    let f_midnight = hf.midnight in
    let b_midnight : (day_before f).time ≡ 0 = day_before-midnight f hf.midnight in
    compare_swap (key e) (key (day_before f)) (key f)
      (λ k. let d = keys.0 (omega arith) in omega arith)
      (λ k. let d = keys.1 (omega arith) in omega arith)

-- The year that `Date.UTC` makes of 1 to 99 has the same leap day.
utc_year-days_in_month : (y m : ℕ) → 1 ≤ y → days_in_month (utc_year y) m ≡ days_in_month y m
unfolding days_in_month is_leap
utc_year-days_in_month y m h = ground (arith, h)

pub midnight-IsDay : (from : Date) → IsDate from → 1 ≤ from.year → IsDay (truncate_to_utc_day from)
unfolding truncate_to_utc_day
midnight-IsDay from h later = record {
  is_date = record {
    month_in = h.month_in;
    day_in = rw (utc_year-days_in_month from.year from.month later) h.day_in;
    time_in = omega arith;
  };
  midnight = refl;
}

pub truncate_to_utc_day-same : (d : Date) → d.time ≡ 0 → 100 ≤ d.year → truncate_to_utc_day d ≡ d
unfolding truncate_to_utc_day
truncate_to_utc_day-same d h later =
    ap (λ y. record d { year = y; time = 0 }) (utc_year-late d.year later)
    ∙ ap (λ t. record d { time = t }) (sym h)

pub truncated_twice :
    (from : Date) → truncate_to_utc_day (truncate_to_utc_day from) ≡ truncate_to_utc_day from
unfolding truncate_to_utc_day
truncated_twice from =
    ap (λ y. record from { year = y; time = 0 }) (utc_year-late (utc_year from.year) (ground arith))

-- But for dates of the year 100, the day before a date's day is of the year 100 or later.
pub day_before-late :
    (from : Date)
    → 1 ≤ from.year
    → from.year ≢ 100
    → 100 ≤ (day_before (truncate_to_utc_day from)).year
unfolding day_before truncate_to_utc_day
day_before-late from h k = ground (arith, h, k)

pub truncate_to_utc_day-year : (from : Date) → 1 ≤ from.year → 1 ≤ (truncate_to_utc_day from).year
unfolding truncate_to_utc_day
truncate_to_utc_day-year from h = ground (arith, h)
