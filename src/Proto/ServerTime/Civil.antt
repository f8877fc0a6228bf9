-- ===== src/Proto/ServerTime/Civil.antt =====
-- The calendar conversions of servertime.rs, after Howard Hinnant. `parse` calls
-- `days_from_civil` with a year from 1 to 9999 only, so its year is not negative here, nor is
-- the year before; the result may be.
use obby_client.Base.{
  ℕ, ◌+◌, ◌-◌, ◌*◌, ◌/◌, ◌%◌, ◌≤◌, ◌<◌, ◌≡◌, if◌then◌else◌, ltb, leb, arith, ℤ, pos, sub_ℕ,
  sub_ℕ-le,
}

unfoldable pub shift_year : ℕ → ℕ → ℕ
shift_year year month = if leb month 2 then year - 1 else year

unfoldable pub shift_month : ℕ → ℕ
shift_month month = if ltb 2 month then month - 3 else month + 9

-- The days before `- 719_468`, which makes them days since the epoch.
unfoldable pub days_before_epoch_shift : ℕ → ℕ → ℕ → ℕ
days_before_epoch_shift year shifted_month day =
    let era = year / 400 in
    let year_of_era = year - era * 400 in
    let day_of_year = (153 * shifted_month + 2) / 5 + day - 1 in
    let day_of_era = year_of_era * 365 + year_of_era / 4 - year_of_era / 100 + day_of_year in
    era * 146097 + day_of_era

unfoldable pub days_from_civil : ℕ → ℕ → ℕ → ℤ
days_from_civil year month day =
    sub_ℕ (days_before_epoch_shift (shift_year year month) (shift_month month) day) 719468

unfoldable pub year_of_era : ℕ → ℕ
year_of_era doe = (doe - doe / 1460 + doe / 36524 - doe / 146096) / 365

abbrev year_start : ℕ → ℕ
year_start y = 365 * y + y / 4 - y / 100

-- The year that starts in March, the month counted from March, and the day.
unfoldable pub march_date : ℕ → ℕ × ℕ × ℕ
unfolding year_of_era
march_date days =
    let era_days = days + 719468 in
    let era = era_days / 146097 in
    let day_of_era = era_days % 146097 in
    let year = year_of_era day_of_era in
    let day_of_year = day_of_era - (365 * year + year / 4 - year / 100) in
    let shifted_month = (5 * day_of_year + 2) / 153 in
    (year + era * 400, shifted_month, day_of_year - (153 * shifted_month + 2) / 5 + 1)

from_march : ℕ → ℕ → ℕ → ℕ × ℕ × ℕ
from_march year shifted_month day =
    let month = if ltb shifted_month 10 then shifted_month + 3 else shifted_month - 9 in
    (year + (if leb month 2 then 1 else 0), month, day)

unfoldable pub civil_from_days : ℕ → ℕ × ℕ × ℕ
unfolding march_date from_march
civil_from_days days =
    let (year, shifted_month, day) = march_date days in from_march year shifted_month day

year_of_era_bounds :
    (doe : ℕ)
    → doe < 146097
    → (year_of_era doe ≤ 399)
      × (year_start (year_of_era doe) ≤ doe)
      × (doe ≤ year_start (year_of_era doe) + 365)
unfolding year_of_era
year_of_era_bounds doe h = (omega arith, omega arith, omega arith)

-- The month and day of a day of the year.
month_bounds :
    (d : ℕ)
    → d ≤ 365
    → ((5 * d + 2) / 153 ≤ 11)
      × ((153 * ((5 * d + 2) / 153) + 2) / 5 ≤ d)
      × (d ≤ (153 * ((5 * d + 2) / 153) + 2) / 5 + 30)
month_bounds d h = (omega arith, omega arith, omega arith)

pub record IsMarchDate (days : ℕ) (d : ℕ × ℕ × ℕ) : Type 0 where
  pub month : d.1 ≤ 11
  pub day_pos : 1 ≤ d.2
  pub day_le : d.2 ≤ 31
  pub total : days_before_epoch_shift d.0 d.1 d.2 ≡ days + 719468

march_date_lem :
    (days era doe yoe doy mp : ℕ)
    → days + 719468 ≡ era * 146097 + doe
    → yoe ≤ 399
    → doe ≡ year_start yoe + doy
    → (153 * mp + 2) / 5 ≤ doy
    → days_before_epoch_shift (yoe + era * 400) mp (doy - (153 * mp + 2) / 5 + 1) ≡ days + 719468
unfolding days_before_epoch_shift
march_date_lem days era doe yoe doy mp e y s m =
    let q : (yoe + era * 400) / 400 ≡ era = omega arith in
    let r : yoe + era * 400 - era * 400 ≡ yoe = omega arith in rw (q, r) (omega arith)

march_date-IsMarchDate : (days : ℕ) → IsMarchDate days (march_date days)
unfolding march_date
march_date-IsMarchDate days =
    let doe = (days + 719468) % 146097 in
    let yoe = year_of_era doe in
    let doy = doe - year_start yoe in
    let y : (yoe ≤ 399) × (year_start yoe ≤ doe) × (doe ≤ year_start yoe + 365) =
      year_of_era_bounds doe (omega arith) in
    let m = month_bounds doy (omega arith) in
    record {
      month = m.0;
      day_pos = omega arith;
      day_le = omega arith;
      total =
          march_date_lem days ((days + 719468) / 146097) doe yoe doy ((5 * doy + 2) / 153)
            (omega arith) y.0 (omega arith) m.1;
    }

-- The calendar date that the conversion gives has a month and a day in their ranges.
pub record IsCivil (d : ℕ × ℕ × ℕ) : Type 0 where
  pub month_pos : 1 ≤ d.1
  pub month_le : d.1 ≤ 12
  pub day_pos : 1 ≤ d.2
  pub day_le : d.2 ≤ 31

from_march-IsCivil : (y m d : ℕ) → m ≤ 11 → 1 ≤ d → d ≤ 31 → IsCivil (from_march y m d)
unfolding from_march
from_march-IsCivil y m d h k l = ground arith

pub civil_from_days-IsCivil : (days : ℕ) → IsCivil (civil_from_days days)
unfolding civil_from_days
civil_from_days-IsCivil days =
    let w = march_date-IsMarchDate days in
    let t = march_date days in from_march-IsCivil t.0 t.1 t.2 w.month w.day_pos w.day_le

shift-from_march :
    (y m d : ℕ)
    → m ≤ 11
    → (shift_year (from_march y m d).0 (from_march y m d).1 ≡ y)
      × (shift_month (from_march y m d).1 ≡ m)
unfolding shift_year shift_month from_march
shift-from_march y m d h = ground arith

days-from_march :
    (days y m d : ℕ)
    → m ≤ 11
    → days_before_epoch_shift y m d ≡ days + 719468
    → (let c = from_march y m d in days_from_civil c.0 c.1 c.2) ≡ pos days
unfolding days_from_civil from_march
days-from_march days y m d h e =
    let (p, q) = shift-from_march y m d h in rw (p, q) (rw e (sub_ℕ-le days 719468))

-- Every day from the epoch on is the day of its calendar date.
pub days_from_civil-civil_from_days :
    (days : ℕ) → (let c = civil_from_days days in days_from_civil c.0 c.1 c.2) ≡ pos days
unfolding civil_from_days
days_from_civil-civil_from_days days =
    let w = march_date-IsMarchDate days in
    let t = march_date days in days-from_march days t.0 t.1 t.2 w.month w.total

year_le :
    (era doe yoe : ℕ)
    → era * 146097 + doe ≤ 3652364
    → 719468 ≤ era * 146097 + doe
    → doe < 146097
    → yoe ≤ 399
    → year_start yoe ≤ doe
    → (1 ≤ yoe + era * 400)
      × (yoe + era * 400 ≤ 9999)
      × (10 ≤ (5 * (doe - year_start yoe) + 2) / 153 → yoe + era * 400 ≤ 9998)
year_le era doe yoe h k d y s = (omega arith, omega arith, λ m. omega arith)

from_march-year :
    (y m d : ℕ)
    → 1 ≤ y
    → y ≤ 9999
    → (10 ≤ m → y ≤ 9998)
    → (1 ≤ (from_march y m d).0) × ((from_march y m d).0 ≤ 9999)
unfolding from_march
from_march-year y m d h k l = ground arith

-- Before the year 10000 the year has four digits at most.
pub civil_from_days-year :
    (days : ℕ) → days < 2932897 → (1 ≤ (civil_from_days days).0) × ((civil_from_days days).0 ≤ 9999)
unfolding civil_from_days march_date
civil_from_days-year days h =
    let doe = (days + 719468) % 146097 in
    let b : (year_of_era doe ≤ 399)
        × (year_start (year_of_era doe) ≤ doe)
        × (doe ≤ year_start (year_of_era doe) + 365) =
      year_of_era_bounds doe (omega arith) in
    let w =
      year_le ((days + 719468) / 146097) doe (year_of_era doe) (omega arith) (omega arith)
        (omega arith) b.0 b.1 in
    from_march-year (year_of_era doe + (days + 719468) / 146097 * 400)
      ((5 * (doe - year_start (year_of_era doe)) + 2) / 153)
      (doe
        - year_start (year_of_era doe)
        - (153 * ((5 * (doe - year_start (year_of_era doe)) + 2) / 153) + 2) / 5
        + 1)
      w.0 w.1 w.2
