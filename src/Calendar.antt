-- ===== src/Calendar.antt =====
-- The standard library's `time.UnixMilli(t).Format("2006-01-02")`, in UTC.
use Prim.Native.String.{◌++◌}
use theme_park_nftengine.Prelude.{ℕ, ◌+◌, ◌-◌, ◌*◌, ◌/◌, ◌%◌, String, ltb, if◌then◌else◌, ◌≡◌, refl}
use theme_park_nftengine.Text.{itoa}

pub record Date : Type 0 where
  pub year : ℕ
  pub month : ℕ
  pub day : ℕ

-- The date of a day, counted from 1970-01-01, over eras of 400 years that begin in March.
civil : ℕ → Date
civil days =
    let z = days + 719468 in
    let doe = z % 146097 in
    let yoe = (doe - doe / 1460 + doe / 36524 - doe / 146096) / 365 in
    let doy = doe - (365 * yoe + yoe / 4 - yoe / 100) in
    let mp = (5 * doy + 2) / 153 in
    let m = (if ltb mp 10 then mp + 3 else mp - 9) in
    record {
      year = yoe + z / 146097 * 400 + (if ltb m 3 then 1 else 0);
      month = m;
      day = doy - (153 * mp + 2) / 5 + 1;
    }

padded : ℕ → String
unfolding itoa
padded n = if ltb n 10 then "0" ++ itoa n else itoa n

-- `YYYY-MM-DD`.
unfoldable pub date_of : ℕ → String
unfolding civil padded
date_of ms =
    let d = civil (ms / 86400000) in
    itoa d.year ++ ("-" ++ (padded d.month ++ ("-" ++ padded d.day)))

date_of_epoch : date_of 0 ≡ "1970-01-01"
unfolding date_of
date_of_epoch = refl

date_of_leap_day : date_of 1709164800000 ≡ "2024-02-29"
unfolding date_of
date_of_leap_day = refl
