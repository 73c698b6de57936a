-- ===== src/Common/Dates.antt =====
-- The calendar year of an instant, as `Date.prototype.getUTCFullYear` gives it for a number of
-- milliseconds since 1970: the years are counted from March, in eras of 400 years.
use edu_gear_back_end.Common.{leb, if◌then◌else◌, ℕ, ◌+◌, ◌-◌, ◌*◌, ◌/◌, ◌%◌, ◌≡◌, refl}

unfoldable pub utc_full_year : ℕ → ℕ
utc_full_year instant =
    let z = instant / 86400000 + 719468 in
    let doe = z % 146097 in
    let yoe = (doe - doe / 1460 + doe / 36524 - doe / 146096) / 365 in
    let doy = doe - (365 * yoe + yoe / 4 - yoe / 100) in
    yoe + 400 * (z / 146097) + (if leb 10 ((5 * doy + 2) / 153) then 1 else 0)

-- `Date.prototype.getUTCDay`: 0 is Sunday; 1 January 1970 was a Thursday.
unfoldable pub utc_day : ℕ → ℕ
utc_day instant = (instant / 86400000 + 4) % 7

-- The turn of a year, and a leap day.
utc_full_year_tests :
    (utc_full_year 1767225599999 ≡ 2025)
    × (utc_full_year 1767225600000 ≡ 2026)
    × (utc_full_year 1709164800000 ≡ 2024)
unfolding utc_full_year
utc_full_year_tests = (refl, refl, refl)
