-- ===== src/Clock.antt =====
-- `datetime.fromtimestamp(t, tz=timezone.utc).isoformat()` of the standard library, for a time in
-- microseconds since the epoch: the civil date of a day number, and the text of date and time.
use Prim.Native.String
use mcp_control_plane.Prelude.{
  ℕ, ◌+◌, ◌-◌, ◌*◌, ◌/◌, ◌%◌, String, [], ◌∷◌, ltb, leb, nat_eq, concat, if◌then◌else◌,
}
use mcp_control_plane.Json.{decimal}

abbrev pub second : ℕ
second = 1000000

pub record Civil : Type 0 where
  pub year : ℕ
  pub month : ℕ
  pub day : ℕ

-- The day number counts from 1970-01-01; years are counted from March inside a cycle of 400.
unfoldable pub civil_of_days : ℕ → Civil
civil_of_days days =
    let z = days + 719468 in
    let doe = z % 146097 in
    let yoe = (doe - doe / 1460 + doe / 36524 - doe / 146096) / 365 in
    let doy = doe - (365 * yoe + yoe / 4 - yoe / 100) in
    let mp = (5 * doy + 2) / 153 in
    let m : ℕ = if ltb mp 10 then mp + 3 else mp - 9 in
    record {
      year = yoe + z / 146097 * 400 + (if leb m 2 then 1 else 0);
      month = m;
      day = doy - (153 * mp + 2) / 5 + 1;
    }

padded2 : ℕ → String
padded2 n = if ltb n 10 then String.◌++◌ "0" (decimal n) else decimal n

padded3 : ℕ → String
unfolding padded2
padded3 n = if ltb n 100 then String.◌++◌ "0" (padded2 n) else decimal n

-- the microseconds of a second, left out where they are 0
fraction : ℕ → String
unfolding padded3
fraction us =
    if nat_eq us 0 then "" else concat ("." ∷ padded3 (us / 1000) ∷ padded3 (us % 1000) ∷ [])

padded4 : ℕ → String
unfolding padded3
padded4 n = if ltb n 1000 then String.◌++◌ "0" (padded3 n) else decimal n

unfoldable pub isoformat : ℕ → String
unfolding civil_of_days padded4 padded3 padded2 fraction decimal
isoformat t =
    let s = t / second in
    let c = civil_of_days (s / 86400) in
    concat (
      padded4 c.year
      ∷ "-"
      ∷ padded2 c.month
      ∷ "-"
      ∷ padded2 c.day
      ∷ "T"
      ∷ padded2 (s % 86400 / 3600)
      ∷ ":"
      ∷ padded2 (s % 3600 / 60)
      ∷ ":"
      ∷ padded2 (s % 60)
      ∷ fraction (t % second)
      ∷ "+00:00"
      ∷ [])

-- `.date().isoformat()` of a UTC time
unfoldable pub date_text : ℕ → String
unfolding civil_of_days padded4 padded3 padded2 decimal
date_text t =
    let c = civil_of_days (t / second / 86400) in
    concat (padded4 c.year ∷ "-" ∷ padded2 c.month ∷ "-" ∷ padded2 c.day ∷ [])

-- `strftime("%Y-%m-%dT%H:%M:%SZ")` of a UTC time
unfoldable pub utc_stamp : ℕ → String
unfolding civil_of_days padded4 padded3 padded2 decimal
utc_stamp t =
    let s = t / second in
    let c = civil_of_days (s / 86400) in
    concat (
      padded4 c.year
      ∷ "-"
      ∷ padded2 c.month
      ∷ "-"
      ∷ padded2 c.day
      ∷ "T"
      ∷ padded2 (s % 86400 / 3600)
      ∷ ":"
      ∷ padded2 (s % 3600 / 60)
      ∷ ":"
      ∷ padded2 (s % 60)
      ∷ "Z"
      ∷ [])
