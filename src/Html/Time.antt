-- ===== src/Html/Time.antt =====
-- `formatTime` of src/html.ts: a date as text in UTC. The year, month and day of a count of
-- milliseconds since the epoch are JavaScript's.
use gwsdb.Prelude.{
  ℕ, ◌+◌, ◌-◌, ◌*◌, ◌/◌, ◌%◌, Text, codes, Option, none, some, [], ◌∷◌, ltb, if◌then◌else◌,
}
use gwsdb.IpAddr.Hex.{pad_start}
use gwsdb.Dns.Asn.{decimal_text}
use gwsdb.Markup.{template}

pub record CivilDate : Type 0 where
  pub year : ℕ
  pub month : ℕ
  pub day : ℕ

-- The date of a day, counted from 1970: `n` counts days from the first of March of year 0, and the
-- years run from March, in eras of 400.
unfoldable pub civil_date : ℕ → CivilDate
civil_date days =
    let n = days + 719468 in
    let era = n / 146097 in
    let of_era = n % 146097 in
    let years = (of_era - of_era / 1460 + of_era / 36524 - of_era / 146096) / 365 in
    let of_year = of_era - (365 * years + years / 4 - years / 100) in
    let from_march = (5 * of_year + 2) / 153 in
    let month = if ltb from_march 10 then from_march + 3 else from_march - 9 in
    let started = years + era * 400 in
    record {
      year = if ltb month 3 then started + 1 else started;
      month = month;
      day = of_year - (153 * from_march + 2) / 5 + 1;
    }

abbrev pad : ℕ → Text
pad n = pad_start 2 b'0' (decimal_text n)

unfoldable pub format_time : Option ℕ → Text
unfolding civil_date pad_start decimal_text template
format_time none = codes "-"
format_time (some ms) =
    let date = civil_date (ms / 86_400_000) in
    template (
      decimal_text date.year
      ∷ codes "-"
      ∷ pad date.month
      ∷ codes "-"
      ∷ pad date.day
      ∷ codes " "
      ∷ pad (ms / 3_600_000 % 24)
      ∷ codes ":"
      ∷ pad (ms / 60_000 % 60)
      ∷ codes ":"
      ∷ pad (ms / 1000 % 60)
      ∷ [])
