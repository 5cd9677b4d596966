-- ===== src/Mapping/Dates.antt =====
-- `iso` of mapping.py: `datetime.fromtimestamp(t, tz=utc).isoformat()` on integers, with CPython's
-- conversion of a day number to a date.
pub mod RoundTrip
use algorandscout.Prelude.{
  Bool, List, Text, [], false, if◌then◌else◌, length, ltb, not, replicate, ℕ, ◌%◌, ◌&&◌, ◌*◌, ◌++◌,
  ◌+◌, ◌-◌, ◌/◌, ◌==◌, ◌||◌, ◌∷◌,
}
use algorandscout.Prelude.Int.{negsuc, pos, pos_part, ℤ, ◌+ℤ◌}
use algorandscout.Python.{Result, Value, as_int, null, ok, raise, text, timestamp_error, ◌>>=◌}
use algorandscout.Python.Decimal.{str_ℕ}

-- The days of each month.
abbrev pub month_lengths : Bool → List ℕ
month_lengths leap =
    31 ∷ (if leap then 29 else 28) ∷ 31 ∷ 30 ∷ 31 ∷ 30 ∷ 31 ∷ 31 ∷ 30 ∷ 31 ∷ 30 ∷ 31 ∷ []

-- Month and day, both from 1, of day `n` of a year, from 0; `m` is the month of the list's head.
unfoldable pub month_day : ℕ → List ℕ → ℕ → ℕ × ℕ
month_day m [] n = (m, n + 1)
month_day m (l ∷ ls) n =
    let later = month_day (m + 1) ls (n - l) in if ltb n l then (m, n + 1) else later

-- Year, month and day of day `n`, where day 0 is 1 January of year 1.
unfoldable pub civil : ℕ → ℕ × ℕ × ℕ
unfolding month_day
civil n =
    let n400 = n / 146097 in
    let r400 = n % 146097 in
    let n100 = r400 / 36524 in
    let r100 = r400 % 36524 in
    let n4 = r100 / 1461 in
    let r4 = r100 % 1461 in
    let n1 = r4 / 365 in
    let r1 = r4 % 365 in
    let year = n400 * 400 + 1 + n100 * 100 + n4 * 4 + n1 in
    if n1 == 4 || n100 == 4
    then (year - 1, 12, 31)
    else (let leap = n1 == 3 && (not (n4 == 24) || n100 == 3) in
        let (m, d) = month_day 1 (month_lengths leap) r1 in (year, m, d))

abbrev pub zero_filled : ℕ → ℕ → Text
zero_filled width n = let s = str_ℕ n in replicate (width - length s) b'0' ++ s

-- Seconds from 1 January of year 1 to the Unix epoch, and to the end of year 9999.
abbrev pub epoch : ℕ
epoch = 62135596800

abbrev pub end_of_time : ℕ
end_of_time = 315537897600

-- The text for a second counted from year 1; `isoformat` ends in `+00:00`, which becomes `Z`.
unfoldable pub iso_text : ℕ → Text
unfolding civil
iso_text t =
    let (y, m, d) = civil (t / 86400) in
    let s = t % 86400 in
    zero_filled 4 y
    ++ b'-' ∷ zero_filled 2 m
    ++ b'-' ∷ zero_filled 2 d
    ++ b'T' ∷ zero_filled 2 (s / 3600)
    ++ b':' ∷ zero_filled 2 (s / 60 % 60)
    ++ b':' ∷ zero_filled 2 (s % 60)
    ++ b'Z' ∷ []

abbrev pub is_in_range : ℤ → Bool
is_in_range (pos n) = ltb n end_of_time
is_in_range (negsuc n) = false

unfoldable pub iso : Value → Result Value
unfolding iso_text
iso null = ok null
iso timestamp = do
  t ← as_int timestamp
  let shifted = t +ℤ pos epoch
  if is_in_range shifted then ok (text (iso_text (pos_part shifted))) else raise timestamp_error
