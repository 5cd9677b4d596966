-- ===== src/Mapping/Days.antt =====
-- The dates of mapping.py's `iso` against the rules of the calendar.
use algorandscout.Mapping.Dates.{civil, month_day, month_lengths}
use algorandscout.Prelude.{
  Bool, Bool-cases, List, [], arith, false, if◌then◌else◌, inl, inr, length, ltb, not, refl, suc,
  true, zero, ℕ, ◌%◌, ◌&&◌, ◌*◌, ◌+◌, ◌-◌, ◌/◌, ◌<◌, ◌==◌, ◌||◌, ◌↔◌, ◌∙◌, ◌∷◌, ◌≡◌, ◌≢◌, ◌≤◌,
}

-- The days before a year, from 1 January of year 1, by the leap years before it.
abbrev pub days_before_year : ℕ → ℕ
days_before_year year = let y = year - 1 in (365 * y + y / 4 + y / 400) - y / 100

-- A leap year by the rule: divisible by 4, and by 400 if it is by 100.
abbrev pub is_leap : ℕ → Bool
is_leap year = (year % 4 == 0) && (not (year % 100 == 0) || year % 400 == 0)

-- The days before a month of a year, the months from 1.
abbrev pub days_before_month : List ℕ → ℕ → ℕ
days_before_month lengths zero = 0
days_before_month [] (suc m) = 0
days_before_month (l ∷ ls) (suc zero) = 0
days_before_month (l ∷ ls) (suc (suc m)) = l + days_before_month ls (suc m)

-- The length of a month.
abbrev pub length_of_month : List ℕ → ℕ → ℕ
length_of_month lengths zero = 0
length_of_month [] (suc m) = 0
length_of_month (l ∷ ls) (suc zero) = l
length_of_month (l ∷ ls) (suc (suc m)) = length_of_month ls (suc m)

abbrev pub total : List ℕ → ℕ
total [] = 0
total (l ∷ ls) = l + total ls

-- The month and the day of a day of the year, for the months from `k` on.
month_day-lengths :
    (k : ℕ) (ls : List ℕ) (n : ℕ)
    → n < total ls
    → (m : ℕ) × ((month_day k ls n).0 ≡ k + m)
      × (days_before_month ls (suc m) + (month_day k ls n).1 ≡ suc n)
      × (1 ≤ (month_day k ls n).1)
      × ((month_day k ls n).1 ≤ length_of_month ls (suc m))
      × (suc m ≤ length ls)
unfolding month_day
month_day-lengths k [] n h = elim h [ ]
month_day-lengths k (l ∷ ls) n h = elim (Bool-cases (ltb n l)) [
  | inl now ↦ rw now (0, omega arith, omega arith, omega arith, ground arith, omega arith)
  | inr later ↦
      let (m, a, b, e, s, t) = month_day-lengths (k + 1) ls (n - l) (ground arith) in
      rw later (suc m, omega arith, ground arith, e, s, omega arith)
]

-- A date is in the calendar, and it is day `n` of it, where day 0 is 1 January of year 1.
abbrev pub IsDay : ℕ → ℕ × ℕ × ℕ → Type 0
IsDay n (y, m, d) =
    (1 ≤ y)
    × ((1 ≤ m) × (m ≤ 12))
    × ((1 ≤ d) × (d ≤ length_of_month (month_lengths (is_leap y)) m))
    × (days_before_year y + days_before_month (month_lengths (is_leap y)) m + d ≡ suc n)

total-month_lengths : (leap : Bool) → total (month_lengths leap) ≡ (if leap then 366 else 365)
total-month_lengths true = refl
total-month_lengths false = refl

-- The last day of a year.
last-IsDay :
    (n y : ℕ) (leap : Bool)
    → is_leap (suc y) ≡ leap
    → days_before_year (suc y) + total (month_lengths leap) ≡ suc n
    → IsDay n (suc y, 12, 31)
last-IsDay n y true e h =
    (omega arith, (omega arith, omega arith), (omega arith, omega arith), rw e (omega (arith, h)))
last-IsDay n y false e h =
    (omega arith, (omega arith, omega arith), (omega arith, omega arith), rw e (omega (arith, h)))

length-month_lengths : (leap : Bool) → length (month_lengths leap) ≡ 12
length-month_lengths leap = refl

-- A day of a year.
inside-IsDay :
    (n y r : ℕ) (leap : Bool)
    → is_leap (suc y) ≡ leap
    → days_before_year (suc y) + r ≡ n
    → r < total (month_lengths leap)
    → IsDay n
        (suc y, (month_day 1 (month_lengths leap) r).0, (month_day 1 (month_lengths leap) r).1)
inside-IsDay n y r leap e h k =
    let (m, a, b, c, d, t) = month_day-lengths 1 (month_lengths leap) r k in
    let few = length-month_lengths leap in
    let same : (month_day 1 (month_lengths leap) r).0 ≡ suc m = omega arith in
    rw (e, same) (omega arith, (omega arith, omega arith), (c, d), omega arith)

-- A year counted from 0, by its place in the cycles of 400, 100 and 4 years.
abbrev in_cycle : ℕ → ℕ → ℕ → ℕ → ℕ
in_cycle k a b c = k * 400 + a * 100 + b * 4 + c

year_start :
    (k a b c : ℕ)
    → a ≤ 3
    → b ≤ 24
    → c ≤ 3
    → days_before_year (suc (in_cycle k a b c)) ≡ k * 146097 + a * 36524 + b * 1461 + c * 365
year_start k a b c ha hb hc =
    let y = in_cycle k a b c in
    let q4 : y / 4 ≡ k * 100 + a * 25 + b = omega arith in
    let q100 : y / 100 ≡ k * 4 + a = omega arith in
    let q400 : y / 400 ≡ k = omega arith in omega arith

cycle_leap :
    (k a b c : ℕ)
    → a ≤ 3
    → b ≤ 24
    → c ≤ 3
    → is_leap (suc (in_cycle k a b c)) ≡ ((c == 3) && (not (b == 24) || (a == 3)))
cycle_leap k a b c ha hb hc =
    let y = suc (in_cycle k a b c) in
    let r4 : (y % 4 ≡ 0) ↔ (c ≡ 3) = (λ h. omega arith, λ h. omega arith) in
    let r100 : (y % 100 ≡ 0) ↔ ((c ≡ 3) × (b ≡ 24)) =
      (λ h. (omega arith, omega arith), λ h. omega arith) in
    let r400 : (y % 400 ≡ 0) ↔ ((c ≡ 3) × (b ≡ 24) × (a ≡ 3)) =
      (λ h. (omega arith, omega arith, omega arith), λ h. omega arith) in
    ground arith

-- The last day of a leap year, by its place in the cycles.
leap_end :
    (n k a b : ℕ)
    → a ≤ 3
    → b ≤ 24
    → (not (b == 24) || (a == 3)) ≡ true
    → k * 146097 + a * 36524 + b * 1461 + 1460 ≡ n
    → IsDay n (suc (in_cycle k a b 3), 12, 31)
leap_end n k a b ha hb leap e =
    let start = year_start k a b 3 ha hb (omega arith) in
    last-IsDay n (in_cycle k a b 3) true (cycle_leap k a b 3 ha hb (omega arith) ∙ leap)
      (omega arith)

short_year : (leap : Bool) (r : ℕ) → r < 365 → r < total (month_lengths leap)
short_year true r h = omega arith
short_year false r h = omega arith

-- The date that `civil` makes of the place of a day in the cycles.
abbrev date_of : ℕ → ℕ → ℕ → ℕ → ℕ → ℕ × ℕ × ℕ
date_of k a b c r =
    let year = k * 400 + 1 + a * 100 + b * 4 + c in
    if c == 4 || a == 4
    then (year - 1, 12, 31)
    else (let leap = c == 3 && (not (b == 24) || a == 3) in
        let (m, d) = month_day 1 (month_lengths leap) r in (year, m, d))

date_of-IsDay :
    (n k a b c r : ℕ)
    → r < 365
    → c * 365 + r ≤ 1460
    → b * 1461 + (c * 365 + r) ≤ 36523
    → a * 36524 + (b * 1461 + (c * 365 + r)) ≤ 146096
    → k * 146097 + (a * 36524 + (b * 1461 + (c * 365 + r))) ≡ n
    → IsDay n (date_of k a b c r)
date_of-IsDay n k a b c r hr hc hb ha e = elim (Bool-cases (c == 4 || a == 4)) [
  | inl last ↦ elim (Bool-cases (a == 4)) [
    | inl century ↦
        let four : a ≡ 4 = ground arith in
        let year : suc (in_cycle k 3 24 3) ≡ k * 400 + 1 + a * 100 + b * 4 + c - 1 = omega arith in
        rw last (rw (← year) (leap_end n k 3 24 (omega arith) (omega arith) refl (omega arith)))
    | inr later ↦
        let four : c ≡ 4 = ground arith in
        let short : b ≢ 24 = λ h. omega arith in
        let year : suc (in_cycle k a b 3) ≡ k * 400 + 1 + a * 100 + b * 4 + c - 1 = omega arith in
        rw last
          (rw (← year) (leap_end n k a b (ground arith) (omega arith) (ground arith) (omega arith)))
  ]
  | inr inside ↦
      let small_c : c ≤ 3 = ground arith in
      let small_a : a ≤ 3 = ground arith in
      let small_b : b ≤ 24 = omega arith in
      let leap = c == 3 && (not (b == 24) || a == 3) in
      let year : suc (in_cycle k a b c) ≡ k * 400 + 1 + a * 100 + b * 4 + c = omega arith in
      rw inside (
        rw (← year) (
          inside-IsDay n (in_cycle k a b c) r leap (cycle_leap k a b c small_a small_b small_c)
            (omega (arith, year_start k a b c small_a small_b small_c)) (short_year leap r hr)))
]

-- The date of a day is a date of the calendar, and that day: for every day from 1 January of year 1,
-- by the lengths of the months and the leap years of the Gregorian rule.
pub civil-IsDay : (n : ℕ) → IsDay n (civil n)
unfolding civil
civil-IsDay n =
    date_of-IsDay n (n / 146097) (n % 146097 / 36524) (n % 146097 % 36524 / 1461)
      (n % 146097 % 36524 % 1461 / 365) (n % 146097 % 36524 % 1461 % 365) (omega arith)
      (omega arith) (omega arith) (omega arith) (omega arith)
