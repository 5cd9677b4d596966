-- ===== src/Mapping/Dates/RoundTrip.antt =====
-- Reading back the texts that `iso` of mapping.py writes.
use algorandscout.Mapping.Amounts.RoundTrip.{rjust-All, value_from-zeros}
use algorandscout.Mapping.Dates.{
  civil, epoch, is_in_range, iso, iso_text, month_lengths, zero_filled,
}
use algorandscout.Mapping.Days.{civil-IsDay, days_before_month, days_before_year, is_leap}
use algorandscout.Prelude.{
  All, Bool-cases, List, Text, [], ap, append_assoc, arith, false, if◌then◌else◌, inl, inr, leb,
  length, refl, suc, sym, true, zero, ℕ, ◌%◌, ◌&&◌, ◌*◌, ◌++◌, ◌+◌, ◌-◌, ◌/◌, ◌∙◌, ◌∷◌, ◌≡◌,
}
use algorandscout.Prelude.Int.{negsuc, pos, pos_part, ℤ, ◌+ℤ◌}
use algorandscout.Python.{num, ok, text}
use algorandscout.Python.Decimal.{IsDigit, str_ℕ, str_ℕ-IsDigit, value_from, value_from-str_ℕ}

-- A number and what is behind the character after it.
unfoldable pub read_number : ℕ → Text → ℕ × Text
read_number n [] = (n, [])
read_number n (c ∷ s) =
    let rest = read_number (n * 10 + (c - b'0')) s in
    if leb b'0' c && leb c b'9' then rest else (n, s)

unfoldable pub read_numbers : ℕ → Text → List ℕ
unfolding read_number
read_numbers zero s = []
read_numbers (suc k) s = let (n, rest) = read_number 0 s in n ∷ read_numbers k rest

-- The second from 1 January of year 1 of a date and a time of day.
abbrev pub second_of : List ℕ → ℕ
second_of (y ∷ m ∷ d ∷ hour ∷ minute ∷ second ∷ []) =
    (days_before_year y + days_before_month (month_lengths (is_leap y)) m + d - 1) * 86400
    + hour * 3600
    + minute * 60
    + second
second_of _ = 0

-- The second that a text `YYYY-MM-DDThh:mm:ssZ` denotes.
unfoldable pub read_iso : Text → ℕ
unfolding read_numbers
read_iso s = second_of (read_numbers 6 s)

read_number-append :
    (n c : ℕ) (s t : Text)
    → All IsDigit s
    → (leb b'0' c && leb c b'9') ≡ false
    → read_number n (s ++ c ∷ t) ≡ (value_from n s, t)
unfolding read_number value_from
read_number-append n c [] t a h = rw h refl
read_number-append n c (x ∷ s) t ((lo, hi), a) h =
    let digit : (leb b'0' x && leb x b'9') ≡ true = ground arith in
    rw digit (read_number-append (n * 10 + (x - b'0')) c s t a h)

read_number-zero_filled :
    (width n c : ℕ) (t : Text)
    → (leb b'0' c && leb c b'9') ≡ false
    → read_number 0 (zero_filled width n ++ c ∷ t) ≡ (n, t)
read_number-zero_filled width n c t h =
    let digits = rjust-All width (str_ℕ n) (str_ℕ-IsDigit n) in
    read_number-append 0 c (zero_filled width n) t digits h
    ∙ ap (λ k. (k, t)) (value_from-zeros (width - length (str_ℕ n)) (str_ℕ n) ∙ value_from-str_ℕ n)

read_numbers-zero_filled :
    (k width n c : ℕ) (t : Text) {l : List ℕ}
    → (leb b'0' c && leb c b'9') ≡ false
    → read_numbers k t ≡ l
    → read_numbers (suc k) (zero_filled width n ++ c ∷ t) ≡ n ∷ l
unfolding read_numbers
read_numbers-zero_filled k width n c t h e =
    ap (λ r. r.0 ∷ read_numbers k r.1) (read_number-zero_filled width n c t h) ∙ ap (◌∷◌ n) e

no_numbers : (t : Text) → read_numbers 0 t ≡ []
unfolding read_numbers
no_numbers t = refl

-- The text of a date and a time of day.
abbrev written : ℕ → ℕ → ℕ → ℕ → ℕ → ℕ → Text
written y m d hour minute second =
    zero_filled 4 y
    ++ b'-' ∷ zero_filled 2 m
    ++ b'-' ∷ zero_filled 2 d
    ++ b'T' ∷ zero_filled 2 hour
    ++ b':' ∷ zero_filled 2 minute
    ++ b':' ∷ zero_filled 2 second
    ++ b'Z' ∷ []

-- The same text from the front.
abbrev from_front : ℕ → ℕ → ℕ → ℕ → ℕ → ℕ → Text
from_front y m d hour minute second =
    zero_filled 4 y
    ++ (b'-'
        ∷ (zero_filled 2 m
            ++ (b'-'
                ∷ (zero_filled 2 d
                    ++ (b'T'
                        ∷ (zero_filled 2 hour
                            ++ (b':'
                                ∷ (zero_filled 2 minute
                                    ++ (b':' ∷ (zero_filled 2 second ++ (b'Z' ∷ [])))))))))))

written-from_front :
    (y m d hour minute second : ℕ)
    → written y m d hour minute second ≡ from_front y m d hour minute second
written-from_front y m d hour minute second = simp append_assoc

read_iso-written :
    (y m d hour minute second : ℕ)
    → read_iso (written y m d hour minute second)
      ≡ second_of (y ∷ m ∷ d ∷ hour ∷ minute ∷ second ∷ [])
unfolding read_iso
read_iso-written y m d hour minute second =
    ap read_iso (written-from_front y m d hour minute second)
    ∙ ap second_of (
        read_numbers-zero_filled 5 4 y b'-' _ refl (
          read_numbers-zero_filled 4 2 m b'-' _ refl (
            read_numbers-zero_filled 3 2 d b'T' _ refl (
              read_numbers-zero_filled 2 2 hour b':' _ refl (
                read_numbers-zero_filled 1 2 minute b':' _ refl
                  (read_numbers-zero_filled 0 2 second b'Z' _ refl (no_numbers [])))))))

read_iso-iso_text : (t : ℕ) → read_iso (iso_text t) ≡ t
unfolding iso_text
read_iso-iso_text t =
    let (year, month, day, is_day) = civil-IsDay (t / 86400) in
    let date = civil (t / 86400) in
    let s = t % 86400 in
    read_iso-written date.0 date.1 date.2 (s / 3600) (s / 60 % 60) (s % 60) ∙ omega arith

in_range-pos : (n : ℤ) → is_in_range n ≡ true → pos (pos_part n) ≡ n
in_range-pos (pos n) h = refl
in_range-pos (negsuc n) h = cc

-- The text that `iso` writes for a timestamp denotes that timestamp: read back by the rules of the
-- calendar, it is the timestamp's second, counted from 1 January of year 1.
pub iso-exact : (n : ℤ) (s : Text) → iso (num n) ≡ ok (text s) → pos (read_iso s) ≡ n +ℤ pos epoch
unfolding iso
iso-exact n s h = elim (Bool-cases (is_in_range (n +ℤ pos epoch))) [
  | inl inside ↦
      let same : iso_text (pos_part (n +ℤ pos epoch)) ≡ s = ground arith in
      ap pos (ap read_iso (sym same) ∙ read_iso-iso_text (pos_part (n +ℤ pos epoch)))
      ∙ in_range-pos (n +ℤ pos epoch) inside
  | inr outside ↦ absurd (ground arith)
]
