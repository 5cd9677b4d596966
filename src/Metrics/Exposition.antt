-- ===== src/Metrics/Exposition.antt =====
-- The lines that `render` of metrics.py prints for the histogram of a route.
use algorandscout.Mapping.Amounts.RoundTrip.{rjust-All, value_from-zeros}
use algorandscout.Mapping.Dates.{zero_filled}
use algorandscout.Metrics.{Request, empty_buckets, latency_buckets, observe_all}
use algorandscout.Metrics.Histogram.{
  Cumulative, at_most, observe_all-Describes, of_route, total_duration,
}
use algorandscout.Metrics.Rendering.{
  bucket_line, cumulated, edge_labels, esc, histogram_lines, six_places,
}
use algorandscout.Metrics.Tables.{at}
use algorandscout.Prelude.{
  All, Bool-cases, List, Text, [], arith, codes, inl, inr, length, length-append, length-replicate,
  map, refl, replicate, suc, text_eq, true, zero, ℕ, ◌%◌, ◌*◌, ◌++◌, ◌+◌, ◌-◌, ◌/◌, ◌<◌, ◌==◌, ◌∙◌,
  ◌∷◌, ◌≡◌, ◌≤◌,
}
use algorandscout.Python.Decimal.{
  IsDigit, digits, str_ℕ, str_ℕ-IsDigit, value_from, value_from-str_ℕ,
}

-- What the bucket lines must say: the number of requests up to each edge, and of all requests.
unfoldable exposed : List ℕ → List Text → List Request → List (Text × ℕ)
exposed [] [] l = (codes "+Inf", length l) ∷ []
exposed (edge ∷ edges) (label ∷ labels) l = (label, at_most edge l) ∷ exposed edges labels l
exposed _ _ l = []

cumulated-Cumulative :
    (acc : ℕ) (edges : List ℕ) (labels : List Text) (counts : List ℕ) (l : List Request)
    → length edges ≡ length labels
    → Cumulative acc edges counts l
    → cumulated acc labels counts ≡ exposed edges labels l
unfolding cumulated exposed
cumulated-Cumulative acc [] [] [] l e h = absurd h
cumulated-Cumulative acc [] [] (n ∷ []) l e h = rw h refl
cumulated-Cumulative acc [] [] (n ∷ m ∷ counts) l e h = absurd h
cumulated-Cumulative acc [] (label ∷ labels) counts l e h = absurd (omega arith)
cumulated-Cumulative acc (edge ∷ edges) [] counts l e h = absurd (omega arith)
cumulated-Cumulative acc (edge ∷ edges) (label ∷ labels) [] l e h = absurd h
cumulated-Cumulative acc (edge ∷ edges) (label ∷ labels) (n ∷ counts) l e (h, t) =
    let rest = cumulated-Cumulative (acc + n) edges labels counts l (omega arith) t in
    rw (← rest, h) refl

-- The least number with more than `d + 1` digits.
abbrev power : ℕ → ℕ
power zero = 10
power (suc d) = 10 * power d

length-digits :
    (f n d : ℕ) (out : Text) → n < power d → length (digits f n out) ≤ suc d + length out
unfolding digits
length-digits zero n d out h = omega arith
length-digits (suc f) n zero out h =
    let one : (n / 10 == 0) ≡ true = ground arith in rw one (omega arith)
length-digits (suc f) n (suc d) out h = elim (Bool-cases (n / 10 == 0)) [
  | inl e ↦ rw e (omega arith)
  | inr e ↦
      let rest = length-digits f (n / 10) d ((b'0' + n % 10) ∷ out) (omega arith) in
      rw e (omega (arith, rest))
]

length-zero_filled : (n : ℕ) → n < 1000000 → length (zero_filled 6 n) ≡ 6
length-zero_filled n h =
    let few : length (str_ℕ n) ≤ 6 = unfold str_ℕ in length-digits (suc n) n 5 [] h in
    omega (
      arith,
      few,
      length-append (replicate (6 - length (str_ℕ n)) b'0') (str_ℕ n),
      length-replicate {A = ℕ} (6 - length (str_ℕ n)) b'0',
    )

-- A text that says how many seconds a number of microseconds is: digits, a point and six more digits,
-- the seconds in front of the point and the microseconds behind it.
abbrev pub IsSeconds : ℕ → Text → Type 0
IsSeconds n s =
    (whole frac : Text) × (s ≡ whole ++ b'.' ∷ frac)
    × All IsDigit whole
    × All IsDigit frac
    × (length frac ≡ 6)
    × (1000000 * value_from 0 whole + value_from 0 frac ≡ n)

six_places-IsSeconds : (n : ℕ) → IsSeconds n (six_places n)
unfolding six_places
six_places-IsSeconds n =
    let rest = n % 1000000 in
    let read : value_from 0 (zero_filled 6 rest) ≡ rest =
      value_from-zeros (6 - length (str_ℕ rest)) (str_ℕ rest) ∙ value_from-str_ℕ rest in
    (
      str_ℕ (n / 1000000),
      zero_filled 6 rest,
      refl,
      str_ℕ-IsDigit (n / 1000000),
      rjust-All 6 (str_ℕ rest) (str_ℕ-IsDigit rest),
      length-zero_filled rest (omega arith),
      omega (arith, read, value_from-str_ℕ (n / 1000000)),
    )

-- A sample of a route: a metric's name, its labels and a value.
abbrev pub bucket_text : Text → Text → ℕ → Text
bucket_text route le n =
    codes "algorandscout_request_duration_seconds_bucket{route=\""
    ++ esc route
    ++ codes "\",le=\""
    ++ le
    ++ codes "\"} "
    ++ str_ℕ n

-- The bucket lines of a route with these requests.
abbrev pub expected_buckets : Text → List Request → List Text
expected_buckets route l =
    bucket_text route (codes "0.05") (at_most 50000 l)
    ∷ bucket_text route (codes "0.1") (at_most 100000 l)
    ∷ bucket_text route (codes "0.25") (at_most 250000 l)
    ∷ bucket_text route (codes "0.5") (at_most 500000 l)
    ∷ bucket_text route (codes "1.0") (at_most 1000000 l)
    ∷ bucket_text route (codes "2.5") (at_most 2500000 l)
    ∷ bucket_text route (codes "5.0") (at_most 5000000 l)
    ∷ bucket_text route (codes "10.0") (at_most 10000000 l)
    ∷ bucket_text route (codes "+Inf") (length l)
    ∷ []

exposed-expected :
    (route : Text) (l : List Request)
    → map (λ b. bucket_line route b.0 b.1) (exposed latency_buckets edge_labels l)
      ≡ expected_buckets route l
unfolding exposed bucket_line
exposed-expected route l = refl

-- After any requests, the histogram lines of every route say, under the label of each of the eight
-- edges, how many requests of the route took at most that many seconds, under `+Inf` how many there
-- were, and then their total duration, a decimal number of seconds with six places that is exactly
-- the sum of their microseconds, and their number. The route is escaped in every line.
pub histogram_lines-observe_all :
    (l : List Request) (route : Text)
    → (seconds : Text) × (histogram_lines
          (observe_all l)
          (route, at text_eq empty_buckets route (observe_all l).buckets)
        ≡ expected_buckets route (of_route route l)
          ++ ((codes "algorandscout_request_duration_seconds_sum{route=\""
                ++ esc route
                ++ codes "\"} "
                ++ seconds)
              ∷ (codes "algorandscout_request_duration_seconds_count{route=\""
                  ++ esc route
                  ++ codes "\"} "
                  ++ str_ℕ (length (of_route route l)))
              ∷ []))
      × IsSeconds (total_duration (of_route route l)) seconds
unfolding histogram_lines
histogram_lines-observe_all l route =
    let d = observe_all-Describes l route in
    let buckets =
      cumulated-Cumulative 0 latency_buckets edge_labels
        (at text_eq empty_buckets route (observe_all l).buckets) (of_route route l) refl
        d.histogram in
    (
      six_places (total_duration (of_route route l)),
      rw (buckets, d.sum, d.count, exposed-expected route (of_route route l)) refl,
      six_places-IsSeconds (total_duration (of_route route l)),
    )
