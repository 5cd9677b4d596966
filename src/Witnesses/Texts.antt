-- ===== src/Witnesses/Texts.antt =====
-- Witnesses on the texts of amounts and labels.
use algorandscout.Cache.{new}
use algorandscout.Mapping.Amounts.{clean, decimal_string, decimal_text, is_zero_address}
use algorandscout.Mapping.Amounts.RoundTrip.{decimal_string-exact, read_decimal}
use algorandscout.Mapping.Dates.{civil, epoch, iso, iso_text, month_day}
use algorandscout.Mapping.Dates.RoundTrip.{iso-exact, read_iso}
use algorandscout.Mapping.Transactions.{map_transaction}
use algorandscout.Mapping.Transactions.Closing.{IsClosed, map_transaction-IsClosed}
use algorandscout.Mapping.Transactions.Frames.{transaction_frame, value_decimal}
use algorandscout.Mapping.Transactions.Movements.{close_payment, extract_close, extract_movement}
use algorandscout.Mapping.Transactions.Tables.{
  contains, detail_key, detail_key_of, label_of, signature_type,
}
use algorandscout.Metrics.{Request, RequestKey, empty_buckets, observe_all, request_eq}
use algorandscout.Metrics.Exposition.{IsSeconds, expected_buckets, histogram_lines-observe_all}
use algorandscout.Metrics.Histogram.{of_route, total_duration, with_status}
use algorandscout.Metrics.Labels.{one_line, read_label, read_label-esc}
use algorandscout.Metrics.Rendering.{esc, histogram_lines, render_lines, request_before}
use algorandscout.Metrics.Series.{render_lines-observe_all, series_line}
use algorandscout.Metrics.Sorted.{Ascending}
use algorandscout.Metrics.Tables.{at}
use algorandscout.Prelude.{
  All, List, Text, [], codes, false, inr, length, map, refl, some, text_eq, ℕ, ◌++◌, ◌<◌, ◌∷◌, ◌≡◌,
}
use algorandscout.Prelude.Int.{negsuc, pos, ◌+ℤ◌}
use algorandscout.Python.{Fields, Result, end, fields, get, nat, num, obj, ok, raise, text}
use algorandscout.Python.Decimal.{digits, str_ℕ, str_ℤ}
use algorandscout.Witnesses.{ascii}

decimal_string_example :
    (s : Text) × (decimal_string ascii (num (negsuc 149)) (nat 6) ≡ ok (text s))
    × (read_decimal 6 s ≡ negsuc 149)
decimal_string_example = decimal_string-exact ascii (negsuc 149) 5

read_label-esc_example :
    read_label false (esc (codes "/a b") ++ b'"' ∷ codes "} 1")
    ≡ some (one_line (codes "/a b"), codes "} 1")
read_label-esc_example = read_label-esc (codes "/a b") (codes "} 1")

abbrev closing_payment : Fields
closing_payment = fields (
    ("amount", nat 5)
    ∷ ("close-amount", nat 1000000)
    ∷ ("close-remainder-to", text (codes "RECEIVER"))
    ∷ [])

-- A transaction that closes its sender's account.
abbrev closing_transaction : Fields
closing_transaction = fields (
    ("id", text (codes "TX"))
    ∷ ("tx-type", text (codes "pay"))
    ∷ ("payment-transaction", obj closing_payment)
    ∷ [])

abbrev fields_of : Result Fields → Fields
fields_of (ok d) = d
fields_of (raise e) = end

abbrev closed : Fields
closed = fields_of (map_transaction ascii 2 (obj closing_transaction))

closing_mapped : map_transaction ascii 2 (obj closing_transaction) ≡ ok closed
unfolding map_transaction transaction_frame detail_key extract_movement extract_close close_payment
    clean is_zero_address iso value_decimal decimal_string decimal_text signature_type contains
    label_of detail_key_of
closing_mapped = refl

map_transaction-IsClosed_example :
    (get closed "value" ≡ text (str_ℤ (pos 5)))
    × IsClosed (get closing_payment "close-remainder-to") (pos 5) (pos 1000000) closed
map_transaction-IsClosed_example =
    map_transaction-IsClosed ascii 1 closing_transaction closing_payment closed (pos 5)
      (pos 1000000) refl refl (inr (codes "RECEIVER", refl)) refl refl closing_mapped

abbrev slow_and_fast : List Request
slow_and_fast =
    record { route = codes "/livez"; status = 200; duration = 70000 }
    ∷ record { route = codes "/livez"; status = 503; duration = 99000000 }
    ∷ []

histogram_lines_example :
    (seconds : Text) × (histogram_lines (observe_all slow_and_fast) (
      codes "/livez",
      at text_eq empty_buckets (codes "/livez") (observe_all slow_and_fast).buckets,
    )
      ≡ expected_buckets (codes "/livez") (of_route (codes "/livez") slow_and_fast)
        ++ ((codes "algorandscout_request_duration_seconds_sum{route=\""
              ++ esc (codes "/livez")
              ++ codes "\"} "
              ++ seconds)
            ∷ (codes "algorandscout_request_duration_seconds_count{route=\""
                ++ esc (codes "/livez")
                ++ codes "\"} "
                ++ str_ℕ (length (of_route (codes "/livez") slow_and_fast)))
            ∷ []))
    × IsSeconds (total_duration (of_route (codes "/livez") slow_and_fast)) seconds
histogram_lines_example = histogram_lines-observe_all slow_and_fast (codes "/livez")

render_lines-observe_all_example :
    (series : List (RequestKey × ℕ)) × (rest : List Text) × (render_lines
        (observe_all slow_and_fast)
        (new 8)
        []
      ≡ codes "# HELP algorandscout_requests_total HTTP requests by route and status."
        ∷ codes "# TYPE algorandscout_requests_total counter"
        ∷ (map series_line series ++ rest))
    × Ascending request_before series
    × All (λ e. 0 < e.1) series
    × ((route : Text) (status : ℕ)
        → at request_eq 0 (route, status) series
          ≡ with_status status (of_route route slow_and_fast))
render_lines-observe_all_example = render_lines-observe_all slow_and_fast (new 8) []

abbrev first_second : Text
first_second = codes "1970-01-01T00:00:00Z"

iso_first : iso (num (pos 0)) ≡ ok (text first_second)
unfolding iso iso_text civil month_day str_ℕ digits ◌+ℤ◌
iso_first = refl

iso-exact_example : pos (read_iso first_second) ≡ pos 0 +ℤ pos epoch
iso-exact_example = iso-exact (pos 0) first_second iso_first
