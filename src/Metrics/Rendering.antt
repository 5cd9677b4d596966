-- ===== src/Metrics/Rendering.antt =====
-- `render` and `_esc` of metrics.py.
use algorandscout.Cache.{Cache}
use algorandscout.Mapping.Dates.{zero_filled}
use algorandscout.Metrics.{Metrics, RequestKey}
use algorandscout.Metrics.Tables.{at, sorted_items, text_before}
use algorandscout.Prelude.{
  Bool, List, Text, [], codes, if◌then◌else◌, ltb, map, text_eq, ℕ, ◌%◌, ◌++◌, ◌+◌, ◌/◌, ◌==◌, ◌∷◌,
}
use algorandscout.Python.Decimal.{str_ℕ}

-- `s.replace(old, new)` of one character.
unfoldable pub replace : ℕ → Text → Text → Text
replace old new [] = []
replace old new (c ∷ s) = (if c == old then new else c ∷ []) ++ replace old new s

-- `_esc`
unfoldable pub esc : Text → Text
unfolding replace
esc s = replace b'\n' [] (replace b'"' (b'\\' ∷ b'"' ∷ []) (replace b'\\' (b'\\' ∷ b'\\' ∷ []) s))

-- The labels of the bucket edges, as Python prints the floats.
abbrev pub edge_labels : List Text
edge_labels =
    codes "0.05"
    ∷ codes "0.1"
    ∷ codes "0.25"
    ∷ codes "0.5"
    ∷ codes "1.0"
    ∷ codes "2.5"
    ∷ codes "5.0"
    ∷ codes "10.0"
    ∷ []

-- `{n:.6f}` of a number of microseconds.
unfoldable pub six_places : ℕ → Text
six_places n = str_ℕ (n / 1000000) ++ b'.' ∷ zero_filled 6 (n % 1000000)

unfoldable pub request_line : RequestKey × ℕ → Text
unfolding esc
request_line ((route, status), count) =
    codes "algorandscout_requests_total{route=\""
    ++ esc route
    ++ codes "\",status=\""
    ++ str_ℕ status
    ++ codes "\"} "
    ++ str_ℕ count

unfoldable pub upstream_line : (Text × Text) × ℕ → Text
unfolding esc
upstream_line ((target, outcome), count) =
    codes "algorandscout_upstream_total{upstream=\""
    ++ esc target
    ++ codes "\",outcome=\""
    ++ esc outcome
    ++ codes "\"} "
    ++ str_ℕ count

abbrev pub duration_metric : Text
duration_metric = codes "algorandscout_request_duration_seconds"

unfoldable pub bucket_line : Text → Text → ℕ → Text
unfolding esc
bucket_line route le cumulative =
    duration_metric
    ++ codes "_bucket{route=\""
    ++ esc route
    ++ codes "\",le=\""
    ++ le
    ++ codes "\"} "
    ++ str_ℕ cumulative

-- The running sums that the lines of one histogram print, an edge each and `+Inf` last: `acc` is
-- `cumulative`.
unfoldable pub cumulated : ℕ → List Text → List ℕ → List (Text × ℕ)
cumulated acc [] [] = []
cumulated acc [] (n ∷ []) = (codes "+Inf", acc + n) ∷ []
cumulated acc [] (n ∷ m ∷ counts) = cumulated acc [] (m ∷ counts)
cumulated acc (e ∷ edges) [] = []
cumulated acc (e ∷ edges) (n ∷ counts) = (e, acc + n) ∷ cumulated (acc + n) edges counts

unfoldable pub histogram_lines : Metrics → Text × List ℕ → List Text
unfolding cumulated bucket_line six_places esc
histogram_lines m (route, counts) =
    map (λ l. bucket_line route l.0 l.1) (cumulated 0 edge_labels counts)
    ++ ((duration_metric
          ++ codes "_sum{route=\""
          ++ esc route
          ++ codes "\"} "
          ++ six_places (at text_eq 0 route m.latency_sum))
        ∷ (duration_metric
            ++ codes "_count{route=\""
            ++ esc route
            ++ codes "\"} "
            ++ str_ℕ (at text_eq 0 route m.latency_count))
        ∷ [])

abbrev pub concat_map {ℓ} : {A : Type ℓ} → (A → List Text) → List A → List Text
concat_map f [] = []
concat_map f (x ∷ l) = f x ++ concat_map f l

-- The lines for `cache_stats`.
unfoldable pub cache_lines : Cache → List Text
cache_lines c =
    codes "# HELP algorandscout_cache_total Cache outcomes."
    ∷ codes "# TYPE algorandscout_cache_total counter"
    ∷ (codes "algorandscout_cache_total{outcome=\"hit\"} " ++ str_ℕ c.hits)
    ∷ (codes "algorandscout_cache_total{outcome=\"miss\"} " ++ str_ℕ c.misses)
    ∷ (codes "algorandscout_cache_total{outcome=\"expired\"} " ++ str_ℕ c.expirations)
    ∷ (codes "algorandscout_cache_total{outcome=\"evicted\"} " ++ str_ℕ c.evictions)
    ∷ []

-- A gauge of `extra`: its name and its printed value.
unfoldable pub gauge_lines : Text × Text → List Text
gauge_lines (name, value) =
    (codes "# HELP algorandscout_" ++ name ++ codes " Gauge.")
    ∷ (codes "# TYPE algorandscout_" ++ name ++ codes " gauge")
    ∷ (codes "algorandscout_" ++ name ++ b' ' ∷ value)
    ∷ []

abbrev pub request_before : RequestKey → RequestKey → Bool
request_before a b = if text_eq a.0 b.0 then ltb a.1 b.1 else text_before a.0 b.0

abbrev pub pair_before : Text × Text → Text × Text → Bool
pair_before a b = if text_eq a.0 b.0 then text_before a.1 b.1 else text_before a.0 b.0

-- The lines that `render` joins by newlines, with the cache's counters given.
unfoldable pub render_lines : Metrics → Cache → List (Text × Text) → List Text
unfolding request_line upstream_line histogram_lines cache_lines gauge_lines
render_lines m c extra =
    codes "# HELP algorandscout_requests_total HTTP requests by route and status."
    ∷ codes "# TYPE algorandscout_requests_total counter"
    ∷ (map request_line (sorted_items request_before m.requests)
        ++ (codes "# HELP algorandscout_upstream_total Upstream calls by target and outcome."
            ∷ codes "# TYPE algorandscout_upstream_total counter"
            ∷ (map upstream_line (sorted_items pair_before m.upstream)
                ++ (codes "# HELP algorandscout_request_duration_seconds Request latency by route."
                    ∷ codes "# TYPE algorandscout_request_duration_seconds histogram"
                    ∷ (concat_map (histogram_lines m) (sorted_items text_before m.buckets)
                        ++ (cache_lines c ++ concat_map gauge_lines extra))))))

-- `"\n".join(lines) + "\n"`
unfoldable pub joined : List Text → Text
joined [] = b'\n' ∷ []
joined (l ∷ []) = l ++ b'\n' ∷ []
joined (l ∷ k ∷ ls) = l ++ b'\n' ∷ joined (k ∷ ls)

unfoldable pub render : Metrics → Cache → List (Text × Text) → Text
unfolding joined render_lines
render m c extra = joined (render_lines m c extra)
