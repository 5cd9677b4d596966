-- ===== src/Metrics.antt =====
-- algorandscout/metrics.py: counters and latency histograms, and their text format.
-- A duration is a number of microseconds, so the sum of a histogram is exact; the code adds floats.
pub mod Tables
pub mod Histogram
pub mod Rendering
pub mod Exposition
pub mod Sorted
pub mod Series
pub mod Labels
use Tables.{at, update}
use algorandscout.Prelude.{
  Bool, List, Text, [], if◌then◌else◌, leb, length, replicate, text_eq, ℕ, ◌&&◌, ◌+◌, ◌==◌, ◌∷◌,
}

-- `LATENCY_BUCKETS`
abbrev pub latency_buckets : List ℕ
latency_buckets = 50000 ∷ 100000 ∷ 250000 ∷ 500000 ∷ 1000000 ∷ 2500000 ∷ 5000000 ∷ 10000000 ∷ []

abbrev pub RequestKey : Type 0
RequestKey = Text × ℕ

unfoldable pub request_eq : RequestKey → RequestKey → Bool
request_eq a b = text_eq a.0 b.0 && a.1 == b.1

unfoldable pub upstream_eq : Text × Text → Text × Text → Bool
upstream_eq a b = text_eq a.0 b.0 && text_eq a.1 b.1

pub record Metrics : Type 0 where
  pub requests : List (RequestKey × ℕ)
  pub upstream : List ((Text × Text) × ℕ)
  pub buckets : List (Text × List ℕ)
  pub latency_sum : List (Text × ℕ)
  pub latency_count : List (Text × ℕ)

abbrev pub no_metrics : Metrics
no_metrics = record {
  requests = [];
  upstream = [];
  buckets = [];
  latency_sum = [];
  latency_count = [];
}

-- `buckets[-1] += 1`
unfoldable pub bump_last : List ℕ → List ℕ
bump_last [] = []
bump_last (n ∷ []) = (n + 1) ∷ []
bump_last (n ∷ m ∷ l) = n ∷ bump_last (m ∷ l)

-- The loop over the edges: the first bucket whose edge is not below the duration, or the last one.
unfoldable pub place : ℕ → List ℕ → List ℕ → List ℕ
unfolding bump_last
place duration [] counts = bump_last counts
place duration (edge ∷ edges) [] = []
place duration (edge ∷ edges) (n ∷ counts) =
    if leb duration edge then (n + 1) ∷ counts else n ∷ place duration edges counts

-- `[0] * (len(LATENCY_BUCKETS) + 1)`
abbrev pub empty_buckets : List ℕ
empty_buckets = replicate (length latency_buckets + 1) 0

unfoldable pub observe_request : Text → ℕ → ℕ → Metrics → Metrics
observe_request route status duration m = record m {
  requests = update request_eq 0 (λ n. n + 1) (route, status) m.requests;
  buckets = update text_eq empty_buckets (place duration latency_buckets) route m.buckets;
  latency_sum = update text_eq 0 (λ n. n + duration) route m.latency_sum;
  latency_count = update text_eq 0 (λ n. n + 1) route m.latency_count;
}

unfoldable pub observe_upstream : Text → Text → Metrics → Metrics
observe_upstream target outcome m = record m {
  upstream = update upstream_eq 0 (λ n. n + 1) (target, outcome) m.upstream;
}

-- Requests as they are observed: a route, a status and a duration.
pub record Request : Type 0 where
  pub route : Text
  pub status : ℕ
  pub duration : ℕ

-- The metrics of a process that has served some requests, the latest one first.
unfoldable pub observe_all : List Request → Metrics
observe_all [] = no_metrics
observe_all (r ∷ l) = observe_request r.route r.status r.duration (observe_all l)
