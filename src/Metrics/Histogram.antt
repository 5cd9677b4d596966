-- ===== src/Metrics/Histogram.antt =====
-- The histogram of a route agrees with its requests.
use algorandscout.Metrics.{
  Metrics, Request, RequestKey, bump_last, empty_buckets, latency_buckets, observe_all,
  observe_request, place, request_eq,
}
use algorandscout.Metrics.Tables.{at, at-update}
use algorandscout.Prelude.{
  All, Bool-cases, List, Text, [], arith, if◌then◌else◌, inl, inr, leb, leb→le, length, refl,
  text_eq, text_eq_iff, true, ℕ, ◌+◌, ◌==◌, ◌↔◌, ◌∷◌, ◌≡◌, ◌≤◌,
}

-- The requests of a route, of a route with a status, of a route below an edge, among those observed.
unfoldable pub of_route : Text → List Request → List Request
of_route route [] = []
of_route route (r ∷ l) =
    let rest = of_route route l in if text_eq r.route route then r ∷ rest else rest

unfoldable pub with_status : ℕ → List Request → ℕ
with_status status [] = 0
with_status status (r ∷ l) = (if r.status == status then 1 else 0) + with_status status l

unfoldable pub at_most : ℕ → List Request → ℕ
at_most edge [] = 0
at_most edge (r ∷ l) = (if leb r.duration edge then 1 else 0) + at_most edge l

unfoldable pub total_duration : List Request → ℕ
total_duration [] = 0
total_duration (r ∷ l) = r.duration + total_duration l

-- What a Prometheus histogram means: the counts up to an edge add up to the requests whose duration
-- is at most that edge, and all counts to all requests.
abbrev pub Cumulative : ℕ → List ℕ → List ℕ → List Request → Type 0
Cumulative acc [] (n ∷ []) l = acc + n ≡ length l
Cumulative acc (edge ∷ edges) (n ∷ counts) l =
    (acc + n ≡ at_most edge l) × Cumulative (acc + n) edges counts l
Cumulative acc _ _ l = ⊥

abbrev IsAscending : List ℕ → Type 0
IsAscending [] = Unit
IsAscending (e ∷ l) = All (λ d. e ≤ d) l × IsAscending l

-- A request that is counted in front of these edges, none of which its duration passes.
Cumulative-later :
    (r : Request) (acc : ℕ) (edges counts : List ℕ) (l : List Request)
    → All (λ e. r.duration ≤ e) edges
    → Cumulative acc edges counts l
    → Cumulative (acc + 1) edges counts (r ∷ l)
unfolding at_most
Cumulative-later r acc [] [] l a h = h
Cumulative-later r acc [] (n ∷ []) l a h = omega arith
Cumulative-later r acc [] (n ∷ m ∷ counts) l a h = h
Cumulative-later r acc (e ∷ edges) [] l a h = h
Cumulative-later r acc (e ∷ edges) (n ∷ counts) l (k, a) (h, t) =
    let shift : acc + 1 + n ≡ acc + n + 1 = omega arith in
    (ground arith, rw shift (Cumulative-later r (acc + n) edges counts l a t))

above : (d e : ℕ) (edges : List ℕ) → d ≤ e → All (λ x. e ≤ x) edges → All (λ x. d ≤ x) edges
above d e [] h a = tt
above d e (x ∷ edges) h (k, a) = (omega arith, above d e edges h a)

Cumulative-place :
    (r : Request) (acc : ℕ) (edges counts : List ℕ) (l : List Request)
    → IsAscending edges
    → Cumulative acc edges counts l
    → Cumulative acc edges (place r.duration edges counts) (r ∷ l)
unfolding place bump_last at_most
Cumulative-place r acc [] [] l a h = h
Cumulative-place r acc [] (n ∷ []) l a h = omega arith
Cumulative-place r acc [] (n ∷ m ∷ counts) l a h = absurd h
Cumulative-place r acc (e ∷ edges) [] l a h = h
Cumulative-place r acc (e ∷ edges) (n ∷ counts) l (k, a) (h, t) =
    elim (Bool-cases (leb r.duration e)) [
      | inl fits ↦
          let shift : acc + (n + 1) ≡ acc + n + 1 = omega arith in
          rw fits (
            ground arith,
            rw shift (
                Cumulative-later r (acc + n) edges counts l
                  (above r.duration e edges (leb→le _ _ fits) k) t),
          )
      | inr slow ↦ rw slow (ground arith, Cumulative-place r (acc + n) edges counts l a t)
    ]

-- What the metrics say of a route is what the requests of that route were.
pub record Describes (m : Metrics) (route : Text) (l : List Request) : Type 0 where
  pub histogram : Cumulative 0 latency_buckets (at text_eq empty_buckets route m.buckets) l
  pub count : at text_eq 0 route m.latency_count ≡ length l
  pub sum : at text_eq 0 route m.latency_sum ≡ total_duration l
  pub by_status : (status : ℕ) → at request_eq 0 (route, status) m.requests ≡ with_status status l

pub request_eq_iff : (a b : RequestKey) → (request_eq a b ≡ true) ↔ (a ≡ b)
unfolding request_eq
request_eq_iff a b = ground (arith, text_eq_iff a.0 b.0)

ascending : IsAscending latency_buckets
ascending = omega arith

module _ (r : Request) (route : Text) (m : Metrics) (l : List Request)
    (d : Describes m route l) where
  observe_histogram :
      Cumulative 0 latency_buckets
        (at text_eq empty_buckets route (observe_request r.route r.status r.duration m).buckets)
        (if text_eq r.route route then r ∷ l else l)
  unfolding observe_request
  observe_histogram =
      rw
        (at-update text_eq text_eq_iff empty_buckets (place r.duration latency_buckets) r.route
          route m.buckets)
        (elim (Bool-cases (text_eq r.route route)) [
          | inl same ↦ rw same (
              Cumulative-place r 0 latency_buckets (at text_eq empty_buckets route m.buckets) l
                ascending d.histogram)
          | inr other ↦ rw other d.histogram
        ])

  observe_by_status :
      (status : ℕ)
      → at request_eq 0 (route, status) (observe_request r.route r.status r.duration m).requests
        ≡ with_status status (if text_eq r.route route then r ∷ l else l)
  unfolding observe_request with_status request_eq
  observe_by_status status = ground (
    arith,
    at-update request_eq request_eq_iff 0 (λ (n : ℕ). n + 1) (r.route, r.status) (route, status)
        m.requests,
    d.by_status status,
  )

  pub observe-Describes :
      Describes
        (observe_request r.route r.status r.duration m)
        route
        (if text_eq r.route route then r ∷ l else l)
  observe-Describes = record {
    histogram = observe_histogram;
    count =
        unfold observe_request in
        ground (
          arith,
          at-update text_eq text_eq_iff 0 (λ (n : ℕ). n + 1) r.route route m.latency_count,
          d.count,
        );
    sum =
        unfold observe_request total_duration in
        ground (
          arith,
          at-update text_eq text_eq_iff 0 (λ (n : ℕ). n + r.duration) r.route route m.latency_sum,
          d.sum,
        );
    by_status = observe_by_status;
  }

-- After any requests, the metrics of every route describe the requests of that route: the counter
-- of each status is their number with that status, the latency count is their number, the latency
-- sum their total duration, and the buckets up to each edge add up to the number of requests that
-- took at most that long.
pub observe_all-Describes :
    (l : List Request) (route : Text) → Describes (observe_all l) route (of_route route l)
unfolding observe_all of_route
observe_all-Describes [] route =
    unfold at with_status total_duration at_most in
    record { histogram = omega arith; count = refl; sum = refl; by_status = λ status. refl }
observe_all-Describes (r ∷ l) route =
    observe-Describes r route (observe_all l) (of_route route l) (observe_all-Describes l route)
