-- ===== src/Metrics/Series.antt =====
-- The counter lines that `render` of metrics.py prints for the requests.
use mathlib.Core.Bool.{true≢false}
use algorandscout.Cache.{Cache}
use algorandscout.Metrics.{Request, RequestKey, observe_all, observe_request, request_eq}
use algorandscout.Metrics.Histogram.{observe_all-Describes, of_route, request_eq_iff, with_status}
use algorandscout.Metrics.Rendering.{esc, render_lines, request_before, request_line}
use algorandscout.Metrics.Sorted.{
  All-sorted_items, Ascending, Distinct, request_before_connected, request_before_trans,
  sorted_items-Ascending,
}
use algorandscout.Metrics.Tables.{at, insert_sorted, sorted_items, update}
use algorandscout.Prelude.{
  All, Bool, Bool-cases, List, Text, [], ap, arith, codes, if◌then◌else◌, inl, inr, map, refl, sym,
  true, ℕ, ◌++◌, ◌+◌, ◌<◌, ◌↔◌, ◌∙◌, ◌∷◌, ◌≡◌, ◌≢◌,
}
use algorandscout.Python.Decimal.{str_ℕ}

module _ {K V : Type 0} (eq : K → K → Bool) (eq_iff : (a b : K) → (eq a b ≡ true) ↔ (a ≡ b)) where
  module _ (default : V) (key : K) where
    at-insert_sorted :
        (before : K → K → Bool) (e : K × V) (l : List (K × V))
        → All (λ d. d.0 ≢ e.0) l
        → at eq default key (insert_sorted before e l)
          ≡ (if eq e.0 key then e.1 else at eq default key l)
    unfolding insert_sorted at
    at-insert_sorted before e [] h = refl
    at-insert_sorted before e (d ∷ l) (differs, h) = elim (Bool-cases (before d.0 e.0)) [
      | inr other ↦ rw other refl
      | inl first ↦
          rw (first, at-insert_sorted before e l h)
            (elim (Bool-cases (eq d.0 key)) [
              | inr missing ↦ rw missing refl
              | inl there ↦ elim (Bool-cases (eq e.0 key)) [
                | inr missing ↦ rw (there, missing) refl
                | inl same ↦
                    absurd (differs ((eq_iff d.0 key).0 there ∙ sym ((eq_iff e.0 key).0 same)))
              ]
            ])
    ]

    at-sorted_items :
        (before : K → K → Bool) (l : List (K × V))
        → Distinct l
        → at eq default key (sorted_items before l) ≡ at eq default key l
    unfolding sorted_items at
    at-sorted_items before [] h = refl
    at-sorted_items before (e ∷ l) (fresh, h) =
        rw
          (
            at-insert_sorted before e (sorted_items before l)
                (All-sorted_items before (λ d. d.0 ≢ e.0) l fresh),
            at-sorted_items before l h,
          )
          refl

  module _ (default : V) (f : V → V) (k : K) where
    update-fresh :
        (j : K) (l : List (K × V))
        → k ≢ j
        → All (λ d. d.0 ≢ j) l
        → All (λ d. d.0 ≢ j) (update eq default f k l)
    unfolding update
    update-fresh j [] n h = (n, tt)
    update-fresh j ((i, v) ∷ l) n (q, h) = elim (Bool-cases (eq i k)) [
      | inl same ↦ rw same (q, h)
      | inr other ↦ rw other (q, update-fresh j l n h)
    ]

    update-Distinct : (l : List (K × V)) → Distinct l → Distinct (update eq default f k l)
    unfolding update
    update-Distinct [] h = (tt, tt)
    update-Distinct ((i, v) ∷ l) (fresh, h) = elim (Bool-cases (eq i k)) [
      | inl same ↦ rw same (fresh, h)
      | inr other ↦ rw other (
        update-fresh i l (λ e. true≢false (sym ((eq_iff i k).1 (sym e)) ∙ other)) fresh,
        update-Distinct l h,
      )
    ]

counts-update :
    (k : RequestKey) (l : List (RequestKey × ℕ))
    → All (λ e. 0 < e.1) l
    → All (λ e. 0 < e.1) (update request_eq 0 (λ (n : ℕ). n + 1) k l)
unfolding update
counts-update k [] h = (omega arith, tt)
counts-update k ((i, v) ∷ l) (q, h) = elim (Bool-cases (request_eq i k)) [
  | inl same ↦ rw same (omega arith, h)
  | inr other ↦ rw other (q, counts-update k l h)
]

abbrev Counts : List (RequestKey × ℕ) → Type 0
Counts l = Distinct l × All (λ e. 0 < e.1) l

observe_all-Counts : (l : List Request) → Counts (observe_all l).requests
unfolding observe_all observe_request
observe_all-Counts [] = (tt, tt)
observe_all-Counts (r ∷ l) =
    let (distinct, counts) = observe_all-Counts l in
    (
      update-Distinct request_eq request_eq_iff 0 (λ n. n + 1) (r.route, r.status)
          (observe_all l).requests distinct,
      counts-update (r.route, r.status) (observe_all l).requests counts,
    )

-- The line of a route, a status and a count.
abbrev pub series_line : RequestKey × ℕ → Text
series_line ((route, status), count) =
    codes "algorandscout_requests_total{route=\""
    ++ esc route
    ++ codes "\",status=\""
    ++ str_ℕ status
    ++ codes "\"} "
    ++ str_ℕ count

map-request_line : (l : List (RequestKey × ℕ)) → map request_line l ≡ map series_line l
unfolding request_line
map-request_line [] = refl
map-request_line (e ∷ l) = ap (◌∷◌ (series_line e)) (map-request_line l)

behind_comments :
    (a b : Text) (rest : List Text) {l m : List Text}
    → l ≡ m
    → a ∷ b ∷ (l ++ rest) ≡ a ∷ b ∷ (m ++ rest)
behind_comments a b rest e = ap (λ k. a ∷ b ∷ (k ++ rest)) e

-- After any requests, the text of the metrics begins with the two comments on the request counter
-- and then has one line for each route and status that occurred, and no other, with the escaped
-- route, the status and the count as labels and value of `algorandscout_requests_total`: the lines are in
-- ascending order of route and status, no pair is there twice, and each count is the number of
-- requests of that route with that status, which is not zero.
pub render_lines-observe_all :
    (l : List Request) (c : Cache) (extra : List (Text × Text))
    → (series : List (RequestKey × ℕ)) × (rest : List Text) × (render_lines (observe_all l) c extra
        ≡ codes "# HELP algorandscout_requests_total HTTP requests by route and status."
          ∷ codes "# TYPE algorandscout_requests_total counter"
          ∷ (map series_line series ++ rest))
      × Ascending request_before series
      × All (λ e. 0 < e.1) series
      × ((route : Text) (status : ℕ)
          → at request_eq 0 (route, status) series ≡ with_status status (of_route route l))
unfolding render_lines
render_lines-observe_all l c extra =
    let (distinct, counts) = observe_all-Counts l in
    let table = (observe_all l).requests in
    (
      sorted_items request_before table,
      _,
      behind_comments _ _ _ (map-request_line (sorted_items request_before table)),
      sorted_items-Ascending request_before request_before_trans request_before_connected table
          distinct,
      All-sorted_items request_before (λ e. 0 < e.1) table counts,
      λ route status.
          at-sorted_items request_eq request_eq_iff 0 (route, status) request_before table distinct
          ∙ (observe_all-Describes l route).by_status status,
    )
