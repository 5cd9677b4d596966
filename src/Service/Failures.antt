-- ===== src/Service/Failures.antt =====
-- How service.py attributes a failure of the upstream.
use algorandscout.Client.Errors.{caller_error}
use algorandscout.Client.Transport.{outcome}
use algorandscout.Metrics.{observe_upstream, upstream_eq}
use algorandscout.Metrics.Tables.{at, at-update}
use algorandscout.Prelude.{
  Bool-cases, Option-cases, Text, [], arith, codes, false, inl, inr, leb, ltb, none, refl, some,
  sym, text_eq_iff, true, ℕ, ◌&&◌, ◌+◌, ◌<◌, ◌==◌, ◌↔◌, ◌∙◌, ◌∷◌, ◌≡◌, ◌≢◌, ◌≤◌, ◌⊎◌,
}
use algorandscout.Python.{AlgorandError, Value, algorand_error, dict, nat, null, ok, raise, text}
use algorandscout.Service.{
  Response, algorand_error_handler, answer, count_outcome, error_status, upstream_outcome,
}
use algorandscout.World.{World}

-- The status that an error is answered with, and the outcome that it is counted as: a missing object
-- is a 404, a 429 stays a 429, any other status from 400 to 499 is a 400, and all else, an error
-- without a status too, is a 502 and the upstream's.
abbrev pub IsAttributed : AlgorandError → ℕ → Text → Type 0
IsAttributed e answered outcome =
    ((e.not_found ≡ true) × (answered ≡ 404) × (outcome ≡ codes "caller_error"))
    ⊎ ((e.not_found ≡ false)
        × (e.status ≡ some 429)
        × (answered ≡ 429)
        × (outcome ≡ codes "caller_error"))
    ⊎ ((e.not_found ≡ false)
        × ((s : ℕ) × (e.status ≡ some s) × (s ≢ 429) × (400 ≤ s) × (s < 500))
        × (answered ≡ 400)
        × (outcome ≡ codes "caller_error"))
    ⊎ ((e.not_found ≡ false)
        × ((s : ℕ) → e.status ≡ some s → (s < 400) ⊎ (500 ≤ s))
        × (answered ≡ 502)
        × (outcome ≡ codes "upstream_error"))

error_status-IsAttributed :
    (e : AlgorandError) → IsAttributed e (error_status e) (upstream_outcome (error_status e))
unfolding error_status caller_error
error_status-IsAttributed e = elim (Bool-cases e.not_found) [
  | inl h ↦ inl (h, ground arith, ground arith)
  | inr h ↦ elim (Option-cases e.status) [
    | inl none_h ↦ inr (inr (inr (h, λ s k. ground arith, ground arith, ground arith)))
    | inr (s, some_h) ↦ elim (Bool-cases (s == 429)) [
      | inl slow ↦ inr (inl (h, ground arith, ground arith, ground arith))
      | inr other ↦ elim (Bool-cases (leb 400 s && ltb s 500)) [
        | inl range ↦ inr (
            inr (
              inl (
                h,
                (s, some_h, λ k. ground arith, ground arith, ground arith),
                ground arith,
                ground arith,
              )))
        | inr range ↦ inr (inr (inr (h, λ s k. ground arith, ground arith, ground arith)))
      ]
    ]
  ]
]

upstream_eq_iff : (a b : Text × Text) → (upstream_eq a b ≡ true) ↔ (a ≡ b)
unfolding upstream_eq
upstream_eq_iff a b = ground (arith, text_eq_iff a.0 b.0, text_eq_iff a.1 b.1)

-- The number of outcomes of an upstream that were counted.
abbrev pub counted : Text × Text → World → ℕ
counted k w = at upstream_eq 0 k w.metrics.upstream

-- From a world to the next one, one outcome of the indexer was counted, and nothing else has changed.
pub record IsCounted (outcome : Text) (w v : World) : Type 0 where
  pub one : counted (codes "indexer", outcome) v ≡ counted (codes "indexer", outcome) w + 1
  pub others : (k : Text × Text) → k ≢ (codes "indexer", outcome) → counted k v ≡ counted k w
  pub rest : v ≡ record w { metrics = record w.metrics { upstream = v.metrics.upstream } }

count_outcome-IsCounted :
    (outcome : Text) (w : World) → IsCounted outcome w (count_outcome outcome w)
unfolding observe_upstream
count_outcome-IsCounted outcome w = record {
  one =
      at-update upstream_eq upstream_eq_iff 0 (λ (n : ℕ). n + 1) (codes "indexer", outcome)
        (codes "indexer", outcome) w.metrics.upstream
      ∙ rw ((upstream_eq_iff _ _).1 refl) refl;
  others = λ k differs.
      at-update upstream_eq upstream_eq_iff 0 (λ (n : ℕ). n + 1) (codes "indexer", outcome) k
        w.metrics.upstream
      ∙ elim (Bool-cases (upstream_eq (codes "indexer", outcome) k)) [
        | inl same ↦ absurd (differs (sym ((upstream_eq_iff _ k).0 same)))
        | inr other ↦ rw other refl
      ];
  rest = refl;
}

-- What the handler of upstream errors answers: the error's text and the upstream's status.
abbrev pub error_content : AlgorandError → Value
error_content e = dict (
    ("error", text e.message)
    ∷ ("upstream_status", elim e.status [ none ↦ null | some s ↦ nat s ])
    ∷ [])

-- An upstream error is always answered: a missing object with a 404, a 429 with a 429, any other
-- status from 400 to 499 with a 400, and all else with a 502. The answer carries the error's text and
-- the upstream's status. The count of the indexer's `upstream_error`s, for a 502, or else of its
-- `caller_error`s has grown by one, and no other count and nothing else of the state has changed.
pub answer-algorand_error :
    (e : AlgorandError) (w : World)
    → (response : Response) × (outcome : Text) × (v : World) × (answer (raise (algorand_error e), w)
        ≡ (ok response, v))
      × IsAttributed e response.status_code outcome
      × (response.content ≡ error_content e)
      × IsCounted outcome w v
unfolding answer algorand_error_handler
answer-algorand_error e w = (
  _,
  upstream_outcome (error_status e),
  _,
  refl,
  error_status-IsAttributed e,
  refl,
  count_outcome-IsCounted _ w,
)
