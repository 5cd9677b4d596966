-- ===== src/Client/Transport/Retries.antt =====
-- How many requests `_get` makes, what it returns and how long it waits.
use mathlib.Core.Path.{subst}
use algorandscout.Client.Errors.{retryable}
use algorandscout.Client.Reads.{status}
use algorandscout.Client.Transport.{
  Outcome, again, attempts, finished, get_json, not_found, outcome, sleep, status_error,
  transport_error, url_of,
}
use algorandscout.Prelude.{
  Bool-cases, List, Option, Text, ap, arith, false, inl, inr, leb, length, none, refl, replicate,
  some, suc, sym, zero, ℕ, ◌++◌, ◌+◌, ◌<◌, ◌==◌, ◌∙◌, ◌∷◌, ◌≡◌, ◌≤◌, ◌⊎◌,
}
use algorandscout.Python.{AlgorandError, Float, Platform, Result, Value, algorand_error, raise}
use algorandscout.World.{Attempt, World, reply, transport_failure}

replicate-cons {ℓ} :
    {A : Type ℓ} (k : ℕ) (x : A) (l : List A) → replicate k x ++ x ∷ l ≡ x ∷ (replicate k x ++ l)
replicate-cons zero x l = refl
replicate-cons (suc k) x l = ap (◌∷◌ x) (replicate-cons k x l)

module _ (P : Platform) (path url : Text) where
  -- How the `i`-th attempt from a world on ends.
  unfoldable outcome_at : World → ℕ → Outcome
  outcome_at w i = outcome P path url (w.upstream (length w.sent + i) url)

  abbrev IsAgain : Outcome → Type 0
  IsAgain (again e pause) = Unit
  IsAgain (finished r) = ⊥

  -- `k` retries were made: every attempt before the last was one to be retried; the last one ended
  -- the loop, or there were no more and its error is raised.
  record Retried (left : ℕ) (w : World) (r : Result Value × World) : Type 0 where
    retries : ℕ
    bounded : retries ≤ left
    retried : (i : ℕ) → i < retries → IsAgain (outcome_at w i)
    sent : r.1.sent ≡ replicate (suc retries) url ++ w.sent
    slept : length r.1.slept ≡ retries + length w.slept
    ended :
        (outcome_at w retries ≡ finished r.0)
        ⊎ ((e : AlgorandError) × (pause : Option Float) × (retries ≡ left)
            × (outcome_at w retries ≡ again e pause)
            × (r.0 ≡ raise (algorand_error e)))

  Outcome-cases :
      (o : Outcome)
      → ((r : Result Value) × (o ≡ finished r))
        ⊎ ((e : AlgorandError) × (pause : Option Float) × (o ≡ again e pause))
  Outcome-cases (finished r) = inl (r, refl)
  Outcome-cases (again e pause) = inr (e, pause, refl)

  abbrev after_send : World → World
  after_send w = record w { sent = url ∷ w.sent }

  first : World → Outcome
  first w = outcome P path url (w.upstream (length w.sent) url)

  outcome_at-zero : (w : World) → outcome_at w 0 ≡ first w
  unfolding outcome_at first
  outcome_at-zero w = ap (λ (n : ℕ). outcome P path url (w.upstream n url)) (omega arith)

  -- A pause shifts the count by one request.
  outcome_at-suc :
      (w : World) (n i : ℕ) (pause : Option Float)
      → outcome_at (sleep n pause (after_send w)) i ≡ outcome_at w (suc i)
  unfolding outcome_at sleep
  outcome_at-suc w n i pause = ap (λ (n : ℕ). outcome P path url (w.upstream n url)) (omega arith)

  module _ (n : ℕ) (w : World) where
    attempts-finished :
        (left : ℕ) {r : Result Value}
        → first w ≡ finished r
        → attempts P left n path url w ≡ (r, after_send w)
    unfolding attempts first
    attempts-finished zero h = ground arith
    attempts-finished (suc left) h = ground arith

    attempts-last :
        {e : AlgorandError} {pause : Option Float}
        → first w ≡ again e pause
        → attempts P 0 n path url w ≡ (raise (algorand_error e), after_send w)
    unfolding attempts first
    attempts-last h = ground arith

    attempts-again :
        (left : ℕ) {e : AlgorandError} {pause : Option Float}
        → first w ≡ again e pause
        → attempts P (suc left) n path url w
          ≡ attempts P left (n + 1) path url (sleep n pause (after_send w))
    unfolding attempts first
    attempts-again left h = ground arith

  Retried-once :
      (left : ℕ) (w : World) (r : Result Value)
      → first w ≡ finished r
      → Retried left w (r, after_send w)
  Retried-once left w r h = record {
    retries = 0;
    bounded = omega arith;
    retried = λ i k. elim k [ ];
    sent = refl;
    slept = omega arith;
    ended = inl (outcome_at-zero w ∙ h);
  }

  Retried-more_at :
      (left n : ℕ) (w : World) (r : Result Value × World) {e : AlgorandError} {pause : Option Float}
      → first w ≡ again e pause
      → (later : Retried left (sleep n pause (after_send w)) r) → (i : ℕ) → i < suc later.retries
      → IsAgain (outcome_at w i)
  Retried-more_at left n w r h later zero k = rw (outcome_at-zero w, h) tt
  Retried-more_at left n w r {e} {pause} h later (suc i) k =
      subst IsAgain (outcome_at-suc w n i pause) (later.retried i (omega arith))

  Retried-more :
      (left n : ℕ) (w : World) (r : Result Value × World) {e : AlgorandError} {pause : Option Float}
      → first w ≡ again e pause
      → Retried left (sleep n pause (after_send w)) r
      → Retried (suc left) w r
  unfolding sleep
  Retried-more left n w r {e} {pause} h later = record {
    retries = suc later.retries;
    bounded = omega (arith, later.bounded);
    retried = Retried-more_at left n w r h later;
    sent = later.sent ∙ ap (◌∷◌ url) (replicate-cons later.retries url w.sent);
    slept = omega (arith, later.slept);
    ended = elim later.ended [
      | inl done ↦ inl (sym (outcome_at-suc w n later.retries pause) ∙ done)
      | inr (x, q, all, last, raised) ↦
          inr
            (x, q, omega (arith, all), sym (outcome_at-suc w n later.retries pause) ∙ last, raised)
    ];
  }

  attempts-Retried : (left n : ℕ) (w : World) → Retried left w (attempts P left n path url w)
  attempts-Retried zero n w = elim (Outcome-cases (first w)) [
    | inl (r, e) ↦ rw (attempts-finished n w 0 e) (Retried-once 0 w r e)
    | inr (x, pause, e) ↦ rw (attempts-last n w e) (record {
      retries = 0;
      bounded = omega arith;
      retried = λ i k. elim k [ ];
      sent = refl;
      slept = omega arith;
      ended = inr (x, pause, refl, outcome_at-zero w ∙ e, refl);
    })
  ]
  attempts-Retried (suc left) n w = elim (Outcome-cases (first w)) [
    | inl (r, e) ↦ rw (attempts-finished n w (suc left) e) (Retried-once (suc left) w r e)
    | inr (x, pause, e) ↦
        rw (attempts-again n w left e)
          (Retried-more left n w _ e (attempts-Retried left (n + 1) (sleep n pause (after_send w))))
  ]

-- What is worth another attempt: a transport failure, a 429, or a server error.
abbrev pub IsTransient : Attempt → Type 0
IsTransient (transport_failure message) = Unit
IsTransient (reply status body retry_after payload) = (status ≡ 429) ⊎ (500 ≤ status)

-- What a caller gets for the last attempt: the payload below 400, and an error otherwise. The error
-- has the status of the reply, or none without a reply, and is marked for a missing object for a
-- 404 only.
abbrev pub IsDecided : Attempt → Result Value → Type 0
IsDecided (transport_failure message) r =
    (e : AlgorandError) × (r ≡ raise (algorand_error e)) × (e.status ≡ none) × (e.not_found ≡ false)
IsDecided (reply status body retry_after payload) r =
    ((status < 400) × (r ≡ payload))
    ⊎ ((400 ≤ status)
        × ((e : AlgorandError) × (r ≡ raise (algorand_error e))
            × (e.status ≡ some status)
            × (e.not_found ≡ (status == 404))))

-- One call of `_get` for a URL, told by the upstream's replies. An attempt is followed by another
-- one exactly when it is transient and fewer than three were made.
pub record Exchange (url : Text) (w : World) (r : Result Value × World) : Type 0 where
  pub retries : ℕ
  pub bounded : retries ≤ 2
  pub retried : (i : ℕ) → i < retries → IsTransient (w.upstream (length w.sent + i) url)
  pub given_up : (retries ≡ 2) ⊎ (¬ IsTransient (w.upstream (length w.sent + retries) url))
  pub sent : r.1.sent ≡ replicate (suc retries) url ++ w.sent
  pub slept : length r.1.slept ≡ retries + length w.slept
  pub decided : IsDecided (w.upstream (length w.sent + retries) url) r.0

module _ (P : Platform) (path url : Text) where
  again-IsTransient : (a : Attempt) → IsAgain P path url (outcome P path url a) → IsTransient a
  unfolding outcome retryable status_error
  again-IsTransient (transport_failure message) h = tt
  again-IsTransient (reply status body retry_after payload) h = ground arith

  finished-IsTransient :
      (a : Attempt) (r : Result Value) → outcome P path url a ≡ finished r → ¬ IsTransient a
  unfolding outcome retryable status_error
  finished-IsTransient (transport_failure message) r h k = cc
  finished-IsTransient (reply status body retry_after payload) r h k = ground arith

  finished-IsDecided :
      (a : Attempt) (r : Result Value) → outcome P path url a ≡ finished r → IsDecided a r
  unfolding outcome not_found status_error
  finished-IsDecided (transport_failure message) r h = absurd cc
  finished-IsDecided (reply status body retry_after payload) r h =
      elim (Bool-cases (status == 404)) [
        | inl e ↦ inr (ground arith, (not_found path url, ground arith, ground arith, ground arith))
        | inr e ↦ elim (Bool-cases (leb 400 status)) [
          | inl high ↦
              inr (ground arith, (status_error status body url, ground arith, refl, ground arith))
          | inr low ↦ inl (ground arith, ground arith)
        ]
      ]

  again-IsDecided :
      (a : Attempt) (e : AlgorandError) (pause : Option Float)
      → outcome P path url a ≡ again e pause
      → IsDecided a (raise (algorand_error e))
  unfolding outcome status_error transport_error
  again-IsDecided (transport_failure message) e pause h = (e, refl, ground arith, ground arith)
  again-IsDecided (reply status body retry_after payload) e pause h =
      inr (ground arith, (e, refl, ground arith, ground arith))

  Retried-Exchange :
      (w : World) (r : Result Value × World) → Retried P path url 2 w r → Exchange url w r
  unfolding outcome_at
  Retried-Exchange w r x = record {
    retries = x.retries;
    bounded = x.bounded;
    retried = λ i h. again-IsTransient _ (x.retried i h);
    given_up = elim x.ended [
      | inl done ↦ inr (finished-IsTransient _ _ done)
      | inr (e, pause, all, last, raised) ↦ inl all
    ];
    sent = x.sent;
    slept = x.slept;
    decided = elim x.ended [
      | inl done ↦ finished-IsDecided _ _ done
      | inr (e, pause, all, last, raised) ↦ rw raised (again-IsDecided _ e pause last)
    ];
  }

-- `_get` requests one URL, made from its arguments, at least once and at most three times, and
-- sleeps once between two requests. An attempt before the third that met a transport failure, a
-- 429 or a 5xx is followed by another one, and no other attempt is. The last one decides: for a
-- reply below 400 the result is its payload, or what reading it raised; otherwise an error is
-- raised with the status of the reply, or with none for a transport failure, which is marked as a
-- missing object for a 404 only.
pub get_json-Retried :
    (P : Platform) (base path : Text) (params : List (Text × Value)) (w : World)
    → Exchange (url_of P base path params) w (get_json P base path params w)
unfolding get_json
get_json-Retried P base path params w =
    let url = url_of P base path params in
    Retried-Exchange P path url w _ (attempts-Retried P path url 2 1 w)
