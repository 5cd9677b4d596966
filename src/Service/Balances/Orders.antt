-- ===== src/Service/Balances/Orders.antt =====
-- The lookups of `get_address_token_balances` of service.py against one after the other.
use mathlib.Core.Path.{subst}
use algorandscout.Client.Config.{Config}
use algorandscout.Prelude.{
  All, Bool-cases, List, Option, Text, [], ap, arith, inl, inr, length, min, refl, suc, zero, ℕ,
  ◌*◌, ◌-◌, ◌<◌, ◌==◌, ◌∙◌, ◌∷◌, ◌≡◌,
}
use algorandscout.Python.{Exception, Platform, Result, Value, ok, raise, traverse}
use algorandscout.Service.{answer}
use algorandscout.Service.Balances.{
  Lookup, act, admit, gather, over, queued, resolve_concurrency, resolve_one, running, started,
  step, tasks_of, trying, waiting,
}
use algorandscout.Service.Balances.Endings.{IsEnded, gather-ends}
use algorandscout.Service.Balances.Moves.{ids_of}
use algorandscout.Service.Balances.Slots.{
  IsFull, Stepped, started-IsFull, started-ids, step-Stepped,
}
use algorandscout.Service.Balances.Verdicts.{
  AnswersByUrl, Any, Fits, Fitting, Told, act-Fitting, resolve_one-verdict, verdict,
}
use algorandscout.World.{Attempt, Net, World, continue, pure, ◌>>=◌}

module _ (P : Platform) (c : Config) (answer : Text → Attempt) where
  admit-Fits :
      (places : ℕ) (jobs : List Lookup)
      → All (Fits P c answer) jobs
      → All (Fits P c answer) (admit places jobs)
  unfolding admit
  admit-Fits zero jobs a = a
  admit-Fits (suc places) [] a = tt
  admit-Fits (suc places) ((id, queued) ∷ l) (q, a) = (tt, admit-Fits places l a)
  admit-Fits (suc places) ((id, trying left n) ∷ l) (q, a) = (tt, admit-Fits (suc places) l a)
  admit-Fits (suc places) ((id, over v) ∷ l) (q, a) = (q, admit-Fits (suc places) l a)

  tasks_of-Fits : (ids : List Value) → All (Fits P c answer) (tasks_of ids)
  tasks_of-Fits [] = tt
  tasks_of-Fits (id ∷ ids) = (tt, tasks_of-Fits ids)

  admitted-Fitting :
      (jobs : List Lookup) (r : Result (List Lookup) × World)
      → Fitting P c answer jobs r
      → Fitting P c answer jobs
          (continue (λ moved. pure (admit (resolve_concurrency - running moved) moved)) r)
  unfolding pure
  admitted-Fitting jobs (ok moved, w') (h, a) = (h, admit-Fits _ moved a)
  admitted-Fitting jobs (raise e, w') (h, a) = (h, a)

  -- `gather` from the middle on: the ids stay as they are, by what a step leaves.
  continue-Fitting :
      (jobs : List Lookup) (w : World) (r : Result (List Lookup) × World)
      → (f : List Lookup → Net (List Lookup)) → Stepped jobs w r
      → Fitting P c answer jobs r
      → ((moved : List Lookup) (w' : World)
          → IsFull moved
          → AnswersByUrl answer w'
          → All (Fits P c answer) moved
          → Fitting P c answer moved (f moved w'))
      → Fitting P c answer jobs (continue f r)
  continue-Fitting jobs w (raise e, w') f stepped (h, a) k = (h, a)
  continue-Fitting jobs w (ok moved, w') f (up, one, (fewer, full, same)) (h, a) k =
      subst
        (λ ids.
          AnswersByUrl answer (f moved w').1
          × Told (All (Fits P c answer)) (λ e. Any (λ id. verdict P c answer id ≡ raise e) ids)
              (f moved w').0)
        same (k moved w' full h a)

  step-Fitting :
      (k : ℕ) (jobs : List Lookup) (w : World)
      → AnswersByUrl answer w
      → All (Fits P c answer) jobs
      → Fitting P c answer jobs (step P c k jobs w)
  unfolding step ◌>>=◌
  step-Fitting k jobs w h a =
      admitted-Fitting jobs (act P c (min k (running jobs - 1)) jobs w)
        (act-Fitting P c answer (min k (running jobs - 1)) jobs w h a)

  gather-Fitting :
      (pick : ℕ → ℕ) (turns : ℕ) (jobs : List Lookup) (w : World)
      → IsFull jobs
      → AnswersByUrl answer w
      → All (Fits P c answer) jobs
      → Fitting P c answer jobs (gather P c turns pick jobs w)
  unfolding gather ◌>>=◌ pure
  gather-Fitting pick zero jobs w full h a = (h, a)
  gather-Fitting pick (suc turns) jobs w full h a = elim (Bool-cases (running jobs == 0)) [
    | inl idle ↦ rw idle (h, a)
    | inr busy ↦
        let some_running : 0 < running jobs = ground arith in
        rw busy (
          continue-Fitting jobs w (step P c (pick turns) jobs w) (gather P c turns pick)
            (step-Stepped P c (pick turns) jobs w some_running full)
            (step-Fitting (pick turns) jobs w h a)
            (λ moved w' full' h' a'. gather-Fitting pick turns moved w' full' h' a'))
  ]

-- What `gather` collects of a lookup that runs on its own.
abbrev pub returned : Value → Result (Option Value) → Result Lookup
returned id (ok found) = ok (id, over found)
returned id (raise e) = raise e

abbrev pub alone : Platform → Config → World → Value → Result Lookup
alone P c w id = returned id (resolve_one P c id w).0

-- The results are those of the lookups on their own, one after the other; or what was raised is what
-- one of them raises.
abbrev pub IsSerial : Platform → Config → World → List Value → Result (List Lookup) → Type 0
IsSerial P c w ids (ok jobs) = traverse (alone P c w) ids ≡ ok jobs
IsSerial P c w ids (raise e) = Any (λ id. (resolve_one P c id w).0 ≡ raise e) ids

returned-IsSerial :
    (P : Platform) (c : Config) (answer : Text → Attempt) (w : World) (jobs : List Lookup)
    → AnswersByUrl answer w
    → running jobs ≡ 0
    → waiting jobs ≡ 0
    → All (Fits P c answer) jobs
    → traverse (alone P c w) (ids_of jobs) ≡ ok jobs
returned-IsSerial P c answer w [] h stop none_it a = refl
returned-IsSerial P c answer w ((id, queued) ∷ l) h stop none_it a = absurd (omega arith)
returned-IsSerial P c answer w ((id, trying left n) ∷ l) h stop none_it a = absurd (omega arith)
returned-IsSerial P c answer w ((id, over found) ∷ l) h stop none_it (q, a) =
    let first : alone P c w id ≡ ok (id, over found) =
      ap (returned id) (resolve_one-verdict P c answer id w h ∙ q) in
    rw (first, returned-IsSerial P c answer w l h (omega arith) (omega arith) a) refl

raised-IsSerial :
    (P : Platform) (c : Config) (answer : Text → Attempt) (w : World) (e : Exception)
    → (ids : List Value) → AnswersByUrl answer w
    → Any (λ id. verdict P c answer id ≡ raise e) ids
    → Any (λ id. (resolve_one P c id w).0 ≡ raise e) ids
raised-IsSerial P c answer w e [] h a = a
raised-IsSerial P c answer w e (id ∷ ids) h (inl q) =
    inl (resolve_one-verdict P c answer id w h ∙ q)
raised-IsSerial P c answer w e (id ∷ ids) h (inr a) = inr (raised-IsSerial P c answer w e ids h a)

ended-IsSerial :
    (P : Platform) (c : Config) (answer : Text → Attempt) (w : World) (ids : List Value)
    → (r : Result (List Lookup) × World) → AnswersByUrl answer w
    → IsEnded ids r.0
    → Fitting P c answer (started ids) r
    → IsSerial P c w ids r.0
ended-IsSerial P c answer w ids (ok jobs, w') h (stop, none_it, same) (h', a) =
    subst (λ l. traverse (alone P c w) l ≡ ok jobs) same
      (returned-IsSerial P c answer w jobs h stop none_it a)
ended-IsSerial P c answer w ids (raise e, w') h ended_it (h', a) =
    raised-IsSerial P c answer w e ids h
      (subst (Any (λ id. verdict P c answer id ≡ raise e)) (started-ids ids) a)

-- If the upstream's answer depends on the URL alone, the concurrent lookups give what the same
-- lookups give one after the other, however the event loop orders the attempts: the same results in
-- the order of the assets, or else an exception that one of the lookups raises on its own.
pub gather-resolve_one :
    (P : Platform) (c : Config) (answer : Text → Attempt) (pick : ℕ → ℕ) (ids : List Value)
    → (w : World) → AnswersByUrl answer w
    → IsSerial P c w ids (gather P c (3 * length ids) pick (started ids) w).0
gather-resolve_one P c answer pick ids w h =
    ended-IsSerial P c answer w ids (gather P c (3 * length ids) pick (started ids) w) h
      (gather-ends P c pick ids w).1
      (gather-Fitting P c answer pick (3 * length ids) (started ids) w (started-IsFull ids) h
        (admit-Fits P c answer resolve_concurrency (tasks_of ids) (tasks_of-Fits P c answer ids)))
