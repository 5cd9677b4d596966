-- ===== src/Service/Balances/Slots.antt =====
-- The semaphore of `get_address_token_balances` of service.py.
use algorandscout.Client.Config.{Config}
use algorandscout.Prelude.{
  List, [], ap, arith, inl, inr, length, min, refl, suc, zero, ℕ, ◌*◌, ◌+◌, ◌-◌, ◌<◌, ◌∙◌, ◌∷◌, ◌≡◌,
  ◌≤◌, ◌⊎◌,
}
use algorandscout.Python.{Platform, Result, Value, ok, raise}
use algorandscout.Service.Balances.{
  Lookup, admit, over, queued, resolve_concurrency, running, started, step, tasks_of, trying,
  waiting,
}
use algorandscout.Service.Balances.Moves.{After, Moved, act-Moved, attempts_left, ids_of}
use algorandscout.World.{World, continue, pure, ◌>>=◌}

-- The semaphore's places are not exceeded, and nobody waits while one is free.
abbrev pub IsFull : List Lookup → Type 0
IsFull jobs =
    (running jobs ≤ resolve_concurrency)
    × ((running jobs ≡ resolve_concurrency) ⊎ (waiting jobs ≡ 0))

admit-counts :
    (places : ℕ) (jobs : List Lookup)
    → (running (admit places jobs) ≤ running jobs + places)
      × ((running (admit places jobs) ≡ running jobs + places) ⊎ (waiting (admit places jobs) ≡ 0))
      × (attempts_left (admit places jobs) ≡ attempts_left jobs)
      × (ids_of (admit places jobs) ≡ ids_of jobs)
unfolding admit
admit-counts zero jobs = (omega arith, inl (omega arith), refl, refl)
admit-counts (suc places) [] = (omega arith, inr refl, refl, refl)
admit-counts (suc places) ((id, queued) ∷ l) =
    let (a, b, e, s) = admit-counts places l in
    (
      omega arith,
      elim b [ inl full ↦ inl (omega arith) | inr none_it ↦ inr (omega arith) ],
      omega arith,
      ap (◌∷◌ id) s,
    )
admit-counts (suc places) ((id, trying left n) ∷ l) =
    let (a, b, e, s) = admit-counts (suc places) l in
    (
      omega arith,
      elim b [ inl full ↦ inl (omega arith) | inr none_it ↦ inr (omega arith) ],
      omega arith,
      ap (◌∷◌ id) s,
    )
admit-counts (suc places) ((id, over found) ∷ l) =
    let (a, b, e, s) = admit-counts (suc places) l in
    (
      omega arith,
      elim b [ inl full ↦ inl (omega arith) | inr none_it ↦ inr (omega arith) ],
      omega arith,
      ap (◌∷◌ id) s,
    )

-- The places that are free are given away.
pub admit-IsFull :
    (jobs : List Lookup)
    → running jobs ≤ resolve_concurrency
    → IsFull (admit (resolve_concurrency - running jobs) jobs)
admit-IsFull jobs h =
    let (a, b, e, s) = admit-counts (resolve_concurrency - running jobs) jobs in
    (omega arith, elim b [ inl full ↦ inl (omega arith) | inr none_it ↦ inr (omega arith) ])

queued-counts :
    (ids : List Value)
    → (running (tasks_of ids) ≡ 0)
      × (ids_of (tasks_of ids) ≡ ids)
      × (attempts_left (tasks_of ids) ≡ 3 * length ids)
queued-counts [] = (refl, refl, refl)
queued-counts (id ∷ ids) =
    let (a, s, e) = queued-counts ids in (omega arith, ap (◌∷◌ id) s, omega arith)

pub started-IsFull : (ids : List Value) → IsFull (started ids)
started-IsFull ids =
    let (none_yet, same, all_left) = queued-counts ids in
    let (a, b, e, s) = admit-counts resolve_concurrency (tasks_of ids) in
    (omega arith, elim b [ inl full ↦ inl (omega arith) | inr none_it ↦ inr (omega arith) ])

pub started-attempts : (ids : List Value) → attempts_left (started ids) ≡ 3 * length ids
started-attempts ids =
    let (none_yet, same, all_left) = queued-counts ids in
    let (a, b, e, s) = admit-counts resolve_concurrency (tasks_of ids) in e ∙ all_left

pub started-ids : (ids : List Value) → ids_of (started ids) ≡ ids
started-ids ids =
    let (none_yet, same, all_left) = queued-counts ids in
    let (a, b, e, s) = admit-counts resolve_concurrency (tasks_of ids) in s ∙ same

-- What a whole step leaves: fewer attempts, a full semaphore, the same ids, one more request.
abbrev pub Stepped : List Lookup → World → Result (List Lookup) × World → Type 0
Stepped jobs w (r, w') =
    (w'.upstream ≡ w.upstream)
    × (length w'.sent ≡ suc (length w.sent))
    × After
        (λ jobs'.
          (attempts_left jobs' < attempts_left jobs) × IsFull jobs' × (ids_of jobs' ≡ ids_of jobs))
        r

admitted-Stepped :
    (jobs : List Lookup) (w : World) (r : Result (List Lookup) × World)
    → running jobs ≤ resolve_concurrency
    → Moved jobs w r
    → Stepped jobs w
        (continue (λ moved. pure (admit (resolve_concurrency - running moved) moved)) r)
unfolding pure
admitted-Stepped jobs w (raise e, w') h (up, one, done) = (up, one, tt)
admitted-Stepped jobs w (ok moved, w') h (up, one, (a, b, e, s)) =
    let (_, _, same, ids) = admit-counts (resolve_concurrency - running moved) moved in
    (up, one, (omega arith, admit-IsFull moved (omega arith), ids ∙ s))

module _ (P : Platform) (c : Config) where
  pub step-Stepped :
      (k : ℕ) (jobs : List Lookup) (w : World)
      → 0 < running jobs
      → IsFull jobs
      → Stepped jobs w (step P c k jobs w)
  unfolding step ◌>>=◌
  step-Stepped k jobs w h full =
      admitted-Stepped jobs w _ full.0
        (act-Moved P c (min k (running jobs - 1)) jobs w (omega arith))
