-- ===== src/Service/Balances/Endings.antt =====
-- How the lookups of `get_address_token_balances` of service.py end.
use mathlib.Core.Path.{subst}
-- What some turns leave: no more requests than attempts were left, the same ids, a full semaphore.
use algorandscout.Client.Config.{Config}
use algorandscout.Prelude.{
  Bool-cases, List, [], arith, inl, inr, length, refl, suc, zero, ℕ, ◌*◌, ◌+◌, ◌<◌, ◌==◌, ◌∙◌, ◌∷◌,
  ◌≡◌, ◌≤◌, ◌⊎◌,
}
use algorandscout.Python.{Platform, Result, Value, ok, raise}
use algorandscout.Service.Balances.{Lookup, gather, over, queued, running, started, trying, waiting}
use algorandscout.Service.Balances.Moves.{After, attempts_left, ids_of}
use algorandscout.Service.Balances.Slots.{
  IsFull, Stepped, started-IsFull, started-attempts, started-ids, step-Stepped,
}
use algorandscout.World.{Net, World, continue, pure, ◌>>=◌}

abbrev Ran : ℕ → List Lookup → World → Result (List Lookup) × World → Type 0
Ran turns jobs w (r, w') =
    (w'.upstream ≡ w.upstream)
    × (length w'.sent ≤ length w.sent + attempts_left jobs)
    × After
        (λ jobs'.
          IsFull jobs'
          × (ids_of jobs' ≡ ids_of jobs)
          × (attempts_left jobs ≤ turns → running jobs' ≡ 0))
        r

running-attempts : (jobs : List Lookup) → running jobs ≤ attempts_left jobs
running-attempts [] = omega arith
running-attempts ((id, queued) ∷ l) = omega (arith, running-attempts l)
running-attempts ((id, trying left n) ∷ l) = omega (arith, running-attempts l)
running-attempts ((id, over found) ∷ l) = omega (arith, running-attempts l)

continue-Ran :
    (turns : ℕ) (jobs : List Lookup) (w : World) (r : Result (List Lookup) × World)
    → (f : List Lookup → Net (List Lookup)) → (0 < attempts_left jobs)
    → Stepped jobs w r
    → ((moved : List Lookup) (w' : World) → IsFull moved → Ran turns moved w' (f moved w'))
    → Ran (suc turns) jobs w (continue f r)
continue-Ran turns jobs w (raise e, w') f some_left (up, one, done) k = (up, omega arith, tt)
continue-Ran turns jobs w (ok moved, w') f some_left (up, one, (fewer, full, same)) k =
    after_lem (f moved w') (k moved w' full)
  where
    after_lem : (r : Result (List Lookup) × World) → Ran turns moved w' r → Ran (suc turns) jobs w r
    after_lem (raise e, v) (up', few, done) = (up' ∙ up, omega arith, tt)
    after_lem (ok jobs', v) (up', few, (full', same', end_it)) =
        (up' ∙ up, omega arith, (full', same' ∙ same, λ h. end_it (omega arith)))

module _ (P : Platform) (c : Config) (pick : ℕ → ℕ) where
  pub gather-Ran :
      (turns : ℕ) (jobs : List Lookup) (w : World)
      → IsFull jobs
      → Ran turns jobs w (gather P c turns pick jobs w)
  unfolding gather ◌>>=◌ pure
  gather-Ran zero jobs w full =
      (refl, omega arith, (full, refl, λ h. omega (arith, running-attempts jobs)))
  gather-Ran (suc turns) jobs w full = elim (Bool-cases (running jobs == 0)) [
    | inl idle ↦ rw idle (refl, omega arith, (full, refl, λ h. ground arith))
    | inr busy ↦
        let some_running : 0 < running jobs = ground arith in
        rw busy (
          continue-Ran turns jobs w _ (gather P c turns pick) (omega (arith, running-attempts jobs))
            (step-Stepped P c (pick turns) jobs w some_running full)
            (λ moved w' full'. gather-Ran turns moved w' full'))
  ]

Ran-slots :
    (turns : ℕ) (ids : List Value) (w : World) (r : Result (List Lookup) × World)
    → (jobs : List Lookup) → Ran turns (started ids) w r
    → r.0 ≡ ok jobs
    → IsFull jobs
Ran-slots turns ids w (raise e, w') jobs h eq = cc
Ran-slots turns ids w (ok jobs', w') jobs (up, few, (full, same, done)) eq =
    let e : jobs' ≡ jobs = cc in subst IsFull e full

-- However the event loop orders the attempts, and after any number of them, at most 8 lookups are in
-- flight; and while fewer are, none waits for the semaphore.
pub gather-slots :
    (P : Platform) (c : Config) (pick : ℕ → ℕ) (turns : ℕ) (ids : List Value) (w : World)
    → (jobs : List Lookup) → (gather P c turns pick (started ids) w).0 ≡ ok jobs
    → (running jobs ≤ 8) × ((running jobs ≡ 8) ⊎ (waiting jobs ≡ 0))
gather-slots P c pick turns ids w jobs =
    Ran-slots turns ids w (gather P c turns pick (started ids) w) jobs
      (gather-Ran P c pick turns (started ids) w (started-IsFull ids))

-- Every lookup has returned, for the ids in their order; or one has raised.
abbrev pub IsEnded : List Value → Result (List Lookup) → Type 0
IsEnded ids (ok jobs) = (running jobs ≡ 0) × (waiting jobs ≡ 0) × (ids_of jobs ≡ ids)
IsEnded ids (raise e) = Unit

Ran-ends :
    (ids : List Value) (w : World) (r : Result (List Lookup) × World)
    → Ran (3 * length ids) (started ids) w r
    → (length r.1.sent ≤ length w.sent + 3 * length ids) × IsEnded ids r.0
Ran-ends ids w (raise e, w') (up, few, done) = (omega (arith, started-attempts ids), tt)
Ran-ends ids w (ok jobs, w') (up, few, (full, same, done)) =
    let stop : running jobs ≡ 0 = done (omega (arith, started-attempts ids)) in
    (
      omega (arith, started-attempts ids),
      (
        stop,
        elim full.1 [ inl busy ↦ omega arith | inr none_it ↦ none_it ],
        same ∙ started-ids ids,
      ),
    )

-- However the event loop orders the attempts, `gather` is over within 3 requests per asset: no
-- lookup runs or waits any more, and there is a result for each asset, in their order, or else
-- `gather` has raised.
pub gather-ends :
    (P : Platform) (c : Config) (pick : ℕ → ℕ) (ids : List Value) (w : World)
    → (length (gather P c (3 * length ids) pick (started ids) w).1.sent
        ≤ length w.sent + 3 * length ids)
      × IsEnded ids (gather P c (3 * length ids) pick (started ids) w).0
gather-ends P c pick ids w =
    Ran-ends ids w (gather P c (3 * length ids) pick (started ids) w)
      (gather-Ran P c pick (3 * length ids) (started ids) w (started-IsFull ids))
