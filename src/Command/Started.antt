-- ===== src/Command/Started.antt =====
-- When the command line of `__main__.py` starts the service, and with what.
use algorandscout.Command.{
  Arguments, Parsed, Runtime, ServiceVariables, defaults, exits, launch, main, main_from, parsed,
  proceed, serves,
}
use algorandscout.Prelude.{List, Option-cases, Text, ap, arith, inl, inr, some, true, ◌↔◌, ◌≡◌}
use algorandscout.Python.{Platform}

module _ (R : Runtime) where
  launch-serves :
      (args given : Arguments)
      → launch R given ≡ serves args
      → (given ≡ args) × (R.is_level (R.upper given.log_level) ≡ true) × (R.has_uvicorn ≡ true)
  unfolding launch
  launch-serves args given h = ground arith

  serves-launch :
      (args : Arguments)
      → R.is_level (R.upper args.log_level) ≡ true
      → R.has_uvicorn ≡ true
      → launch R args ≡ serves args
  unfolding launch
  serves-launch args known there = ground arith

  proceed-serves :
      (p : Parsed) (args : Arguments)
      → proceed R p ≡ serves args
      → (p ≡ parsed args) × (R.is_level (R.upper args.log_level) ≡ true) × (R.has_uvicorn ≡ true)
  unfolding proceed
  proceed-serves (parsed given) args h =
      let (same, known, there) = launch-serves args given h in (ap parsed same, cc, there)
  proceed-serves (exits code) args h = cc

module _ (P : Platform) (R : Runtime) where
  -- The service can be started with these arguments, and the command line and the variables ask for
  -- them.
  abbrev pub IsStarted : ServiceVariables → List Text → Arguments → Type 0
  IsStarted env argv args =
      (declared : Arguments) × (defaults P env ≡ some declared)
      × (R.parse_args declared argv ≡ parsed args)
      × (R.is_level (R.upper args.log_level) ≡ true)
      × (R.has_uvicorn ≡ true)

  -- `main` calls `uvicorn.run` with some arguments if and only if `OPENBDK_PORT`, or 8100 where it
  -- is not set, is an integer, `argparse` makes these arguments of the command line with the
  -- variables as defaults, `logging` knows the level in capitals, and uvicorn can be imported.
  pub main-serves :
      (env : ServiceVariables) (argv : List Text) (args : Arguments)
      → (main R P env argv ≡ serves args) ↔ IsStarted env argv args
  unfolding main main_from
  main-serves env argv args = (
    λ h. elim (Option-cases (defaults P env)) [
      | inl e ↦ absurd (let bad = rw e at h in cc)
      | inr (declared, e) ↦
          let (same, known, there) =
            proceed-serves R (R.parse_args declared argv) args (rw e at h) in
          (declared, e, same, known, there)
    ],
    λ (declared, e, same, known, there).
        rw (e, same) (unfold proceed in serves-launch R args known there),
  )
