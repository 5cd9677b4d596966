-- ===== src/Command.antt =====
-- algorandscout/__main__.py: the command line of the service.
pub mod Started
use algorandscout.Prelude.{
  Bool, List, Option, Text, codes, false, if◌then◌else◌, none, not, some, ℕ,
}
use algorandscout.Prelude.Int.{ℤ}
use algorandscout.Python.{Platform}

-- The environment variables that `main` reads; `none` where one is not set.
pub record ServiceVariables : Type 0 where
  pub host : Option Text
  pub port : Option Text
  pub log_level : Option Text

-- What `parse_args` returns, and before that the defaults that the arguments are declared with.
pub record Arguments : Type 0 where
  pub host : Text
  pub port : ℤ
  pub log_level : Text
  pub reload : Bool

-- `argparse` returns the arguments, or exits: with a usage error, or behind `--help`.
pub data Parsed : Type 0 where
  parsed : Arguments → Parsed
  exits : ℕ → Parsed

-- What `main` uses of Python's libraries: `str.upper`, whether `logging` knows a level by this name,
-- `argparse` with the defaults of the four arguments, and whether uvicorn can be imported.
pub record Runtime : Type 0 where
  pub upper : Text → Text
  pub is_level : Text → Bool
  pub parse_args : Arguments → List Text → Parsed
  pub has_uvicorn : Bool

-- How `main` ends: in the call `uvicorn.run("algorandscout.service:app", ...)`, by `SystemExit` from
-- `argparse` or with a message, or in a `ValueError`.
pub data Ending : Type 0 where
  serves : Arguments → Ending
  leaves : ℕ → Ending
  refuses : Text → Ending
  fails : Ending

-- `os.environ.get(name, default)`
abbrev pub environ : Option Text → Text → Text
environ none default = default
environ (some value) default = value

abbrev pub extra_required : Text
extra_required = codes "the service extra is required: pip install 'algorandscout[service]'"

-- The defaults of the arguments; `none` where `int` raises on the port.
unfoldable pub defaults : Platform → ServiceVariables → Option Arguments
defaults P env = elim (P.parse_int (environ env.port (codes "8100"))) [
  | none ↦ none
  | some port ↦ some (record {
    host = environ env.host (codes "127.0.0.1");
    port = port;
    log_level = environ env.log_level (codes "info");
    reload = false;
  })
]

module _ (R : Runtime) where
  -- What follows the parsing of the arguments.
  unfoldable pub launch : Arguments → Ending
  launch args =
      if not (R.is_level (R.upper args.log_level))
      then fails
      else if R.has_uvicorn
      then serves args
      else refuses extra_required

  unfoldable pub proceed : Parsed → Ending
  proceed (parsed args) = launch args
  proceed (exits code) = leaves code

  -- `main` from the declaration of its arguments on.
  unfoldable pub main_from : Option Arguments → List Text → Ending
  main_from none argv = fails
  main_from (some declared) argv = proceed (R.parse_args declared argv)

  -- `main`, on the environment and the command line.
  unfoldable pub main : Platform → ServiceVariables → List Text → Ending
  unfolding main_from
  main P env argv = main_from (defaults P env) argv
