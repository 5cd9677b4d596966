-- ===== src/Witnesses/Commands.antt =====
-- Tests of the command line.
use algorandscout.Command.{
  Arguments, Parsed, Runtime, ServiceVariables, defaults, exits, launch, leaves, main, main_from,
  parsed, proceed, serves,
}
use algorandscout.Prelude.{
  List, Text, [], codes, false, if◌then◌else◌, none, refl, some, text_eq, true, ◌∷◌, ◌≡◌,
}
use algorandscout.Prelude.Int.{pos}
use algorandscout.Python.{Platform}
use algorandscout.Witnesses.{ascii}

-- Without arguments `argparse` returns the defaults; any argument is one it does not know.
abbrev parse_none : Arguments → List Text → Parsed
parse_none declared [] = parsed declared
parse_none declared (word ∷ argv) = exits 2

abbrev installed : Runtime
installed = record {
  upper = λ s. s;
  is_level = λ s. text_eq s (codes "info");
  parse_args = parse_none;
  has_uvicorn = true;
}

abbrev knows_8100 : Platform
knows_8100 = record ascii {
  parse_int = λ s. if text_eq s (codes "8100") then some (pos 8100) else none;
}

abbrev host_set : ServiceVariables
host_set = record { host = some (codes "0.0.0.0"); port = none; log_level = none }

abbrev on_all_hosts : Arguments
on_all_hosts = record {
  host = codes "0.0.0.0";
  port = pos 8100;
  log_level = codes "info";
  reload = false;
}

is_served : main installed knows_8100 host_set [] ≡ serves on_all_hosts
unfolding main main_from proceed launch defaults
is_served = refl

is_left : main installed knows_8100 host_set (codes "--verbose" ∷ []) ≡ leaves 2
unfolding main main_from proceed launch defaults
is_left = refl
