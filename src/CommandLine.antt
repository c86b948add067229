-- ===== src/CommandLine.antt =====
-- src/acquire_intel/cli.py. What `argparse` makes of the arguments is a parameter, and what it prints is
-- left out.
mod Tests
use acquire_intel.Prelude.{ℕ, Option, none, some, List, Text, codes, eqb, if◌then◌else◌}
use acquire_intel.Storage.Models.{Database}
use acquire_intel.Acquisition.Runner.{Process, DriftLimits, Exit, code, run_crawl}

-- The namespace that `build_parser` describes.
pub record Args : Type 0 where
  pub command : Option Text
  pub source : Text
  pub run_id : Option Text

abbrev with_args :
    Process → DriftLimits → Text → ℕ → ℕ → Database → Option Text → Args → Exit × Database
with_args p limits fresh opened_at closed_at db none args = (code 0, db)
with_args p limits fresh opened_at closed_at db (some command) args =
    if eqb command (codes "crawl")
    then run_crawl p limits args.source args.run_id fresh opened_at closed_at db
    else (code 0, db)

unfoldable pub main :
    (List Text → Args)
    → Process
    → DriftLimits
    → Text
    → ℕ
    → ℕ
    → List Text
    → Database
    → Exit × Database
unfolding run_crawl eqb
main parse_args p limits fresh opened_at closed_at argv db =
    let args = parse_args argv in with_args p limits fresh opened_at closed_at db args.command args
