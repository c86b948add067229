-- ===== src/CommandLine/Tests.antt =====
-- The command line without a command, and a crawl of a source that no class crawls.
use acquire_intel.Prelude.{◌≡◌, refl, true, none, some, List, [], ◌∷◌, Text, codes, builtins}
use acquire_intel.Prelude.Ratio.{ratio}
use acquire_intel.Storage.Models.{Database}
use acquire_intel.Acquisition.Runner.{Process, crashed, DriftLimits, code, run_crawl}
use acquire_intel.Acquisition.Registry.{get_spider}
use acquire_intel.CommandLine.{Args, main}

abbrev parse_args : List Text → Args
parse_args [] = record { command = none; source = []; run_id = none }
parse_args (source ∷ argv) = record {
  command = some (codes "crawl");
  source = source;
  run_id = none;
}

abbrev broken : Process
broken = record {
  get_spider = get_spider;
  prepare = λ source args. true;
  start = λ source args db. (crashed, [], db);
}

abbrev limits : DriftLimits
limits = record { min_entries = 1; max_unmapped_ratio = ratio 1 2 }

abbrev empty : Database
empty = record {
  sources = [];
  products = [];
  crawl_runs = [];
  price_observations = [];
  ban_events = [];
}

no_command : main parse_args broken limits [] 0 1 [] empty ≡ (code 0, empty)
unfolding main
no_command = refl

unknown_source : main parse_args broken limits [] 0 1 (codes "nowhere" ∷ []) empty ≡ (code 2, empty)
unfolding main run_crawl get_spider builtins
unknown_source = refl
