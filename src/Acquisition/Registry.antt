-- ===== src/Acquisition/Registry.antt =====
-- src/acquire_intel/acquisition/registry.py: which class crawls which source. A class is read here for
-- its `kind` alone; sources/live_rest.py is a REST extractor under an id of its own.
mod Laws
use acquire_intel.Prelude.{
  ℕ, Bool, true, false, Option, none, some, List, [], ◌∷◌, map, ltb, if◌then◌else◌, Text, codes,
  Dict, get,
}
use acquire_intel.Prelude.Sorting.{sort_by}
use acquire_intel.Acquisition.Runner.{SpiderClass}

-- A class without a `kind`.
abbrev pub no_op_spider : SpiderClass
no_op_spider = record { kind = none }

abbrev pub demo_rest_extractor : SpiderClass
demo_rest_extractor = record { kind = some (codes "rest") }

abbrev pub demo_html_extractor : SpiderClass
demo_html_extractor = record { kind = some (codes "html") }

abbrev pub demo_graphql_extractor : SpiderClass
demo_graphql_extractor = record { kind = some (codes "graphql") }

-- It inherits the kind.
abbrev pub live_rest_extractor : SpiderClass
live_rest_extractor = demo_rest_extractor

-- _REGISTRY
abbrev pub registry : Dict SpiderClass
registry =
    (codes "demo", no_op_spider)
    ∷ (codes "demo_rest", demo_rest_extractor)
    ∷ (codes "demo_html", demo_html_extractor)
    ∷ (codes "demo_graphql", demo_graphql_extractor)
    ∷ (codes "live_rest", live_rest_extractor)
    ∷ []

unfoldable pub get_spider : Text → Option SpiderClass
unfolding get
get_spider source_id = get registry source_id

-- a <= b, by code points
unfoldable pub le_text : Text → Text → Bool
le_text [] b = true
le_text (c ∷ a) [] = false
le_text (c ∷ a) (d ∷ b) =
    let rest = le_text a b in if ltb c d then true else if ltb d c then false else rest

unfoldable pub known_sources : List Text
unfolding sort_by le_text
known_sources = sort_by le_text (map (λ (entry : Text × SpiderClass). entry.0) registry)
