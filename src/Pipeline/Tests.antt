-- ===== src/Pipeline/Tests.antt =====
-- Runs of the pipelines, and their theorems at concrete inputs.
use acquire_intel.Prelude.{
  ℕ, ◌≡◌, refl, ◌≢◌, ◌⊎◌, true, false, none, some, List, [], ◌∷◌, map, Text, codes, builtins, All,
  IsDigit, read, ℤ,
}
use acquire_intel.Storage.Decimal.{Decimal, decimal, lt_decimal}
use acquire_intel.Storage.Models.{Database}
use acquire_intel.Storage.Observations.{latest_amounts_for_source, append}
use acquire_intel.Storage.Runs.{baseline_count}
use acquire_intel.Storage.Products.{upsert}
use acquire_intel.Pipeline.Spiders.{Spider, volume_anomaly}
use acquire_intel.Pipeline.Price.{
  Unicode, text, int, returned, raised, unparseable_price, non_finite_price, parse_price,
}
use acquire_intel.Pipeline.Price.Laws.{amount_of, parse_price-whole}
use acquire_intel.Pipeline.Title.{normalize_title, split, join}
use acquire_intel.Pipeline.Normalize.{RawProduct, NormalizedItem, Capture, normalize}
use acquire_intel.Pipeline.Normalize.Laws.{IsCanonical, normalize-IsCanonical}
use acquire_intel.Pipeline.Items as Items
use acquire_intel.Pipeline.Items.Laws.{Accounted, process_all-Accounted}
use acquire_intel.Pipeline.Quality.{default_thresholds, check_volume}
use acquire_intel.Pipeline.Persistence as Persistence
use acquire_intel.Pipeline.Persistence.Laws.{Quarantined, Committed, Present, close_spider-atomic}
use acquire_intel.Pipeline.Run.{crawl}
use acquire_intel.Pipeline.Run.Laws.{Written, accepted, crawl-Written}

-- Unicode data that knows no character beyond ASCII.
abbrev ascii : Unicode
ascii = record { upper = λ c. c ∷ []; is_alpha = λ c. false; digit = λ c. none }

reads_point : parse_price ascii (text (codes " 1_2.50 ")) ≡ returned (decimal 1250 2)
unfolding parse_price builtins read lt_decimal
reads_point = refl

reads_exponent : parse_price ascii (text (codes "+1.5E3")) ≡ returned (decimal 1500 0)
unfolding parse_price builtins read lt_decimal
reads_exponent = refl

refuses_words : parse_price ascii (text (codes "-Infinity")) ≡ raised non_finite_price
unfolding parse_price builtins read lt_decimal
refuses_words = refl

refuses_rest : parse_price ascii (text (codes "12 EUR")) ≡ raised unparseable_price
unfolding parse_price builtins read lt_decimal
refuses_rest = refl

parse_price-whole_example :
    ((c : ℕ) (s : Text)
      → All IsDigit (c ∷ s)
      → parse_price ascii (text (c ∷ s)) ≡ returned (decimal (read 0 (c ∷ s)) 0))
    × ((z : ℤ) → parse_price ascii (int z) ≡ amount_of z)
parse_price-whole_example = parse_price-whole ascii

title_run : normalize_title (codes "  Red   shoe ") ≡ returned (codes "Red shoe")
unfolding normalize_title split join builtins
title_run = refl

abbrev shoe : RawProduct
shoe = record {
  external_id = codes "7";
  title = codes " Red  shoe";
  url = codes "https://shop.test/7";
  raw_price = text (codes "12.50");
  currency = some (codes " eur");
  in_stock = some true;
  brand = none;
  image_url = none;
}

abbrev at_noon : Capture
at_noon = record {
  source_id = codes "shop";
  run_id = codes "r1";
  captured_at = 12;
  default_currency = none;
}

abbrev shoe_item : NormalizedItem
shoe_item = record {
  product = record {
    id = codes "shop:7";
    source_id = codes "shop";
    external_id = codes "7";
    title = codes "Red shoe";
    url = codes "https://shop.test/7";
    brand = none;
    image_url = none;
    latest_price = some (record { amount = decimal 1250 2; currency = codes "EUR" });
    in_stock = some true;
    first_seen_at = 12;
    last_seen_at = 12;
  };
  observation = record {
    product_id = codes "shop:7";
    source_id = codes "shop";
    run_id = codes "r1";
    amount = decimal 1250 2;
    currency = codes "EUR";
    in_stock = some true;
    captured_at = 12;
  };
}

shoe_run : normalize ascii shoe at_noon ≡ returned shoe_item
unfolding normalize parse_price read normalize_title builtins lt_decimal
shoe_run = refl

normalize-IsCanonical_example : IsCanonical ascii shoe at_noon shoe_item
normalize-IsCanonical_example = normalize-IsCanonical ascii shoe at_noon shoe_item shoe_run

abbrev spider : Spider
spider = record {
  name = codes "shop";
  id = some (codes "shop");
  kind = some (codes "rest");
  run_id = some (codes "r1");
  default_currency = some (codes "EUR");
}

abbrev listing : List (ℕ × Items.Item)
listing = (12, Items.raw shoe) ∷ (13, Items.raw shoe) ∷ (14, Items.other) ∷ []

process_all-Accounted_example :
    Accounted ascii 3
      (Items.open_spider (codes "f") (some []) spider)
      (Items.process_all ascii listing (Items.open_spider (codes "f") (some []) spider)).0
      (Items.process_all ascii listing (Items.open_spider (codes "f") (some []) spider)).1
process_all-Accounted_example =
    process_all-Accounted ascii listing (Items.open_spider (codes "f") (some []) spider)

abbrev no_rows : Database
no_rows = record {
  sources = [];
  products = [];
  crawl_runs = [];
  price_observations = [];
  ban_events = [];
}

abbrev store : Persistence.PersistencePipeline
store = record {
  enabled = true;
  source_id = codes "shop";
  run_id = codes "r1";
  thresholds = default_thresholds;
  buffer = shoe_item ∷ [];
  persisted = 0;
  baseline = none;
  stats = some [];
}

close_spider-atomic_example :
    Quarantined store no_rows
      (Persistence.close_spider store no_rows).0
      (Persistence.close_spider store no_rows).1
    ⊎ ((check_volume 1 none default_thresholds ≢ some volume_anomaly)
        × Committed
            (shoe_item ∷ [])
            store
            no_rows
            (Persistence.close_spider store no_rows).0
            (Persistence.close_spider store no_rows).1)
close_spider-atomic_example = close_spider-atomic store no_rows refl

one_row :
    (crawl ascii (codes "f") default_thresholds spider listing no_rows).price_observations
    ≡ shoe_item.observation ∷ []
unfolding crawl normalize parse_price read normalize_title builtins lt_decimal
    latest_amounts_for_source check_volume baseline_count append upsert
one_row = refl

crawl-Written_example :
    (crawl ascii (codes "f") default_thresholds spider listing no_rows ≡ no_rows)
    ⊎ (((crawl ascii (codes "f") default_thresholds spider listing no_rows).price_observations
          ≡ map
              (λ item. item.observation)
              (accepted ascii (codes "f") default_thresholds spider listing no_rows))
        × All
            (Present (crawl ascii (codes "f") default_thresholds spider listing no_rows))
            (accepted ascii (codes "f") default_thresholds spider listing no_rows)
        × All
            (Written (codes "r1") default_thresholds)
            (accepted ascii (codes "f") default_thresholds spider listing no_rows))
crawl-Written_example =
    crawl-Written ascii (codes "f") default_thresholds spider listing no_rows refl
