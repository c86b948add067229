-- ===== src/Harness/Tests.antt =====
-- Crawls of the harness's catalogue.
use acquire_intel.Prelude.{
  ◌≡◌, refl, true, false, none, some, [], ◌∷◌, ◌++◌, codes, Text, builtins, arith, length, drop,
  show, ◌+◌,
}
use acquire_intel.Prelude.Ratio.{ratio}
use acquire_intel.Pipeline.Price.{text}
use acquire_intel.Pipeline.Normalize.{RawProduct}
use acquire_intel.Analytics.Drift.{assess_drift}
use acquire_intel.Acquisition.Sources.Json.{get, get_or, repr, str}
use acquire_intel.Acquisition.Sources.Raw.{stringify, mapped_of, raw_product, Counts}
use acquire_intel.Acquisition.Sources.Rest.{
  DemoRest, new_extractor, start_requests, to_raw_product, first_price, first_src, any_is_available,
  crawl,
}
use acquire_intel.Acquisition.Sources.Rest.Crawl.{crawl-Complete}
use acquire_intel.Harness.Scenarios.{catalog, happy_page, drift_page}
use acquire_intel.Harness.Pages.{shown, happy-Serves, drift_crawl}

abbrev plain : Text → Text
plain s = codes "'" ++ s ++ codes "'"

abbrev extractor : DemoRest
extractor = record {
  base_url = codes "https://shop.example.com";
  page_size = 2;
  default_currency = codes "USD";
}

abbrev fresh : Counts
fresh = record { entries_seen = 0; entries_mapped = 0 }

trimmed_base : new_extractor (codes "https://shop.example.com/") 2 (codes "USD") ≡ extractor
unfolding new_extractor
trimmed_base = refl

abbrev mug : RawProduct
mug = record {
  external_id = codes "9002";
  title = codes "Adversary Mug";
  url = codes "https://shop.example.com/products/adversary-mug";
  raw_price = text (codes "12.50");
  currency = none;
  in_stock = some true;
  brand = some (codes "MockCo");
  image_url = some (codes "https://cdn.example.com/img/mug.jpg");
}

abbrev beanie : RawProduct
beanie = record {
  external_id = codes "9003";
  title = codes "Backoff Beanie";
  url = codes "https://shop.example.com/products/backoff-beanie";
  raw_price = text (codes "19.00");
  currency = none;
  in_stock = some false;
  brand = some (codes "MockCo");
  image_url = none;
}

tail_mapped : drop 1 (mapped_of (to_raw_product plain extractor) catalog) ≡ mug ∷ beanie ∷ []
unfolding to_raw_product mapped_of stringify raw_product get get_or first_price first_src
    any_is_available str repr show builtins
tail_mapped = refl

crawl-Complete_example :
    crawl plain 4 extractor
      (λ q. shown (happy_page q.page 2) q)
      (start_requests extractor)
      (some fresh)
    ≡ some (
      mapped_of (to_raw_product plain extractor) catalog,
      some (record {
        entries_seen = 0 + length catalog;
        entries_mapped = 0 + length (mapped_of (to_raw_product plain extractor) catalog);
      }),
    )
crawl-Complete_example =
    crawl-Complete plain extractor 2 catalog (λ q. shown (happy_page q.page 2) q) 4 fresh
      (omega arith) (happy-Serves 2) (omega arith)

drift_crawl_example :
    (c : Counts) × (crawl plain 4 extractor
        (λ q. shown (drift_page q.page 2) q)
        (start_requests extractor)
        (some fresh)
      ≡ some ([], some c))
    × (assess_drift c.entries_seen c.entries_mapped 1 (ratio 1 2) ≡ true)
drift_crawl_example =
    drift_crawl plain extractor 2 4 1 (ratio 1 2) (omega arith) (omega arith) (omega arith) refl
