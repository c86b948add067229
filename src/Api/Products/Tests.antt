-- ===== src/Api/Products/Tests.antt =====
-- Pages of a small store.
use acquire_intel.Prelude.{
  ℕ, ◌≡◌, refl, true, none, some, Option, [], ◌∷◌, codes, Text, ℤ, pos, contains, builtins,
}
use acquire_intel.Storage.Models.{Product, Database}
use acquire_intel.Storage.Listing.{Sql}
use acquire_intel.Api.Limits.{refused}
use acquire_intel.Api.Products.{ListArgs, list_products, window_since, invalid_window}
use acquire_intel.Api.Products.Laws.{Answers, list_products-Answers}

abbrev shoe : ℕ → Product
shoe seen = record {
  id = codes "shop:7";
  source_id = codes "shop";
  external_id = codes "7";
  title = codes "Shoe";
  brand = none;
  url = codes "https://shop.test/7";
  image_url = none;
  first_seen_at = 3;
  last_seen_at = seen;
}

abbrev store : Database
store = record {
  sources = [];
  products = shoe 5 ∷ record (shoe 9) { id = codes "shop:8" } ∷ [];
  crawl_runs = [];
  price_observations = [];
  ban_events = [];
}

abbrev plain_sql : Sql
plain_sql = record { ilike = λ text needle. contains needle text; id_le = λ a b. true }

abbrev five : Text → Option ℤ
five raw = some (pos 5)

abbrev args : ListArgs
args = record { source = some (codes "shop"); q = none; limit = some (codes "5") }

unknown_window : window_since (codes "1d") 0 ≡ refused invalid_window
unfolding window_since builtins
unknown_window = refl

list_products-Answers_example :
    Answers five plain_sql args store (list_products five plain_sql args 20 store)
list_products-Answers_example = list_products-Answers five plain_sql args 20 store
