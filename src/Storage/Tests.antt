-- ===== src/Storage/Tests.antt =====
-- The repositories' theorems at concrete rows.
use acquire_intel.Prelude.{◌≡◌, ◌≢◌, refl, List, Text, none, some, [], ◌∷◌, codes, builtins}
use acquire_intel.Storage.Models.{Product, Database}
use acquire_intel.Storage.Products.{upsert, get_product, merged, get-upsert}

abbrev old_shoe : Product
old_shoe = record {
  id = codes "shop:7";
  source_id = codes "shop";
  external_id = codes "7";
  title = codes "Shoe";
  brand = none;
  url = codes "https://shop.test/7";
  image_url = none;
  first_seen_at = 3;
  last_seen_at = 9;
}

abbrev new_shoe : Product
new_shoe = record old_shoe { title = codes "Red shoe"; first_seen_at = 5; last_seen_at = 5 }

abbrev one_shoe : Database
one_shoe = record {
  sources = [];
  products = old_shoe ∷ [];
  crawl_runs = [];
  price_observations = [];
  ban_events = [];
}

get-upsert_example :
    (rows : List Product) × (upsert new_shoe one_shoe ≡ record one_shoe { products = rows })
    × (get_product (codes "shop:7") rows
        ≡ some (merged new_shoe (get_product (codes "shop:7") one_shoe.products)))
    × ((id : Text) → id ≢ codes "shop:7" → get_product id rows ≡ get_product id one_shoe.products)
get-upsert_example = get-upsert new_shoe one_shoe

refreshed_shoe :
    (upsert new_shoe one_shoe).products ≡ record old_shoe { title = codes "Red shoe" } ∷ []
unfolding upsert builtins
refreshed_shoe = refl
