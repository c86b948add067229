-- ===== src/Harness/Scenarios.antt =====
-- harness/scenarios.py: the scenarios, their configuration and the pages that they serve.
use acquire_intel.Prelude.{
  ℕ, ◌+◌, ◌-◌, ◌*◌, Bool, true, false, List, [], ◌∷◌, Text, codes, take, drop, map, pos,
}
use acquire_intel.Acquisition.Sources.Json.{
  Json, null, bool, int, string, array, object, Items, nil, cons, Fields, field, end, get,
}

pub data Scenario : Type 0 where
  happy rate_limited block_after_n captcha cookie_wall soft_ban drift : Scenario

pub record HarnessConfig : Type 0 where
  pub rate_limited_burst : ℕ
  pub retry_after_seconds : ℕ
  pub block_after : ℕ
  pub page_size : ℕ
  pub session_cookie : Text
  pub session_cookie_value : Text

-- The defaults.
abbrev pub default_config : HarnessConfig
default_config = record {
  rate_limited_burst = 2;
  retry_after_seconds = 1;
  block_after = 3;
  page_size = 250;
  session_cookie = codes "harness_session";
  session_cookie_value = codes "let-me-in";
}

-- A list of dicts as a value.
unfoldable pub items_of : List Fields → Items
items_of [] = nil
items_of (d ∷ ds) = cons (object d) (items_of ds)

abbrev image : Text → Items
image src = cons (object (field (codes "src") (string src) end)) nil

abbrev entry : ℕ → Text → Text → Text → Bool → Items → Fields
entry id title handle price available images = field (codes "id") (int (pos id)) (
    field (codes "title") (string title) (
      field (codes "handle") (string handle) (
        field (codes "vendor") (string (codes "MockCo")) (
          field (codes "variants")
            (array (
              cons
                (object (
                  field (codes "price") (string price)
                    (field (codes "available") (bool available) end)))
                nil))
            (field (codes "images") (array images) end)))))

-- CATALOG
abbrev pub catalog : List Fields
catalog =
    entry 9001 (codes "Harness Hoodie") (codes "harness-hoodie") (codes "49.90") true
      (image (codes "https://cdn.example.com/img/hoodie.jpg"))
    ∷ entry 9002 (codes "Adversary Mug") (codes "adversary-mug") (codes "12.50") true
        (image (codes "https://cdn.example.com/img/mug.jpg"))
    ∷ entry 9003 (codes "Backoff Beanie") (codes "backoff-beanie") (codes "19.00") false nil
    ∷ []

-- products[start:stop]
abbrev pub slice : List Fields → ℕ → ℕ → List Fields
slice products start stop = take (stop - start) (drop start products)

abbrev pub envelope : List Fields → Json
envelope products = object (field (codes "products") (array (items_of products)) end)

-- A page has a number that is not negative.
abbrev pub happy_page : ℕ → ℕ → Json
happy_page page page_size =
    let start = (page - 1) * page_size in envelope (slice catalog start (start + page_size))

-- p["variants"][0]["price"] if p["variants"] else None
abbrev cost : Json → Json
cost (array (cons (object variant) variants)) = get variant (codes "price")
cost _ = null

-- A product under other keys.
unfoldable pub renamed : Fields → Fields
unfolding get
renamed p = field (codes "product_id") (get p (codes "id")) (
    field (codes "name") (get p (codes "title")) (
      field (codes "slug") (get p (codes "handle"))
        (field (codes "cost") (cost (get p (codes "variants"))) end)))

unfoldable pub drift_page : ℕ → ℕ → Json
unfolding renamed
drift_page page page_size =
    envelope (map renamed (slice catalog ((page - 1) * page_size) (page * page_size)))
