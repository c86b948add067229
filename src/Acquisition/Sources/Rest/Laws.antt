-- ===== src/Acquisition/Sources/Rest/Laws.antt =====
-- What a page of the REST source comes to, and what a crawl of its pages does.
use acquire_intel.Prelude.{
  ℕ, ◌+◌, ◌≡◌, ◌≤◌, refl, Option, none, some, List, [], ◌∷◌, length, is_empty, All, Text, codes,
  if◌then◌else◌, arith,
}
use acquire_intel.Acquisition.Sources.Json.{Json, array, object, Items, nil, cons, Fields, get}
use acquire_intel.Acquisition.Sources.Raw.{Counts, Parsed, Response}
use acquire_intel.Acquisition.Sources.Raw.Laws.{
  Yields, IsFilled, or_else-IsFilled, stringify-IsFilled, IsSound, raw_product-IsSound,
  mapped_of-All, length-mapped_of-le,
}
use acquire_intel.Acquisition.Sources.Rest.{
  DemoRest, PageRequest, page_request, product_list, variant_price, first_price,
  first_variant_price, with_price, with_id, to_raw_product, page_of, parsed, parse,
}

-- What a page with these entries comes to.
pub record Accounted (x : DemoRest) (page : ℕ) (entries : List Fields) (c : Counts)
    (p : Parsed PageRequest) : Type 0 where
  pub sound : All IsSound p.products
  pub few : length p.products ≤ length entries
  pub counted :
      p.stats
      ≡ some (record {
        entries_seen = c.entries_seen + length entries;
        entries_mapped = c.entries_mapped + length p.products;
      })
  pub followed : p.follow ≡ (if is_empty entries then none else some (page_request x (page + 1)))

module _ (quoted : Text → Text) where
  variant_price-IsFilled : (v : Json) → Yields IsFilled (variant_price quoted v)
  variant_price-IsFilled (object d) = stringify-IsFilled quoted (get d (codes "price"))
  variant_price-IsFilled _ = tt

  first_price-IsFilled : (vs : Items) → Yields IsFilled (first_price quoted vs)
  unfolding first_price
  first_price-IsFilled nil = tt
  first_price-IsFilled (cons v vs) =
      or_else-IsFilled (variant_price quoted v) (first_price quoted vs) (variant_price-IsFilled v)
        (first_price-IsFilled vs)

  first_variant_price-IsFilled : (j : Json) → Yields IsFilled (first_variant_price quoted j)
  first_variant_price-IsFilled (array vs) = first_price-IsFilled vs
  first_variant_price-IsFilled _ = tt

  with_price-IsSound :
      (x : DemoRest) (entry : Fields) (id : Text)
      → IsFilled id
      → (o : Option Text) → Yields IsFilled o
      → Yields IsSound (with_price quoted x entry id o)
  with_price-IsSound x entry id i none p = tt
  with_price-IsSound x entry id i (some price) p = raw_product-IsSound _ i p

  with_id-IsSound :
      (x : DemoRest) (entry : Fields) (o : Option Text)
      → Yields IsFilled o
      → Yields IsSound (with_id quoted x entry o)
  with_id-IsSound x entry none i = tt
  with_id-IsSound x entry (some id) i =
      let price = first_variant_price quoted (get entry (codes "variants")) in
      with_price-IsSound x entry id i price
        (first_variant_price-IsFilled (get entry (codes "variants")))

  pub to_raw_product-IsSound :
      (x : DemoRest) (entry : Fields) → Yields IsSound (to_raw_product quoted x entry)
  unfolding to_raw_product
  to_raw_product-IsSound x entry =
      with_id-IsSound x entry _ (stringify-IsFilled quoted (get entry (codes "id")))

  parsed-Accounted :
      (x : DemoRest) (page : ℕ) (c : Counts) (entries : List Fields)
      → Accounted x page entries c (parsed quoted x page (some c) entries)
  parsed-Accounted x page c [] = record {
    sound = tt;
    few = omega arith;
    counted = ground arith;
    followed = refl;
  }
  parsed-Accounted x page c (d ∷ ds) = record {
    sound = mapped_of-All (to_raw_product quoted x) IsSound (to_raw_product-IsSound x) (d ∷ ds);
    few = length-mapped_of-le (to_raw_product quoted x) (d ∷ ds);
    counted = refl;
    followed = refl;
  }

  -- Whatever the server answers, each product that the REST extractor yields has an id, a title
  -- and a price text that are not empty; they are no more than the dicts of the page's list, the
  -- telemetry grows by just these two numbers, and the next page is requested if and only if the
  -- list has such an entry.
  pub rest_parse-Accounted :
      (x : DemoRest) (r : Response) (c : Counts)
      → Accounted x (page_of r.page) (product_list r) c (parse quoted x r (some c))
  unfolding parse
  rest_parse-Accounted x r c = parsed-Accounted x (page_of r.page) c (product_list r)
