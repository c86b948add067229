-- ===== src/Acquisition/Sources/Html/Laws.antt =====
-- What a page of the HTML source comes to.
use acquire_intel.Prelude.{◌+◌, ◌≡◌, ◌≤◌, refl, Option, none, some, List, length, All, Text, strip}
use acquire_intel.Acquisition.Sources.Raw.{Counts}
use acquire_intel.Acquisition.Sources.Raw.Laws.{
  Yields, IsFilled, or_none-IsFilled, IsSound, raw_product-IsSound, mapped_of-All,
  length-mapped_of-le,
}
use acquire_intel.Acquisition.Sources.Html.{
  DemoHtml, Card, clean, with_fields, card_to_raw, parse_products, parse,
}

clean-IsFilled : (value : Option Text) → Yields IsFilled (clean value)
unfolding clean
clean-IsFilled none = tt
clean-IsFilled (some value) = or_none-IsFilled (strip value)

module _ (urljoin : Text → Text → Text) where
  with_fields-IsSound :
      (base_url : Text) (card : Card) (id title price : Option Text)
      → Yields IsFilled id
      → Yields IsFilled price
      → Yields IsSound (with_fields urljoin base_url card id title price)
  with_fields-IsSound base_url card (some id) (some title) (some price) i p =
      raw_product-IsSound _ i p
  with_fields-IsSound base_url card none title price i p = tt
  with_fields-IsSound base_url card (some id) none price i p = tt
  with_fields-IsSound base_url card (some id) (some title) none i p = tt

  card_to_raw-IsSound :
      (base_url : Text) (card : Card) → Yields IsSound (card_to_raw urljoin base_url card)
  unfolding card_to_raw
  card_to_raw-IsSound base_url card =
      with_fields-IsSound base_url card _ _ _ (clean-IsFilled card.product_id)
        (clean-IsFilled card.price)

  -- Whatever cards the selectors find, each product that the HTML extractor yields has an id, a
  -- title and a price text that are not empty, they are no more than the cards, and the telemetry
  -- grows by these two numbers.
  html_parse-Accounted :
      (x : DemoHtml) (cards : List Card) (c : Counts)
      → let r = parse urljoin x cards (some c) in
        All IsSound r.0
        × (length r.0 ≤ length cards)
        × (r.1
            ≡ some (record {
              entries_seen = c.entries_seen + length cards;
              entries_mapped = c.entries_mapped + length r.0;
            }))
  unfolding parse parse_products
  html_parse-Accounted x cards c = (
    mapped_of-All (card_to_raw urljoin x.base_url) IsSound (card_to_raw-IsSound x.base_url) cards,
    length-mapped_of-le (card_to_raw urljoin x.base_url) cards,
    refl,
  )
