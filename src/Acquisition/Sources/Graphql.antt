-- ===== src/Acquisition/Sources/Graphql.antt =====
-- `DemoGraphqlExtractor` of src/acquire_intel/acquisition/sources/demo_graphql.py. A method that yields
-- gives what it yields; log calls are left out.
pub mod Laws
use acquire_intel.Prelude.{
  ℕ, Bool, true, false, ◌&&◌, Option, none, some, List, [], ◌∷◌, ◌++◌, if◌then◌else◌, Text, codes,
  strip, length,
}
use acquire_intel.Pipeline.Normalize.{RawProduct}
use acquire_intel.Acquisition.Sources.Json.{
  Json, null, bool, array, object, string, Items, Fields, end, get, get_or, dicts, truthy, str,
}
use acquire_intel.Acquisition.Sources.Raw.{
  rstrip_slashes, or_none, stringify, raw_product, product_url, text_at, mapped_of, CrawlStats,
  record_parse, Parsed, Response,
}

pub record DemoGraphql : Type 0 where
  pub base_url : Text
  pub page_size : ℕ
  pub default_currency : Text

-- `__init__`
unfoldable pub new_extractor : Text → ℕ → Text → DemoGraphql
unfolding rstrip_slashes
new_extractor base_url page_size default_currency = record {
  base_url = rstrip_slashes base_url;
  page_size = page_size;
  default_currency = default_currency;
}

-- `_endpoint`
abbrev pub endpoint : DemoGraphql → Text
endpoint x = x.base_url ++ codes "/api/2024-01/graphql.json"

-- A POST of the query of the source for the page after a cursor; the query text is left out.
pub record CursorRequest : Type 0 where
  pub url : Text
  pub first : ℕ
  pub after : Option Text

-- `_graphql_request`
abbrev pub graphql_request : DemoGraphql → Option Text → CursorRequest
graphql_request x after = record { url = endpoint x; first = x.page_size; after = after }

abbrev pub start_requests : DemoGraphql → CursorRequest
start_requests x = graphql_request x none

-- `_extract_connection`
abbrev with_edges : Fields → Json → Option Fields
with_edges connection (array edges) = some connection
with_edges connection _ = none

abbrev as_connection : Json → Option Fields
as_connection (object connection) = with_edges connection (get connection (codes "edges"))
as_connection _ = none

abbrev in_data : Json → Option Fields
in_data (object data_fields) = as_connection (get data_fields (codes "products"))
in_data _ = none

abbrev in_payload : Option Json → Option Fields
in_payload (some (object payload)) =
    if truthy (get payload (codes "errors")) then none else in_data (get payload (codes "data"))
in_payload _ = none

unfoldable pub extract_connection : Response → Option Fields
unfolding get
extract_connection r = if r.is_text then in_payload r.json else none

-- `_as_bool`
abbrev as_bool : Json → Option Bool
as_bool (bool b) = some b
as_bool _ = none

-- The edges of a connection that are dicts.
abbrev as_edges : Json → List Fields
as_edges (array edges) = dicts edges
as_edges _ = []

unfoldable pub edges_of : Fields → List Fields
unfolding get dicts
edges_of connection = as_edges (get connection (codes "edges"))

module _ (quoted : Text → Text) where
  abbrev currency_of : Json → Option Text
  currency_of currency = if truthy currency then or_none (strip (str quoted currency)) else none

  -- `_min_price`
  abbrev in_money : Json → Option Text × Option Text
  in_money (object money) = (
    stringify quoted (get money (codes "amount")),
    elim (get money (codes "amount")) [
      | null ↦ none
      | _ ↦ currency_of (get money (codes "currencyCode"))
    ],
  )
  in_money _ = (none, none)

  abbrev min_price : Json → Option Text × Option Text
  min_price (object price_range) = in_money (get price_range (codes "minVariantPrice"))
  min_price _ = (none, none)

  -- `_image_url`
  abbrev image_url_of : Json → Option Text
  image_url_of (object image) = text_at quoted image (codes "url")
  image_url_of _ = none

  abbrev with_price : DemoGraphql → Fields → Text → Option Text × Option Text → Option RawProduct
  with_price x node external_id (none, currency) = none
  with_price x node external_id (some amount, currency) = raw_product (record {
    external_id = external_id;
    title = get_or (string []) node (codes "title");
    url = product_url quoted x.base_url (get node (codes "handle"));
    price = amount;
    currency = currency;
    in_stock = as_bool (get node (codes "availableForSale"));
    brand = get node (codes "vendor");
    image_url = image_url_of (get node (codes "featuredImage"));
  })

  abbrev with_id : DemoGraphql → Fields → Option Text → Option RawProduct
  with_id x node none = none
  with_id x node (some external_id) =
      with_price x node external_id (min_price (get node (codes "priceRange")))

  -- `_to_raw_product`
  unfoldable pub to_raw_product : DemoGraphql → Fields → Option RawProduct
  unfolding raw_product stringify get strip
  to_raw_product x node = with_id x node (stringify quoted (get node (codes "id")))

  -- The product of an edge, if its node is a dict and can be mapped.
  abbrev node_product : DemoGraphql → Json → Option RawProduct
  node_product x (object node) = to_raw_product x node
  node_product x _ = none

  unfoldable pub edge_product : DemoGraphql → Fields → Option RawProduct
  unfolding to_raw_product get
  edge_product x edge = node_product x (get edge (codes "node"))

  abbrev pub page_info : Json → Fields
  page_info (object info) = info
  page_info _ = end

  abbrev pub next_request : DemoGraphql → Fields → Option CursorRequest
  next_request x info =
      if truthy (get info (codes "hasNextPage")) && truthy (get info (codes "endCursor"))
      then some (graphql_request x (some (str quoted (get info (codes "endCursor")))))
      else none

  unfoldable pub follow : DemoGraphql → Fields → Option CursorRequest
  unfolding get str
  follow x connection = next_request x (page_info (get connection (codes "pageInfo")))

  abbrev pub parsed : DemoGraphql → CrawlStats → Option Fields → Parsed CursorRequest
  parsed x stats none = record { products = []; follow = none; stats = stats }
  parsed x stats (some connection) =
      let out = mapped_of (edge_product x) (edges_of connection) in
      record {
        products = out;
        follow = follow x connection;
        stats = record_parse (length (edges_of connection)) (length out) stats;
      }

  unfoldable pub parse : DemoGraphql → Response → CrawlStats → Parsed CursorRequest
  unfolding extract_connection edges_of mapped_of edge_product follow
  parse x r stats = parsed x stats (extract_connection r)
