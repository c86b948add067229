-- ===== src/Acquisition/Sources/Graphql/Laws.antt =====
-- What a page of the GraphQL source comes to.
use acquire_intel.Prelude.{
  ◌+◌, ◌++◌, ◌≡◌, ◌≢◌, ◌⊎◌, ◌≤◌, refl, true, false, Option, none, some, List, [], length, All, Text,
  codes, Bool-cases, inl, inr,
}
use acquire_intel.Pipeline.Normalize.{RawProduct}
use acquire_intel.Acquisition.Sources.Json.{Json, null, object, Fields, get, truthy, str}
use acquire_intel.Acquisition.Sources.Raw.{CrawlStats, Counts, Parsed, Response}
use acquire_intel.Acquisition.Sources.Raw.Laws.{
  Yields, IsFilled, stringify-IsFilled, IsSound, raw_product-IsSound, mapped_of-All,
  length-mapped_of-le,
}
use acquire_intel.Acquisition.Sources.Graphql.{
  DemoGraphql, CursorRequest, extract_connection, edges_of, in_money, min_price, with_price,
  with_id, to_raw_product, node_product, edge_product, next_request, page_info, follow, parsed,
  parse,
}

-- What is requested after a page: the page behind the end cursor if the page info says that there is one,
-- and nothing where it says that there is none, gives no cursor, or is no dict.
pub data Follows (quoted : Text → Text) (x : DemoGraphql) (connection : Fields)
    : Option CursorRequest → Type 0 where
  more :
      (info : Fields)
      → get connection (codes "pageInfo") ≡ object info
      → truthy (get info (codes "hasNextPage")) ≡ true
      → truthy (get info (codes "endCursor")) ≡ true
      → Follows quoted x connection (
          some (record {
            url = x.base_url ++ codes "/api/2024-01/graphql.json";
            first = x.page_size;
            after = some (str quoted (get info (codes "endCursor")));
          }))
  last :
      (info : Fields)
      → get connection (codes "pageInfo") ≡ object info
      → (truthy (get info (codes "hasNextPage")) ≡ false)
        ⊎ (truthy (get info (codes "endCursor")) ≡ false)
      → Follows quoted x connection none
  no_info :
      ((info : Fields) → get connection (codes "pageInfo") ≢ object info)
      → Follows quoted x connection none

-- What a page comes to: nothing without a connection, and with one the products of its edges.
pub data Accounted (quoted : Text → Text) (x : DemoGraphql) (c : Counts)
    : Option Fields → Parsed CursorRequest → Type 0 where
  rejected : Accounted quoted x c none (record { products = []; follow = none; stats = some c })
  page :
      (connection : Fields) (products : List RawProduct) (next : Option CursorRequest)
      → Follows quoted x connection next
      → All IsSound products
      → length products ≤ length (edges_of connection)
      → Accounted quoted x c (some connection) (record {
        products = products;
        follow = next;
        stats = some (record {
          entries_seen = c.entries_seen + length (edges_of connection);
          entries_mapped = c.entries_mapped + length products;
        });
      })

module _ (quoted : Text → Text) where
  in_money-IsFilled : (j : Json) → Yields IsFilled (in_money quoted j).0
  in_money-IsFilled (object money) = stringify-IsFilled quoted (get money (codes "amount"))
  in_money-IsFilled _ = tt

  min_price-IsFilled : (j : Json) → Yields IsFilled (min_price quoted j).0
  min_price-IsFilled (object d) = in_money-IsFilled (get d (codes "minVariantPrice"))
  min_price-IsFilled _ = tt

  with_price-IsSound :
      (x : DemoGraphql) (node : Fields) (id : Text)
      → IsFilled id
      → (o : Option Text × Option Text) → Yields IsFilled o.0
      → Yields IsSound (with_price quoted x node id o)
  with_price-IsSound x node id i (none, currency) p = tt
  with_price-IsSound x node id i (some amount, currency) p = raw_product-IsSound _ i p

  with_id-IsSound :
      (x : DemoGraphql) (node : Fields) (o : Option Text)
      → Yields IsFilled o
      → Yields IsSound (with_id quoted x node o)
  with_id-IsSound x node none i = tt
  with_id-IsSound x node (some id) i =
      with_price-IsSound x node id i (min_price quoted (get node (codes "priceRange")))
        (min_price-IsFilled (get node (codes "priceRange")))

  node_product-IsSound : (x : DemoGraphql) (j : Json) → Yields IsSound (node_product quoted x j)
  unfolding to_raw_product
  node_product-IsSound x (object node) =
      with_id-IsSound x node _ (stringify-IsFilled quoted (get node (codes "id")))
  node_product-IsSound x _ = tt

  edge_product-IsSound :
      (x : DemoGraphql) (edge : Fields) → Yields IsSound (edge_product quoted x edge)
  unfolding edge_product
  edge_product-IsSound x edge = node_product-IsSound x (get edge (codes "node"))

  info-Follows :
      (x : DemoGraphql) (connection info : Fields)
      → get connection (codes "pageInfo") ≡ object info
      → Follows quoted x connection (next_request quoted x info)
  info-Follows x connection info e = elim (Bool-cases (truthy (get info (codes "hasNextPage")))) [
    | inr h ↦ rw h (last info e (inl h))
    | inl h ↦ elim (Bool-cases (truthy (get info (codes "endCursor")))) [
      | inr c ↦ rw (h, c) (last info e (inr c))
      | inl c ↦ rw (h, c) (more info e h c)
    ]
  ]

  page_info-Follows :
      (x : DemoGraphql) (connection : Fields)
      → (j : Json) → get connection (codes "pageInfo") ≡ j
      → Follows quoted x connection (next_request quoted x (page_info quoted j))
  unfolding get
  page_info-Follows x connection (object info) e = info-Follows x connection info e
  page_info-Follows x connection null e = no_info (λ info f. cc)
  page_info-Follows x connection _ e = no_info (λ info f. cc)

  follow-Follows :
      (x : DemoGraphql) (connection : Fields)
      → Follows quoted x connection (follow quoted x connection)
  unfolding follow
  follow-Follows x connection =
      page_info-Follows x connection (get connection (codes "pageInfo")) refl

  parsed-Accounted :
      (x : DemoGraphql) (c : Counts) (o : Option Fields)
      → Accounted quoted x c o (parsed quoted x (some c) o)
  parsed-Accounted x c none = rejected
  parsed-Accounted x c (some connection) =
      page connection _ _ (follow-Follows x connection)
        (mapped_of-All (edge_product quoted x) IsSound (edge_product-IsSound x)
          (edges_of connection))
        (length-mapped_of-le (edge_product quoted x) (edges_of connection))

  -- Whatever the server answers, the GraphQL extractor yields nothing, requests nothing and counts
  -- nothing where the response holds no product connection. Else each product has an id, a title
  -- and a price text that are not empty, they are no more than the edges, the telemetry grows by
  -- these two numbers, and a request follows just if the page info says that there is a next page
  -- and gives a cursor: the one for the page behind this cursor.
  pub graphql_parse-Accounted :
      (x : DemoGraphql) (r : Response) (c : Counts)
      → Accounted quoted x c (extract_connection r) (parse quoted x r (some c))
  unfolding parse
  graphql_parse-Accounted x r c = parsed-Accounted x c (extract_connection r)

  -- A GraphQL answer with errors yields no product even where it also carries data: the page is
  -- rejected whole, no request follows it and the telemetry stays.
  parse-errors :
      (x : DemoGraphql) (payload : Fields) (r : Response) (stats : CrawlStats)
      → r.json ≡ some (object payload)
      → truthy (get payload (codes "errors")) ≡ true
      → parse quoted x r stats ≡ record { products = []; follow = none; stats = stats }
  unfolding parse extract_connection
  parse-errors x payload r stats e h = elim (Bool-cases r.is_text) [
    | inl t ↦ rw (t, e, h) refl
    | inr t ↦ rw t refl
  ]
