-- ===== src/Api/Products/Laws.antt =====
-- What the two product routes answer.
use acquire_intel.Prelude.{
  ℕ, ◌≤◌, ◌≡◌, refl, max, min, Bool, true, ◌&&◌, Option, none, some, count_where, pos, negsuc,
  Option-cases, inl, inr, List, [], ◌∷◌, map, Text, All-map, All-of_map, length-map, eqb, get,
  length, All, All-imp, arith, ℤ,
}
use acquire_intel.Prelude.Sorting.{Ordered, Ordered-map}
use acquire_intel.Storage.Models.{Product, PriceObservation, Database}
use acquire_intel.Storage.Observations.{Chronological, list_for, from_time, list_for-Chronological}
use acquire_intel.Storage.Products.{get_product}
use acquire_intel.Storage.Queries.{latest_for_many}
use acquire_intel.Storage.Listing.{
  Sql, of_source, matches, list_rows, list_rows-LatestFirst, length-list_rows,
}
use acquire_intel.Api.Limits.{invalid_limit, Parsed, refused, parsed, parse_limit, clamp, clamped}
use acquire_intel.Api.Products.{
  max_from, max_or, shown, ListArgs, ProductOut, ProductsResponse, product_out, filled, listed,
  list_products, PriceHistoryResponse, found, window_since, window_or, price_history,
}

max_from-ge :
    (best : ℕ) (ns : List ℕ) → (best ≤ max_from best ns) × All (λ n. n ≤ max_from best ns) ns
unfolding max_from
max_from-ge best [] = (omega arith, tt)
max_from-ge best (n ∷ ns) =
    let (m, all) = max_from-ge (max best n) ns in (omega (arith, m), (omega (arith, m), all))

max_or-ge : (default : ℕ) (ns : List ℕ) → All (λ n. n ≤ max_or default ns) ns
max_or-ge default [] = tt
max_or-ge default (n ∷ ns) = let (m, all) = max_from-ge n ns in (m, all)

abbrev is_from : Option Text → ProductOut → Bool
is_from none p = true
is_from (some source) p = eqb p.source_id source

abbrev is_like : Sql → Option Text → ProductOut → Bool
is_like sql none p = true
is_like sql (some q) p = sql.ilike p.title q

-- The limit that an argument asks for: 24 without one, and else the integer, brought into 1 to 100.
abbrev pub Clamped : ℤ → ℕ → Type 0
Clamped (pos k) n = n ≡ max 1 (min 100 k)
Clamped (negsuc k) n = n ≡ 1

abbrev pub Asked : (Text → Option ℤ) → Option Text → ℕ → Type 0
Asked int_of none n = n ≡ 24
Asked int_of (some raw) n = (v : ℤ) × (int_of raw ≡ some v) × Clamped v n

abbrev pub is_wanted : Sql → ListArgs → Product → Bool
is_wanted sql args p = of_source (filled args.source) p && matches sql (filled args.q) p

-- A page of products: as many of those that pass the filters as the limit lets by, the one seen last
-- first, and with the time of the newest of them.
pub record IsPage (sql : Sql) (args : ListArgs) (limit : ℕ) (db : Database) (r : ProductsResponse)
    : Type 0 where
  pub few : limit ≤ 100
  pub filled_up : length r.products ≡ min limit (count_where (is_wanted sql args) db.products)
  pub ordered : Ordered (λ p q. q.last_seen_at ≤ p.last_seen_at) r.products
  pub from_source : All (λ p. is_from (filled args.source) p ≡ true) r.products
  pub like : All (λ p. is_like sql (filled args.q) p ≡ true) r.products
  pub as_of : All (λ p. p.last_seen_at ≤ r.data_as_of) r.products

-- A refusal, of a limit that is no integer, or a page.
abbrev pub Answers :
    (Text → Option ℤ) → Sql → ListArgs → Database → Parsed ProductsResponse → Type 0
Answers int_of sql args db (refused p) =
    (p ≡ invalid_limit) × (raw : Text) × (args.limit ≡ some raw) × (int_of raw ≡ none)
Answers int_of sql args db (parsed r) =
    (limit : ℕ) × Asked int_of args.limit limit × IsPage sql args limit db r

abbrev ParsedLimit : (Text → Option ℤ) → Option Text → Parsed ℕ → Type 0
ParsedLimit int_of limit (refused p) =
    (p ≡ invalid_limit) × (raw : Text) × (limit ≡ some raw) × (int_of raw ≡ none)
ParsedLimit int_of limit (parsed n) = Asked int_of limit n × (n ≤ 100)

clamp-Clamped : (v : ℤ) → Clamped v (clamp 1 100 v) × (clamp 1 100 v ≤ 100)
clamp-Clamped (pos k) = (refl, omega arith)
clamp-Clamped (negsuc k) = (refl, omega arith)

parse_limit-ParsedLimit :
    (int_of : Text → Option ℤ) (limit : Option Text)
    → ParsedLimit int_of limit (parse_limit int_of 24 1 100 limit)
unfolding parse_limit
parse_limit-ParsedLimit int_of none = (refl, omega arith)
parse_limit-ParsedLimit int_of (some raw) = elim (Option-cases (int_of raw)) [
  | inl e ↦ rw (e, clamped) (refl, raw, refl, e)
  | inr (v, e) ↦ let (c, few) = clamp-Clamped v in rw (e, clamped) ((v, e, c), few)
]

like_of :
    (sql : Sql) (source q : Option Text) (p : Product)
    → (of_source source p && matches sql q p) ≡ true
    → matches sql q p ≡ true
like_of sql source q p e = ground arith

from_of :
    (sql : Sql) (source q : Option Text) (p : Product)
    → (of_source source p && matches sql q p) ≡ true
    → of_source source p ≡ true
from_of sql source q p e = ground arith

is_from-product_out :
    (source : Option Text) (row : Product) (latest : Option PriceObservation)
    → of_source source row ≡ true
    → is_from source (product_out row latest) ≡ true
is_from-product_out none row latest e = refl
is_from-product_out (some source) row latest e = e

is_like-product_out :
    (sql : Sql) (q : Option Text) (row : Product) (latest : Option PriceObservation)
    → matches sql q row ≡ true
    → is_like sql q (product_out row latest) ≡ true
is_like-product_out sql none row latest e = refl
is_like-product_out sql (some q) row latest e = e

shown-IsPage :
    (sql : Sql) (args : ListArgs) (now : ℕ) (db : Database) (limit : ℕ)
    → limit ≤ 100
    → IsPage sql args limit db
        (shown now db (list_rows sql (filled args.source) (filled args.q) limit db))
shown-IsPage sql args now db limit h =
    let source = filled args.source in
    let q = filled args.q in
    let rows = list_rows sql source q limit db in
    let latest = latest_for_many (map (λ (r : Product). r.id) rows) db in
    let out : Product → ProductOut = λ r. product_out r (get latest r.id) in
    let (ordered, passing, few) = list_rows-LatestFirst sql source q limit db in
    record {
      few = h;
      filled_up = omega (arith, length-list_rows sql source q limit db, length-map out rows);
      ordered = Ordered-map out (λ p q. q.last_seen_at ≤ p.last_seen_at) rows ordered;
      from_source =
          All-map out (λ p. is_from source p ≡ true) rows
            (All-imp _ _ rows
              (λ r e. is_from-product_out source r (get latest r.id) (from_of sql source q r e))
              passing);
      like =
          All-map out (λ p. is_like sql q p ≡ true) rows
            (All-imp _ _ rows
              (λ r e. is_like-product_out sql q r (get latest r.id) (like_of sql source q r e))
              passing);
      as_of = All-map out _ rows (
          All-of_map (λ (r : Product). r.last_seen_at) _ rows
            (max_or-ge now (map (λ (r : Product). r.last_seen_at) rows)));
    }

listed-Answers :
    (int_of : Text → Option ℤ) (sql : Sql) (args : ListArgs) (now : ℕ) (db : Database)
    (limit : Parsed ℕ)
    → ParsedLimit int_of args.limit limit
    → Answers int_of sql args db (listed sql args now db limit)
listed-Answers int_of sql args now db (refused p) w = w
listed-Answers int_of sql args now db (parsed limit) w =
    (limit, w.0, shown-IsPage sql args now db limit w.1)

-- The route `/products` refuses a call only for a limit that is no integer. Else it answers with a page
-- of the products that are of the source and match the text that are asked for: as many of them
-- as there are up to the limit, which is 24 if none is given and is brought into 1 to 100, the one
-- seen last first, and dated no earlier than any of them was seen.
pub list_products-Answers :
    (int_of : Text → Option ℤ) (sql : Sql) (args : ListArgs) (now : ℕ) (db : Database)
    → Answers int_of sql args db (list_products int_of sql args now db)
unfolding list_products
list_products-Answers int_of sql args now db =
    listed-Answers int_of sql args now db (parse_limit int_of 24 1 100 args.limit)
      (parse_limit-ParsedLimit int_of args.limit)

-- What the history of a product looks like.
abbrev pub History : Text → Option ℕ → Parsed PriceHistoryResponse → Type 0
History product_id since (refused p) = Unit
History product_id since (parsed r) =
    Chronological r.observations
    × All (λ o. (eqb o.product_id product_id && from_time since o) ≡ true) r.observations
    × All (λ o. o.captured_at ≤ r.data_as_of) r.observations

found-History :
    (quoted : Text → Text) (product_id : Text) (since : Option ℕ) (now : ℕ) (db : Database)
    (product : Option Product)
    → History product_id since (found quoted product_id since now db product)
found-History quoted product_id since now db none = tt
found-History quoted product_id since now db (some product) =
    let points = list_for product_id since db in
    let (ordered, passing) = list_for-Chronological product_id since db in
    (
      ordered,
      passing,
      All-of_map (λ (o : PriceObservation). o.captured_at) _ points
          (max_or-ge product.last_seen_at (map (λ (o : PriceObservation). o.captured_at) points)),
    )

-- In a window that the table knows, the price history has only points of the product that were
-- captured in the window, oldest first, and is dated no earlier than any of them.
pub price_history-History :
    (quoted : Text → Text) (product_id : Text) (window : Option Text) (now : ℕ) (db : Database)
    (since : Option ℕ)
    → window_since (window_or window) now ≡ parsed since
    → History product_id since (price_history quoted product_id window now db)
unfolding price_history
price_history-History quoted product_id window now db since e =
    rw e (found-History quoted product_id since now db (get_product product_id db.products))
