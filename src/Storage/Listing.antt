-- ===== src/Storage/Listing.antt =====
-- The reads of src/acquire_intel/storage/repositories.py behind the product routes. How the database
-- matches with ILIKE and orders ids are parameters; the keys of a dictionary stand in row order.
use acquire_intel.Prelude.{
  ℕ, ◌≤◌, ◌≡◌, Bool, true, false, ◌&&◌, Option, none, some, List, [], ◌∷◌, ltb, if◌then◌else◌, Text,
  eqb, Dict, any_of, take, length, length-take-le, length-take, count_where, min, All, arith,
}
use acquire_intel.Prelude.Sorting.{
  sort_by, sort_by-All, sort_by-Ordered, length-sort_by, Ordered, take-All, take-Ordered,
}
use acquire_intel.Storage.Models.{Source, Product, Database}
use acquire_intel.Storage.Observations.{where_rows, where_rows-All, length-where_rows}

-- `SourceRepository.get`
unfoldable pub get_source : Text → List Source → Option Source
get_source id [] = none
get_source id (row ∷ rows) = if eqb row.id id then some row else get_source id rows

-- The pairs of a key and a value of each row.
abbrev pairs_of {ℓ κ} : {A : Type ℓ} {V : Type κ} → (A → Text) → (A → V) → List A → Dict V
pairs_of key value [] = []
pairs_of key value (row ∷ rows) = (key row, value row) ∷ pairs_of key value rows

-- `SourceRepository.stale_after_for`
unfoldable pub stale_after_for : List Text → Database → Dict ℕ
unfolding where_rows any_of eqb
stale_after_for source_ids db =
    pairs_of (λ (s : Source). s.id) (λ (s : Source). s.stale_after_seconds)
      (where_rows (λ (s : Source). any_of (eqb s.id) source_ids) db.sources)

-- `ProductRepository.get_many`
unfoldable pub get_many : List Text → Database → Dict Product
unfolding where_rows any_of eqb
get_many product_ids db =
    pairs_of (λ (p : Product). p.id) (λ (p : Product). p)
      (where_rows (λ (p : Product). any_of (eqb p.id) product_ids) db.products)

-- `ProductRepository.count`
abbrev pub count : Database → ℕ
count db = length db.products

abbrev pub of_source : Option Text → Product → Bool
of_source none p = true
of_source (some source) p = eqb p.source_id source

pub record Sql : Type 0 where
  pub ilike : (text : Text) (needle : Text) → Bool
  pub id_le : Text → Text → Bool

abbrev pub matches : Sql → Option Text → Product → Bool
matches sql none p = true
matches sql (some q) p = sql.ilike p.title q

-- ORDER BY last_seen_at DESC, id
abbrev pub seen_before : Sql → Product → Product → Bool
seen_before sql p q =
    if ltb q.last_seen_at p.last_seen_at
    then true
    else if ltb p.last_seen_at q.last_seen_at
    then false
    else sql.id_le p.id q.id

-- `ProductRepository.list`
unfoldable pub list_rows : Sql → Option Text → Option Text → ℕ → Database → List Product
unfolding where_rows sort_by eqb
list_rows sql source q limit db = take limit (
    sort_by (seen_before sql) (where_rows (λ p. of_source source p && matches sql q p) db.products))

-- No row was seen later than one that comes before it.
abbrev pub LatestFirst : List Product → Type 0
LatestFirst = Ordered (λ p q. q.last_seen_at ≤ p.last_seen_at)

-- The listed products are at most `limit` rows that pass both filters, the one seen last first.
pub list_rows-LatestFirst :
    (sql : Sql) (source q : Option Text) (limit : ℕ) (db : Database)
    → LatestFirst (list_rows sql source q limit db)
      × All (λ p. (of_source source p && matches sql q p) ≡ true) (list_rows sql source q limit db)
      × (length (list_rows sql source q limit db) ≤ limit)
unfolding list_rows
list_rows-LatestFirst sql source q limit db =
    let rows = where_rows (λ p. of_source source p && matches sql q p) db.products in
    let sorted =
      sort_by-Ordered (seen_before sql) (λ p r. r.last_seen_at ≤ p.last_seen_at)
        (λ x y e. ground arith) (λ x y e. ground arith) (λ x y z a b. omega arith) rows in
    (
      take-Ordered _ limit (sort_by (seen_before sql) rows) sorted,
      take-All _ limit (sort_by (seen_before sql) rows)
          (sort_by-All (seen_before sql) _ rows (where_rows-All _ db.products)),
      length-take-le limit (sort_by (seen_before sql) rows),
    )

-- They are all the rows that pass, up to the limit.
pub length-list_rows :
    (sql : Sql) (source q : Option Text) (limit : ℕ) (db : Database)
    → length (list_rows sql source q limit db)
      ≡ min limit (count_where (λ p. of_source source p && matches sql q p) db.products)
unfolding list_rows
length-list_rows sql source q limit db =
    let test : Product → Bool = λ p. of_source source p && matches sql q p in
    let rows = where_rows test db.products in
    omega (
      arith,
      length-take limit (sort_by (seen_before sql) rows),
      length-sort_by (seen_before sql) rows,
      length-where_rows test db.products,
    )
