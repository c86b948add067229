-- ===== src/Storage/Products.antt =====
-- `ProductRepository` of src/acquire_intel/storage/repositories.py: the upsert of the projection.
use acquire_intel.Prelude.{
  max, ◌≡◌, refl, ◌≢◌, ap, Option, none, some, List, [], ◌∷◌, if◌then◌else◌, Text, eqb, eqb_iff,
  eqb_refl, arith,
}
use acquire_intel.Storage.Models.{Product, Database}

-- ON CONFLICT (id) DO UPDATE: the described fields, and `last_seen_at` only forwards.
abbrev pub refreshed : Product → Product → Product
refreshed old new = record old {
  title = new.title;
  brand = new.brand;
  url = new.url;
  image_url = new.image_url;
  last_seen_at = max old.last_seen_at new.last_seen_at;
}

unfoldable pub upsert_row : Product → List Product → List Product
upsert_row new [] = new ∷ []
upsert_row new (old ∷ rows) =
    if eqb old.id new.id then refreshed old new ∷ rows else old ∷ upsert_row new rows

unfoldable pub upsert : Product → Database → Database
unfolding upsert_row
upsert new db = record db { products = upsert_row new db.products }

-- `ProductRepository.get`
unfoldable pub get_product : Text → List Product → Option Product
get_product id [] = none
get_product id (row ∷ rows) = if eqb row.id id then some row else get_product id rows

-- The row that is expected of an upsert, of the new product and the row that was there.
abbrev pub merged : Product → Option Product → Product
merged new none = new
merged new (some old) = record {
  id = old.id;
  source_id = old.source_id;
  external_id = old.external_id;
  title = new.title;
  brand = new.brand;
  url = new.url;
  image_url = new.image_url;
  first_seen_at = old.first_seen_at;
  last_seen_at = max old.last_seen_at new.last_seen_at;
}

get-upsert_row :
    (new : Product) (id : Text) (rows : List Product)
    → get_product id (upsert_row new rows)
      ≡ (if eqb new.id id then some (merged new (get_product id rows)) else get_product id rows)
unfolding get_product upsert_row
get-upsert_row new id [] = ground arith
get-upsert_row new id (old ∷ rows) =
    ground (
      arith,
      get-upsert_row new id rows,
      eqb_iff old.id new.id,
      eqb_iff old.id id,
      eqb_iff new.id id,
    )

-- After an upsert the row of its id is the new product, or the old row with the title, brand, URL and
-- image of the new one: its `first_seen_at` stays, and `last_seen_at` is the later of the two. Every
-- other id has the row that it had, and every other table is as it was.
pub get-upsert :
    (new : Product) (db : Database)
    → (rows : List Product) × (upsert new db ≡ record db { products = rows })
      × (get_product new.id rows ≡ some (merged new (get_product new.id db.products)))
      × ((id : Text) → id ≢ new.id → get_product id rows ≡ get_product id db.products)
unfolding upsert
get-upsert new db = (
  upsert_row new db.products,
  refl,
  ground (arith, get-upsert_row new new.id db.products, eqb_refl new.id),
  λ id ne. ground (arith, get-upsert_row new id db.products, eqb_iff new.id id),
)

pub get-upsert_if :
    (new : Product) (id : Text) (db : Database)
    → get_product id (upsert new db).products ≡ (
        if eqb new.id id
        then some (merged new (get_product id db.products))
        else get_product id db.products)
unfolding upsert
get-upsert_if new id db = get-upsert_row new id db.products

upsert_row-again :
    (new : Product) (rows : List Product)
    → upsert_row new (upsert_row new rows) ≡ upsert_row new rows
unfolding upsert_row
upsert_row-again new [] = ground (arith, eqb_refl new.id)
upsert_row-again new (old ∷ rows) = ground (arith, upsert_row-again new rows)

-- An upsert that is repeated changes nothing more.
upsert_idem : (new : Product) (db : Database) → upsert new (upsert new db) ≡ upsert new db
unfolding upsert
upsert_idem new db =
    ap (λ (t : List Product). record db { products = t }) (upsert_row-again new db.products)
