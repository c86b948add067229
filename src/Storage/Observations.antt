-- ===== src/Storage/Observations.antt =====
-- `PriceObservationRepository` of src/acquire_intel/storage/repositories.py. Where a query leaves open
-- which of several rows with one timestamp comes first, the model takes the one inserted last.
use acquire_intel.Prelude.{
  ℕ, ◌≡◌, refl, count_where, ◌≤◌, arith, Bool, Bool-cases, inl, inr, All, true, ◌&&◌, Option, none,
  some, List, [], ◌∷◌, ◌++◌, leb, if◌then◌else◌, Text, eqb, Dict, get, put, length,
}
use acquire_intel.Prelude.Sorting.{sort_by, sort_by-All, sort_by-Ordered, Ordered}
use acquire_intel.Storage.Decimal.{Decimal}
use acquire_intel.Storage.Models.{PriceObservation, Database}

unfoldable pub append : PriceObservation → Database → Database
append row db = record db { price_observations = db.price_observations ++ row ∷ [] }

-- The rows that pass a WHERE clause.
unfoldable pub where_rows {ℓ} : {A : Type ℓ} → (A → Bool) → List A → List A
where_rows test [] = []
where_rows test (row ∷ rows) =
    let rest = where_rows test rows in if test row then row ∷ rest else rest

pub where_rows-All {ℓ} :
    {A : Type ℓ} (test : A → Bool) (rows : List A) → All (λ r. test r ≡ true) (where_rows test rows)
unfolding where_rows
where_rows-All test [] = tt
where_rows-All test (row ∷ rows) = elim (Bool-cases (test row)) [
  | inl e ↦ rw e (e, where_rows-All test rows)
  | inr e ↦ rw e (where_rows-All test rows)
]

pub length-where_rows {ℓ} :
    {A : Type ℓ} (test : A → Bool) (rows : List A)
    → length (where_rows test rows) ≡ count_where test rows
unfolding where_rows count_where
length-where_rows test [] = refl
length-where_rows test (row ∷ rows) = elim (Bool-cases (test row)) [
  | inl e ↦ rw e (omega (arith, length-where_rows test rows))
  | inr e ↦ rw e (length-where_rows test rows)
]

-- ORDER BY captured_at
abbrev captured_before : PriceObservation → PriceObservation → Bool
captured_before row r = leb row.captured_at r.captured_at

unfoldable pub order_by_time : List PriceObservation → List PriceObservation
unfolding sort_by
order_by_time = sort_by captured_before

-- No row was captured earlier than one that comes before it.
abbrev pub Chronological : List PriceObservation → Type 0
Chronological = Ordered (λ row r. row.captured_at ≤ r.captured_at)

order_by_time-Chronological : (rows : List PriceObservation) → Chronological (order_by_time rows)
unfolding order_by_time
order_by_time-Chronological =
    sort_by-Ordered captured_before (λ row r. row.captured_at ≤ r.captured_at)
      (λ x y e. ground arith) (λ x y e. ground arith) (λ x y z a b. omega arith)

abbrev pub from_time : Option ℕ → PriceObservation → Bool
from_time none row = true
from_time (some since) row = leb since row.captured_at

unfoldable pub list_for : Text → Option ℕ → Database → List PriceObservation
unfolding where_rows order_by_time
list_for product_id since db =
    order_by_time (
      where_rows (λ row. eqb row.product_id product_id && from_time since row)
        db.price_observations)

-- The observations listed for a product are its rows from `since` on, oldest first.
pub list_for-Chronological :
    (product_id : Text) (since : Option ℕ) (db : Database)
    → Chronological (list_for product_id since db)
      × All
          (λ row. (eqb row.product_id product_id && from_time since row) ≡ true)
          (list_for product_id since db)
unfolding list_for order_by_time
list_for-Chronological product_id since db =
    let test : PriceObservation → Bool =
      λ row. eqb row.product_id product_id && from_time since row in
    let rows = where_rows test db.price_observations in
    (
      order_by_time-Chronological rows,
      sort_by-All captured_before _ rows (where_rows-All test db.price_observations),
    )

unfoldable pub count_for : Text → Database → ℕ
unfolding where_rows
count_for product_id db =
    length (where_rows (λ row. eqb row.product_id product_id) db.price_observations)

-- The newest row for each product, as DISTINCT ON keeps it.
abbrev newer : PriceObservation → Option PriceObservation → PriceObservation
newer row none = row
newer row (some kept) = if leb kept.captured_at row.captured_at then row else kept

unfoldable pub newest_from : Dict PriceObservation → List PriceObservation → Dict PriceObservation
newest_from kept [] = kept
newest_from kept (row ∷ rows) =
    newest_from (put kept row.product_id (newer row (get kept row.product_id))) rows

abbrev amounts : Dict PriceObservation → Dict Decimal
amounts [] = []
amounts ((id, row) ∷ rest) = (id, row.amount) ∷ amounts rest

unfoldable pub latest_amounts_for_source : Text → Database → Dict Decimal
unfolding newest_from where_rows
latest_amounts_for_source source_id db =
    amounts (newest_from [] (where_rows (λ row. eqb row.source_id source_id) db.price_observations))
