-- ===== src/Storage/Queries.antt =====
-- The reads of src/acquire_intel/storage/repositories.py that the dashboard and the analytics make. The
-- keys of a dictionary stand in the order in which their first rows come, not in that of the ids.
use acquire_intel.Prelude.{
  ℕ, ◌≤◌, ◌≡◌, Bool, true, ◌&&◌, Option, none, some, List, [], ◌∷◌, ◌++◌, leb, Text, eqb, eqb_iff,
  Dict, get, put, any_of, take, length, length-take-le, All, All-imp, arith,
}
use acquire_intel.Prelude.Sorting.{
  sort_by, sort_by-All, sort_by-Ordered, Ordered, take-All, take-Ordered,
}
use acquire_intel.Storage.Models.{CrawlRun, PriceObservation, Database}
use acquire_intel.Storage.Observations.{where_rows, where_rows-All, order_by_time, newest_from}

-- `PriceObservationRepository.latest_for_many`
unfoldable pub latest_for_many : List Text → Database → Dict PriceObservation
unfolding newest_from where_rows any_of
latest_for_many product_ids db = newest_from [] (
    where_rows (λ (row : PriceObservation). any_of (eqb row.product_id) product_ids)
      db.price_observations)

-- grouped.setdefault(row.product_id, []).append(row)
abbrev grouped_with : Option (List PriceObservation) → PriceObservation → List PriceObservation
grouped_with none row = row ∷ []
grouped_with (some rows) row = rows ++ row ∷ []

unfoldable pub group_rows :
    Dict (List PriceObservation) → List PriceObservation → Dict (List PriceObservation)
group_rows grouped [] = grouped
group_rows grouped (row ∷ rows) =
    group_rows (put grouped row.product_id (grouped_with (get grouped row.product_id) row)) rows

abbrev is_of : Option Text → PriceObservation → Bool
is_of none row = true
is_of (some source) row = eqb row.source_id source

abbrev is_since : Option ℕ → PriceObservation → Bool
is_since none row = true
is_since (some since) row = leb since row.captured_at

-- `PriceObservationRepository.history_since`
unfoldable pub history_since : Option Text → Option ℕ → Database → Dict (List PriceObservation)
unfolding where_rows order_by_time group_rows
history_since source since db = group_rows [] (
    order_by_time (
      where_rows (λ (row : PriceObservation). is_of source row && is_since since row)
        db.price_observations))

-- ORDER BY started_at DESC
abbrev newer_run : CrawlRun → CrawlRun → Bool
newer_run run r = leb r.started_at run.started_at

unfoldable pub order_runs : List CrawlRun → List CrawlRun
unfolding sort_by
order_runs = sort_by newer_run

-- `CrawlRunRepository.recent`
unfoldable pub recent : Text → ℕ → Database → List CrawlRun
unfolding where_rows order_runs
recent source_id limit db =
    take limit
      (order_runs (where_rows (λ (run : CrawlRun). eqb run.source_id source_id) db.crawl_runs))

-- No run is older than one that comes after it.
abbrev pub NewestFirst : List CrawlRun → Type 0
NewestFirst = Ordered (λ run r. r.started_at ≤ run.started_at)

order_runs-NewestFirst : (runs : List CrawlRun) → NewestFirst (order_runs runs)
unfolding order_runs
order_runs-NewestFirst =
    sort_by-Ordered newer_run (λ run r. r.started_at ≤ run.started_at) (λ x y e. ground arith)
      (λ x y e. ground arith) (λ x y z a b. omega arith)

-- The recent runs of a source are runs of that source, newest first, and no more than `limit`.
recent-NewestFirst :
    (source_id : Text) (limit : ℕ) (db : Database)
    → NewestFirst (recent source_id limit db)
      × All (λ r. r.source_id ≡ source_id) (recent source_id limit db)
      × (length (recent source_id limit db) ≤ limit)
unfolding recent order_runs
recent-NewestFirst source_id limit db =
    let rows = where_rows (λ (run : CrawlRun). eqb run.source_id source_id) db.crawl_runs in
    (
      take-Ordered _ limit (order_runs rows) (order_runs-NewestFirst rows),
      take-All _ limit (order_runs rows) (
          sort_by-All newer_run _ rows (
            All-imp _ (λ r. r.source_id ≡ source_id) rows (λ r. (eqb_iff r.source_id source_id).0)
              (where_rows-All (λ run. eqb run.source_id source_id) db.crawl_runs))),
      length-take-le limit (order_runs rows),
    )
