-- ===== src/Pipeline/Persistence/Laws.antt =====
-- What closing the last stage does to the database.
use acquire_intel.Prelude.{
  ◌+◌, ◌≡◌, refl, subst, sym, ap, ◌∙◌, ◌≢◌, ◌⊎◌, inl, inr, Bool, true, false, Option, none, some,
  List, [], ◌∷◌, ◌++◌, map, length, All, eqb, eqb_refl, arith, if◌then◌else◌,
}
use acquire_intel.Storage.Models.{PriceObservation, Database}
use acquire_intel.Storage.Products.{upsert, get_product, merged, get-upsert_if}
use acquire_intel.Storage.Observations.{append}
use acquire_intel.Pipeline.Spiders.{QualityIssue, volume_anomaly, out_of_range, discontinuous}
use acquire_intel.Pipeline.Normalize.{NormalizedItem}
use acquire_intel.Pipeline.Quality.{check_volume}
use acquire_intel.Pipeline.Persistence.{PersistencePipeline, row_of, flush, closed, close_spider}
use mathlib.Core.List.{append_assoc, append-nil}

abbrev pub Present : Database → NormalizedItem → Type 0
Present db item = get_product item.product.id db.products ≢ none

upsert-Present :
    (item new : NormalizedItem) (db : Database)
    → Present db item
    → Present (upsert (row_of new.product) db) item
upsert-Present item new db h e =
    go (eqb new.product.id item.product.id)
      (sym (get-upsert_if (row_of new.product) item.product.id db) ∙ e)
  where
    go :
        (b : Bool)
        → (if b
            then some (merged (row_of new.product) (get_product item.product.id db.products))
            else get_product item.product.id db.products)
          ≡ none
        → ⊥
    go true e = cc
    go false e = h e

upsert-Present_self :
    (new : NormalizedItem) (db : Database) → Present (upsert (row_of new.product) db) new
upsert-Present_self new db e =
    go (eqb new.product.id new.product.id) (eqb_refl new.product.id)
      (sym (get-upsert_if (row_of new.product) new.product.id db) ∙ e)
  where
    go :
        (b : Bool)
        → b ≡ true
        → (if b
            then some (merged (row_of new.product) (get_product new.product.id db.products))
            else get_product new.product.id db.products)
          ≡ none
        → ⊥
    go true h e = cc
    go false h e = cc

append-Present :
    (row : PriceObservation) (db : Database) (item : NormalizedItem)
    → Present db item
    → Present (append row db) item
unfolding append
append-Present row db item h = h

flush-Present :
    (item : NormalizedItem) (items : List NormalizedItem) (p : PersistencePipeline) (db : Database)
    → Present db item
    → Present (flush items p db).1 item
unfolding flush
flush-Present item [] p db h = h
flush-Present item (new ∷ items) p db h =
    flush-Present item items _ _
      (append-Present new.observation _ item (upsert-Present item new db h))

-- The whole of `items` is in the database: the observations in order after the old ones, and a row for
-- each product; the ledger is as it was.
pub record Committed (items : List NormalizedItem) (p : PersistencePipeline) (db : Database)
    (p' : PersistencePipeline) (db' : Database) : Type 0 where
  pub observations :
      db'.price_observations ≡ db.price_observations ++ map (λ item. item.observation) items
  pub products : All (Present db') items
  pub persisted : p'.persisted ≡ p.persisted + length items
  pub ledger : db'.crawl_runs ≡ db.crawl_runs

append-observations :
    (item : NormalizedItem) (db : Database)
    → (append item.observation (upsert (row_of item.product) db)).price_observations
      ≡ db.price_observations ++ item.observation ∷ []
unfolding append upsert
append-observations item db = refl

append-ledger :
    (item : NormalizedItem) (db : Database)
    → (append item.observation (upsert (row_of item.product) db)).crawl_runs ≡ db.crawl_runs
unfolding append upsert
append-ledger item db = refl

flush-Committed :
    (items : List NormalizedItem) (p : PersistencePipeline) (db : Database)
    → Committed items p db (flush items p db).0 (flush items p db).1
unfolding flush
flush-Committed [] p db = record {
  observations = sym (append-nil db.price_observations);
  products = tt;
  persisted = omega arith;
  ledger = refl;
}
flush-Committed (item ∷ items) p db =
    let more =
      flush-Committed items _ (append item.observation (upsert (row_of item.product) db)) in
    record {
      observations =
          more.observations
          ∙ ap (λ (t : List PriceObservation). t ++ map (λ item. item.observation) items)
              (append-observations item db)
          ∙ append_assoc db.price_observations (item.observation ∷ [])
              (map (λ item. item.observation) items);
      products = (
        flush-Present item items _ _
            (append-Present item.observation _ item (upsert-Present_self item db)),
        more.products,
      );
      persisted = omega (arith, more.persisted);
      ledger = more.ledger ∙ append-ledger item db;
    }

abbrev pub Quarantined : PersistencePipeline → Database → PersistencePipeline → Database → Type 0
Quarantined p db p' db' =
    (check_volume (length p.buffer) p.baseline p.thresholds ≡ some volume_anomaly)
    × (db' ≡ db)
    × (p'.persisted ≡ p.persisted)

-- The two ways to close.
close_spider-verdict :
    (p : PersistencePipeline) (db : Database) (v : Option QualityIssue)
    → p.enabled ≡ true
    → check_volume (length p.buffer) p.baseline p.thresholds ≡ v
    → close_spider p db ≡ closed v p db
unfolding close_spider
close_spider-verdict p db v h e = simp (h, e)

abbrev Result :
    Option QualityIssue → PersistencePipeline → Database → PersistencePipeline × Database → Type 0
Result v p db r =
    Quarantined p db r.0 r.1 ⊎ ((v ≢ some volume_anomaly) × Committed p.buffer p db r.0 r.1)

closed-Result :
    (p : PersistencePipeline) (db : Database) (v : Option QualityIssue)
    → check_volume (length p.buffer) p.baseline p.thresholds ≡ v
    → Result v p db (closed v p db)
unfolding closed
closed-Result p db none e = inr ((λ z. cc), flush-Committed p.buffer p db)
closed-Result p db (some out_of_range) e = inr ((λ z. cc), flush-Committed p.buffer p db)
closed-Result p db (some discontinuous) e = inr ((λ z. cc), flush-Committed p.buffer p db)
closed-Result p db (some volume_anomaly) e = inl (e, refl, refl)

-- Closing an enabled stage: a run that the volume gate refuses leaves the database as it was. Every
-- other run commits the whole buffer: its observations in order after the old ones, a row for each
-- product, and as many more counted as persisted; the ledger stays as it was.
pub close_spider-atomic :
    (p : PersistencePipeline) (db : Database)
    → p.enabled ≡ true
    → Quarantined p db (close_spider p db).0 (close_spider p db).1
      ⊎ ((check_volume (length p.buffer) p.baseline p.thresholds ≢ some volume_anomaly)
          × Committed p.buffer p db (close_spider p db).0 (close_spider p db).1)
close_spider-atomic p db h =
    let v = check_volume (length p.buffer) p.baseline p.thresholds in
    subst (Result v p db) (sym (close_spider-verdict p db v h refl)) (closed-Result p db v refl)
