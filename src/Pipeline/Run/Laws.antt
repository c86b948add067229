-- ===== src/Pipeline/Run/Laws.antt =====
-- What a run of the pipelines writes to the database.
use acquire_intel.Prelude.{
  ℕ, ◌≡◌, refl, subst, ◌∙◌, ◌⊎◌, inl, inr, true, false, Option, none, some, List, [], ◌∷◌, ◌++◌,
  map, Text, All, All-append, All-imp, arith, is_empty,
}
use acquire_intel.Storage.Decimal.{zero_amount, lt_decimal}
use acquire_intel.Storage.Models.{Database}
use acquire_intel.Pipeline.Spiders.{Spider, is_enabled, run_id_of, QualityIssue}
use acquire_intel.Pipeline.Price.{Unicode}
use acquire_intel.Pipeline.Normalize.{NormalizedItem}
use acquire_intel.Pipeline.Items as Items
use acquire_intel.Pipeline.Items.Laws.{process_item-Step, Canonical}
use acquire_intel.Pipeline.Quality as Quality
use acquire_intel.Pipeline.Quality.{
  GateThresholds, check_range, check_continuity, issue_of, or_issue, judged,
}
use acquire_intel.Pipeline.Persistence as Persistence
use acquire_intel.Pipeline.Persistence.Laws.{Present, close_spider-atomic}
use acquire_intel.Pipeline.Run.Batch.{
  process_item-buffer, process_item-judged, passing, feed_all-buffer,
}
use acquire_intel.Pipeline.Run.{Pipelines, open_all, stored, gated, feed, feed_all, crawl}

-- An item that may be written: made from a raw product of this run, and refused by no gate.
abbrev pub Accepted :
    Unicode → Items.NormalizePipeline → Quality.QualityGatePipeline → NormalizedItem → Type 0
Accepted u n q item = Canonical u n item × (issue_of q item ≡ none)

-- The run is enabled and its buffer holds accepted items only.
pub record IsClean (u : Unicode) (run : Text) (t : GateThresholds) (s : Pipelines) : Type 0 where
  pub opened : s.normalize.run_id ≡ run
  pub limits : s.quality.thresholds ≡ t
  pub gate : s.quality.enabled ≡ true
  pub store : s.persistence.enabled ≡ true
  pub buffer : All (Accepted u s.normalize s.quality) s.persistence.buffer

store-IsClean :
    (u : Unicode) (run : Text) (t : GateThresholds) (s : Pipelines) (item : NormalizedItem)
    → IsClean u run t s
    → Accepted u s.normalize s.quality item
    → IsClean u run t (stored s (some (Items.normalized item)))
store-IsClean u run t s item c a = rw (process_item-buffer item s.persistence c.store) record {
  opened = c.opened;
  limits = c.limits;
  gate = c.gate;
  store = c.store;
  buffer =
      All-append (Accepted u s.normalize s.quality) s.persistence.buffer (item ∷ []) c.buffer
        (a, tt);
}

gated-IsClean :
    (u : Unicode) (run : Text) (t : GateThresholds) (s : Pipelines) (item : NormalizedItem)
    → IsClean u run t s
    → Canonical u s.normalize item
    → IsClean u run t (gated s (some item))
gated-IsClean u run t s item c a =
    rw (process_item-judged item s.quality c.gate) (go (issue_of s.quality item) refl)
  where
    go :
        (v : Option QualityIssue)
        → issue_of s.quality item ≡ v
        → IsClean u run t (
            stored (record s { quality = (judged s.quality item v).1 }) (judged s.quality item v).0)
    go none e = store-IsClean u run t s item c (a, e)
    go (some issue) e = record {
      opened = c.opened;
      limits = c.limits;
      gate = c.gate;
      store = c.store;
      buffer = c.buffer;
    }

feed-IsClean :
    (u : Unicode) (run : Text) (t : GateThresholds) (now : ℕ) (item : Items.Item) (s : Pipelines)
    → IsClean u run t s
    → IsClean u run t (feed u now item s)
unfolding feed
feed-IsClean u run t now item s c = elim (process_item-Step u now item s.normalize) [
  | inl e ↦ rw e record {
    opened = c.opened;
    limits = c.limits;
    gate = c.gate;
    store = c.store;
    buffer = c.buffer;
  }
  | inr (inl e) ↦ rw e record {
    opened = c.opened;
    limits = c.limits;
    gate = c.gate;
    store = c.store;
    buffer = c.buffer;
  }
  | inr (inr (x, e, new, canonical)) ↦ rw e (
      gated-IsClean u run t (record s { normalize = Items.keep x.product.id s.normalize }) x
        record {
          opened = c.opened;
          limits = c.limits;
          gate = c.gate;
          store = c.store;
          buffer = c.buffer;
        }
        canonical)
]

feed_all-IsClean :
    (u : Unicode) (run : Text) (t : GateThresholds) (items : List (ℕ × Items.Item)) (s : Pipelines)
    → IsClean u run t s
    → IsClean u run t (feed_all u items s)
unfolding feed_all
feed_all-IsClean u run t [] s c = c
feed_all-IsClean u run t ((now, item) ∷ items) s c =
    feed_all-IsClean u run t items (feed u now item s) (feed-IsClean u run t now item s c)

enabled-run : (spider : Spider) → is_enabled spider ≡ true → is_empty (run_id_of spider) ≡ false
enabled-run spider h = ground arith

open_all-IsClean :
    (u : Unicode) (fresh : Text) (t : GateThresholds) (spider : Spider) (db : Database)
    → is_enabled spider ≡ true
    → IsClean u (run_id_of spider) t (open_all fresh t spider db)
unfolding open_all Items.open_spider Quality.open_spider Persistence.open_spider
open_all-IsClean u fresh t spider db h = record {
  opened = rw (enabled-run spider h) refl;
  limits = refl;
  gate = h;
  store = h;
  buffer = tt;
}

-- What is known of an item that has been written.
abbrev pub Written : Text → GateThresholds → NormalizedItem → Type 0
Written run t item =
    (item.observation.run_id ≡ run)
    × (item.observation.product_id ≡ item.product.id)
    × (lt_decimal item.observation.amount zero_amount ≡ false)
    × (check_range item.observation.amount t ≡ none)

or_issue-none : (a b : Option QualityIssue) → or_issue a b ≡ none → a ≡ none
or_issue-none none b h = refl
or_issue-none (some i) b h = cc

Accepted-Written :
    (u : Unicode) (run : Text) (t : GateThresholds) (s : Pipelines) (item : NormalizedItem)
    → IsClean u run t s
    → Accepted u s.normalize s.quality item
    → Written run t item
Accepted-Written u run t s item c ((product, now, canonical), passed) = (
  canonical.run ∙ c.opened,
  canonical.observation_id,
  canonical.amount,
  subst (λ (limits : GateThresholds). check_range item.observation.amount limits ≡ none) c.limits
      (or_issue-none _ _ passed),
)

-- The run commits nothing, or all of the given items.
abbrev Committing :
    Unicode
    → Text
    → GateThresholds
    → Spider
    → List (ℕ × Items.Item)
    → Database
    → List NormalizedItem
    → Type 0
Committing u fresh t spider items db kept =
    (crawl u fresh t spider items db ≡ db)
    ⊎ (((crawl u fresh t spider items db).price_observations
          ≡ db.price_observations ++ map (λ item. item.observation) kept)
        × All (Present (crawl u fresh t spider items db)) kept
        × All (Written (run_id_of spider) t) kept)

buffer-Committing :
    (u : Unicode) (fresh : Text) (t : GateThresholds) (spider : Spider)
    (items : List (ℕ × Items.Item)) (db : Database)
    → is_enabled spider ≡ true
    → Committing u fresh t spider items db
        (feed_all u items (open_all fresh t spider db)).persistence.buffer
unfolding crawl
buffer-Committing u fresh t spider items db h =
    let s = feed_all u items (open_all fresh t spider db) in
    let c =
      feed_all-IsClean u (run_id_of spider) t items _ (open_all-IsClean u fresh t spider db h) in
    elim (close_spider-atomic s.persistence db c.store) [
      | inl (_, same, _) ↦ inl same
      | inr (_, done) ↦ inr (
        done.observations,
        done.products,
        All-imp (Accepted u s.normalize s.quality) (Written (run_id_of spider) t)
            s.persistence.buffer (λ item a. Accepted-Written u (run_id_of spider) t s item c a)
            c.buffer,
      )
    ]

-- What a run accepts: the items that the first stage hands on and no gate refuses.
abbrev pub accepted :
    Unicode
    → Text
    → GateThresholds
    → Spider
    → List (ℕ × Items.Item)
    → Database
    → List NormalizedItem
accepted u fresh t spider items db =
    passing (open_all fresh t spider db).quality
      (Items.process_all u items (open_all fresh t spider db).normalize).0

opened-buffer :
    (u : Unicode) (fresh : Text) (t : GateThresholds) (spider : Spider)
    (items : List (ℕ × Items.Item)) (db : Database)
    → is_enabled spider ≡ true
    → (feed_all u items (open_all fresh t spider db)).persistence.buffer
      ≡ accepted u fresh t spider items db
unfolding open_all Items.open_spider Quality.open_spider Persistence.open_spider
opened-buffer u fresh t spider items db h = feed_all-buffer u items (open_all fresh t spider db) h h

-- A run of an enabled spider, whatever items it yields, leaves the database as it was, or adds
-- after the old observations those of the accepted items, in order. Each of these is of this run,
-- its amount is not negative and within the price band, and its product has a row.
pub crawl-Written :
    (u : Unicode) (fresh : Text) (t : GateThresholds) (spider : Spider)
    (items : List (ℕ × Items.Item)) (db : Database)
    → is_enabled spider ≡ true
    → (crawl u fresh t spider items db ≡ db)
      ⊎ (((crawl u fresh t spider items db).price_observations
            ≡ db.price_observations
              ++ map (λ item. item.observation) (accepted u fresh t spider items db))
          × All (Present (crawl u fresh t spider items db)) (accepted u fresh t spider items db)
          × All (Written (run_id_of spider) t) (accepted u fresh t spider items db))
crawl-Written u fresh t spider items db h =
    subst (Committing u fresh t spider items db) (opened-buffer u fresh t spider items db h)
      (buffer-Committing u fresh t spider items db h)
