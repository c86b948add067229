-- ===== src/Storage/Tallies/Tests.antt =====
-- Grouped counts of a small ledger.
use acquire_intel.Prelude.{◌≡◌, refl, none, some, [], ◌∷◌, codes, count_where, get, builtins, Text}
use acquire_intel.Resilience.Classifier.{BanKind, rotate_proxy}
use acquire_intel.Storage.Models.{CrawlRun, RunStatus, success, failed, Database}
use acquire_intel.Storage.Tallies.{
  or_zero, or_empty, status_counts_by_source, kind_counts_by_source, action_totals, is_run_of,
  is_ban_of, has_action, tally_pairs, grouped_counts,
}

abbrev run : Text → RunStatus → CrawlRun
run id status = record {
  id = id;
  source_id = codes "shop";
  status = status;
  items_ok = 3;
  items_rejected = 0;
  ban_events = 0;
  requests = none;
  started_at = 1;
  finished_at = some 2;
}

abbrev ledger : Database
ledger = record {
  sources = [];
  products = [];
  crawl_runs = run (codes "r1") success ∷ run (codes "r2") failed ∷ run (codes "r3") success ∷ [];
  price_observations = [];
  ban_events =
      record {
        run_id = codes "r2";
        event = record {
          kind = BanKind.blocked;
          action_taken = rotate_proxy;
          http_status = some 403;
          occurred_at = 1;
        };
      }
      ∷ [];
}

two_successes :
    status_counts_by_source ledger
    ≡ (codes "shop", (codes "success", 2) ∷ (codes "failed", 1) ∷ []) ∷ []
unfolding status_counts_by_source tally_pairs builtins
two_successes = refl

grouped_counts_example :
    (or_zero
        (get (or_empty (get (status_counts_by_source ledger) (codes "shop"))) (codes "success"))
      ≡ count_where (is_run_of (codes "shop") (codes "success")) ledger.crawl_runs)
    × (or_zero
          (get (or_empty (get (kind_counts_by_source ledger) (codes "shop"))) (codes "blocked"))
        ≡ count_where (is_ban_of ledger (codes "shop") (codes "blocked")) ledger.ban_events)
    × (or_zero (get (action_totals ledger) (codes "rotate_proxy"))
        ≡ count_where (has_action (codes "rotate_proxy")) ledger.ban_events)
grouped_counts_example =
    grouped_counts ledger (codes "shop") (codes "success") (codes "blocked") (codes "rotate_proxy")
