-- ===== src/Analytics/Tests.antt =====
-- The health of some runs, and the theorems on them.
use acquire_intel.Prelude.{
  List, none, Dict, map, length, ℕ, ◌≤◌, ◌≡◌, refl, some, [], ◌∷◌, codes, All,
}
use acquire_intel.Prelude.Ratio.{ratio}
use acquire_intel.Storage.Models.{success}
use acquire_intel.Analytics.Health.{healthy, RunPoint, last_success_at, sum_of, classify_source}
use acquire_intel.Analytics.Health.Laws.{Healthy, classify_source-healthy}
use acquire_intel.Storage.Decimal.{decimal, lt_decimal}
use acquire_intel.Analytics.Deals.{PricePoint, DealResult, rank_deals}
use acquire_intel.Analytics.Deals.Drops.{IsDeal}
use acquire_intel.Analytics.Deals.Laws.{Ranked, rank_deals-Ranked}

abbrev good_run : RunPoint
good_run = record {
  status = success;
  started_at = 10;
  finished_at = some 20;
  items_ok = 5;
  items_rejected = 0;
  ban_events = 1;
  requests = 50;
}

good_healthy :
    (classify_source (codes "shop") (good_run ∷ []) 60 50 (ratio 1 10) (ratio 1 2)).status ≡ healthy
unfolding classify_source last_success_at sum_of
good_healthy = refl

classify_source-healthy_example : Healthy 60 50 (ratio 1 10) (ratio 1 2) (good_run ∷ [])
classify_source-healthy_example =
    classify_source-healthy (codes "shop") (good_run ∷ []) 60 50 (ratio 1 10) (ratio 1 2)
      good_healthy

abbrev point : ℕ → ℕ → PricePoint
point cents at = record {
  amount = decimal cents 2;
  currency = codes "EUR";
  at = at;
  in_stock = none;
}

abbrev histories : Dict (List PricePoint)
histories =
    (codes "a", point 1000 1 ∷ point 900 2 ∷ [])
    ∷ (codes "b", point 1200 1 ∷ point 600 2 ∷ [])
    ∷ (codes "c", point 500 1 ∷ [])
    ∷ []

half_price_first :
    map {B = List ℕ × ℕ}
      (λ (d : DealResult). (d.product_id, d.drop_pct))
      (rank_deals histories 500 5)
    ≡ (codes "b", 5000) ∷ (codes "a", 1000) ∷ []
unfolding rank_deals lt_decimal
half_price_first = refl

rank_deals-Ranked_example :
    All (IsDeal histories 500) (rank_deals histories 500 5)
    × Ranked (rank_deals histories 500 5)
    × (length (rank_deals histories 500 5) ≤ 5)
rank_deals-Ranked_example = rank_deals-Ranked histories 500 5
