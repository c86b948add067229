-- ===== src/Analytics/Deals.antt =====
-- src/acquire_intel/analytics/deals.py: price drops against a product's own history. A percentage with
-- two places is the number of its hundredths, also as a threshold. The source rounds the float that is next to the exact
-- quotient, the model the exact quotient, ties to even.
pub mod Drops
pub mod Laws
use acquire_intel.Prelude.{
  ℕ, suc, ◌+◌, ◌-◌, ◌*◌, ◌/◌, ◌%◌, Bool, true, false, ◌&&◌, ◌||◌, not, Option, none, some, List, [],
  ◌∷◌, ltb, leb, ◌==◌, if◌then◌else◌, Text, Dict, take,
}
use acquire_intel.Storage.Decimal.{Decimal, zero_amount, lt_decimal, le_decimal, aligned}

pub record PricePoint : Type 0 where
  pub amount : Decimal
  pub currency : Text
  pub at : ℕ
  pub in_stock : Option Bool

pub record DealResult : Type 0 where
  pub product_id : Text
  pub previous_amount : Decimal
  pub previous_currency : Text
  pub current_amount : Decimal
  pub current_currency : Text
  pub current_at : ℕ
  pub drop_pct : ℕ
  pub since : ℕ
  pub current_in_stock : Option Bool

-- Python's `max` with a key: the first of the greatest, `lt` being the order of the keys.
unfoldable pub max_by : (PricePoint → PricePoint → Bool) → PricePoint → List PricePoint → PricePoint
max_by lt best [] = best
max_by lt best (p ∷ points) = max_by lt (if lt best p then p else best) points

abbrev pub earlier : PricePoint → PricePoint → Bool
earlier p q = ltb p.at q.at

-- The order of the tuples (amount, at).
abbrev pub lower : PricePoint → PricePoint → Bool
lower p q = lt_decimal p.amount q.amount || (le_decimal p.amount q.amount && ltb p.at q.at)

-- a / b to the nearest whole number, ties to even.
abbrev pub nearest : ℕ → ℕ → ℕ
nearest a b =
    let q = a / b in
    if ltb (2 * (a % b)) b then q else if ltb b (2 * (a % b)) || (q % 2 == 1) then q + 1 else q

-- The hundredths of (previous - current) / previous * 100, for a positive previous amount.
abbrev pub drop_of : Decimal → Decimal → ℕ
drop_of previous current =
    let high = aligned previous current in
    let low = aligned current previous in
    nearest (10000 * (if current.negative then high + low else high - low)) high

abbrev pub deal_of : Text → PricePoint → PricePoint → DealResult
deal_of product_id current reference = record {
  product_id = product_id;
  previous_amount = reference.amount;
  previous_currency = reference.currency;
  current_amount = current.amount;
  current_currency = current.currency;
  current_at = current.at;
  drop_pct = drop_of reference.amount current.amount;
  since = reference.at;
  current_in_stock = current.in_stock;
}

abbrev pub judged : Text → ℕ → PricePoint → PricePoint → Option DealResult
judged product_id min_drop_pct current reference =
    if le_decimal reference.amount zero_amount || le_decimal reference.amount current.amount
    then none
    else if ltb (drop_of reference.amount current.amount) min_drop_pct
    then none
    else some (deal_of product_id current reference)

unfoldable pub compute_deal : Text → List PricePoint → ℕ → Option DealResult
unfolding max_by
compute_deal product_id [] min_drop_pct = none
compute_deal product_id (p ∷ points) min_drop_pct =
    judged product_id min_drop_pct (max_by earlier p points) (max_by lower p points)

-- s < t, by code points.
unfoldable pub lt_text : Text → Text → Bool
lt_text [] [] = false
lt_text [] (y ∷ t) = true
lt_text (x ∷ s) [] = false
lt_text (x ∷ s) (y ∷ t) = ltb x y || ((x == y) && lt_text s t)

-- The order of the keys (-drop_pct, product_id).
abbrev pub before : DealResult → DealResult → Bool
before d e =
    ltb e.drop_pct d.drop_pct || ((d.drop_pct == e.drop_pct) && lt_text d.product_id e.product_id)

-- A stable sort: a deal goes in front of the first that does not rank above it.
unfoldable pub insert_deal : DealResult → List DealResult → List DealResult
insert_deal d [] = d ∷ []
insert_deal d (e ∷ deals) = if before e d then e ∷ insert_deal d deals else d ∷ e ∷ deals

unfoldable pub sort_deals : List DealResult → List DealResult
unfolding insert_deal
sort_deals [] = []
sort_deals (d ∷ deals) = insert_deal d (sort_deals deals)

abbrev pub kept_deal : Option DealResult → List DealResult → List DealResult
kept_deal none deals = deals
kept_deal (some d) deals = d ∷ deals

unfoldable pub deals_of : Dict (List PricePoint) → ℕ → List DealResult
unfolding compute_deal
deals_of [] min_drop_pct = []
deals_of ((product_id, points) ∷ histories) min_drop_pct =
    kept_deal (compute_deal product_id points min_drop_pct) (deals_of histories min_drop_pct)

unfoldable pub rank_deals : Dict (List PricePoint) → ℕ → ℕ → List DealResult
unfolding deals_of sort_deals
rank_deals histories min_drop_pct limit = take limit (sort_deals (deals_of histories min_drop_pct))
