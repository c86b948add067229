-- ===== src/Analytics/Deals/Laws.antt =====
-- What a ranked list of deals holds.
use acquire_intel.Prelude.{
  ℕ, zero, suc, ◌≤◌, ◌≡◌, true, false, List, [], ◌∷◌, length, take, length-take-le, Dict, All,
  All-imp, Bool-cases, inl, inr, arith,
}
use acquire_intel.Analytics.Deals.{
  PricePoint, DealResult, before, insert_deal, sort_deals, deals_of, rank_deals,
}
use acquire_intel.Analytics.Deals.Drops.{IsDeal, deals_of-IsDeal}

-- Descending by drop.
abbrev pub Ranked : List DealResult → Type 0
Ranked [] = Unit
Ranked (d ∷ ds) = All (λ x. x.drop_pct ≤ d.drop_pct) ds × Ranked ds

module _ (P : DealResult → Type 0) where
  insert_deal-All :
      (d : DealResult) (ds : List DealResult) → P d → All P ds → All P (insert_deal d ds)
  unfolding insert_deal
  insert_deal-All d [] h hs = (h, tt)
  insert_deal-All d (e ∷ ds) h hs = elim (Bool-cases (before e d)) [
    | inl f ↦ rw f (hs.0, insert_deal-All d ds h hs.1)
    | inr f ↦ rw f (h, hs)
  ]

  sort_deals-All : (ds : List DealResult) → All P ds → All P (sort_deals ds)
  unfolding sort_deals
  sort_deals-All [] h = tt
  sort_deals-All (d ∷ ds) h = insert_deal-All d (sort_deals ds) h.0 (sort_deals-All ds h.1)

  take-All : (n : ℕ) (ds : List DealResult) → All P ds → All P (take n ds)
  take-All zero ds h = tt
  take-All (suc n) [] h = tt
  take-All (suc n) (d ∷ ds) h = (h.0, take-All n ds h.1)

before-le : (e d : DealResult) → before e d ≡ true → d.drop_pct ≤ e.drop_pct
before-le e d h = ground arith

behind-le : (e d : DealResult) → before e d ≡ false → e.drop_pct ≤ d.drop_pct
behind-le e d h = ground arith

insert_deal-Ranked : (d : DealResult) (ds : List DealResult) → Ranked ds → Ranked (insert_deal d ds)
unfolding insert_deal
insert_deal-Ranked d [] h = (tt, tt)
insert_deal-Ranked d (e ∷ ds) h = elim (Bool-cases (before e d)) [
  | inl f ↦ rw f (
    insert_deal-All (λ x. x.drop_pct ≤ e.drop_pct) d ds (before-le e d f) h.0,
    insert_deal-Ranked d ds h.1,
  )
  | inr f ↦
      rw f ((behind-le e d f, All-imp _ _ ds (λ x b. omega (arith, b, behind-le e d f)) h.0), h)
]

sort_deals-Ranked : (ds : List DealResult) → Ranked (sort_deals ds)
unfolding sort_deals
sort_deals-Ranked [] = tt
sort_deals-Ranked (d ∷ ds) = insert_deal-Ranked d (sort_deals ds) (sort_deals-Ranked ds)

take-Ranked : (n : ℕ) (ds : List DealResult) → Ranked ds → Ranked (take n ds)
take-Ranked zero ds h = tt
take-Ranked (suc n) [] h = tt
take-Ranked (suc n) (d ∷ ds) h =
    (take-All (λ x. x.drop_pct ≤ d.drop_pct) n ds h.0, take-Ranked n ds h.1)

-- Every deal of the ranking is a real drop of a product of the histories: from a highest price of its
-- points to that of the latest of them, by at least the percentage asked for. The largest drops
-- stand first, and there are at most `limit` deals.
pub rank_deals-Ranked :
    (histories : Dict (List PricePoint)) (min_drop_pct limit : ℕ)
    → All (IsDeal histories min_drop_pct) (rank_deals histories min_drop_pct limit)
      × Ranked (rank_deals histories min_drop_pct limit)
      × (length (rank_deals histories min_drop_pct limit) ≤ limit)
unfolding rank_deals
rank_deals-Ranked histories m limit =
    let deals = deals_of histories m in
    (
      take-All (IsDeal histories m) limit (sort_deals deals)
          (sort_deals-All (IsDeal histories m) deals (deals_of-IsDeal histories m)),
      take-Ranked limit (sort_deals deals) (sort_deals-Ranked deals),
      length-take-le limit (sort_deals deals),
    )
