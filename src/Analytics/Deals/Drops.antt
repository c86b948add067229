-- ===== src/Analytics/Deals/Drops.antt =====
-- What a deal says of the points of its product.
use acquire_intel.Prelude.{
  ℕ, zero, suc, ◌≤◌, ◌≡◌, refl, sym, ap, subst, get_elem?, ◌∙◌, not, Bool, true, false, ◌||◌, none,
  some, List, [], ◌∷◌, if◌then◌else◌, ltb, Text, Dict, All, All-imp, Bool-cases, Option-cases, inl,
  inr, arith,
}
use acquire_intel.Storage.Decimal.{lt_decimal, le_decimal, zero_amount}
use acquire_intel.Storage.Decimal.Order.{le_decimal_trans, le_decimal-of_lt, le_decimal_refl}
use acquire_intel.Analytics.Deals.{
  PricePoint, DealResult, max_by, earlier, lower, judged, deal_of, drop_of, compute_deal, deals_of,
}

-- The point is one of the list.
abbrev pub IsIn : List PricePoint → PricePoint → Type 0
IsIn points p = (i : ℕ) × (get_elem? points i ≡ some p)

-- A deal of a product with these points: its current price is that of the latest point, the previous
-- price that of a highest one, and the drop from the one to the other at least the given percentage.
pub record DropOf (points : List PricePoint) (min_drop_pct : ℕ) (d : DealResult) : Type 0 where
  pub latest : PricePoint
  pub highest : PricePoint
  pub listed : IsIn points latest × IsIn points highest
  pub none_later : All (λ p. p.at ≤ latest.at) points
  pub none_higher : All (λ p. le_decimal p.amount highest.amount ≡ true) points
  pub current :
      (d.current_amount ≡ latest.amount)
      × (d.current_currency ≡ latest.currency)
      × (d.current_at ≡ latest.at)
      × (d.current_in_stock ≡ latest.in_stock)
  pub previous :
      (d.previous_amount ≡ highest.amount)
      × (d.previous_currency ≡ highest.currency)
      × (d.since ≡ highest.at)
  pub below : lt_decimal latest.amount highest.amount ≡ true
  pub percentage : (min_drop_pct ≤ d.drop_pct) × (d.drop_pct ≡ drop_of highest.amount latest.amount)

-- The deal is one of a product of the histories.
abbrev pub IsDeal : Dict (List PricePoint) → ℕ → DealResult → Type 0
IsDeal histories min_drop_pct d =
    (i : ℕ) × (points : List PricePoint) × (get_elem? histories i ≡ some (d.product_id, points))
    × DropOf points min_drop_pct d

-- Python's `max` takes one of the points.
module _ (lt : PricePoint → PricePoint → Bool) where
  max_by-IsIn :
      (best : PricePoint) (points : List PricePoint) → IsIn (best ∷ points) (max_by lt best points)
  unfolding max_by
  max_by-IsIn best [] = (0, refl)
  max_by-IsIn best (p ∷ points) = elim (Bool-cases (lt best p)) [
    | inl e ↦ let (i, f) = max_by-IsIn p points in (suc i, rw e f)
    | inr e ↦ in_rest best p points _ (rw e (max_by-IsIn best points))
  ]
    where
      in_rest :
          (best p : PricePoint) (points : List PricePoint) (m : PricePoint)
          → IsIn (best ∷ points) m
          → IsIn (best ∷ p ∷ points) m
      in_rest best p points m (zero, f) = (0, f)
      in_rest best p points m (suc i, f) = (suc (suc i), f)

  max_by-step :
      (best p : PricePoint) (points : List PricePoint) (b : Bool)
      → lt best p ≡ b
      → max_by lt best (p ∷ points) ≡ max_by lt (if b then p else best) points
  unfolding max_by
  max_by-step best p points b e = rw e refl

-- None of the points is above it.
module _ (lt : PricePoint → PricePoint → Bool) (R : PricePoint → PricePoint → Type 0)
    (refl_R : (p : PricePoint) → R p p) (up : (p q : PricePoint) → lt p q ≡ true → R p q)
    (down : (p q : PricePoint) → lt p q ≡ false → R q p)
    (trans_R : (p q r : PricePoint) → R p q → R q r → R p r) where
  abbrev Greatest : PricePoint → List PricePoint → PricePoint → Type 0
  Greatest best points m = R best m × All (λ p. R p m) points

  max_by-All :
      (best : PricePoint) (points : List PricePoint) → Greatest best points (max_by lt best points)
  unfolding max_by
  max_by-All best [] = (refl_R best, tt)
  max_by-All best (p ∷ points) = elim (Bool-cases (lt best p)) [
    | inl e ↦
        let (b, rest) = max_by-All p points in
        subst (Greatest best (p ∷ points)) (sym (max_by-step lt best p points true e))
          (trans_R best p _ (up best p e) b, (b, rest))
    | inr e ↦
        let (b, rest) = max_by-All best points in
        subst (Greatest best (p ∷ points)) (sym (max_by-step lt best p points false e))
          (b, (trans_R p best _ (down best p e) b, rest))
  ]

lower-le : (p q : PricePoint) → lower p q ≡ true → le_decimal p.amount q.amount ≡ true
lower-le p q e = elim (Bool-cases (lt_decimal p.amount q.amount)) [
  | inl f ↦ le_decimal-of_lt p.amount q.amount f
  | inr f ↦ ground arith
]

not_lower-le : (p q : PricePoint) → lower p q ≡ false → le_decimal q.amount p.amount ≡ true
not_lower-le p q e = ground arith

none_some : {A : Type 0} {B : Type 0} (d : A) → none ≡ some d → B
none_some d e = cc

some-injective : {A : Type 0} (x y : A) → some x ≡ some y → x ≡ y
some-injective x y e = cc

judged-none :
    (id : Text) (m : ℕ) (current reference : PricePoint)
    → (le_decimal reference.amount zero_amount || le_decimal reference.amount current.amount) ≡ true
    → judged id m current reference ≡ none
judged-none id m current reference f = rw f refl

judged-small :
    (id : Text) (m : ℕ) (current reference : PricePoint)
    → (le_decimal reference.amount zero_amount || le_decimal reference.amount current.amount)
      ≡ false
    → ltb (drop_of reference.amount current.amount) m ≡ true
    → judged id m current reference ≡ none
judged-small id m current reference f g = rw (f, g) refl

judged-some :
    (id : Text) (m : ℕ) (current reference : PricePoint)
    → (le_decimal reference.amount zero_amount || le_decimal reference.amount current.amount)
      ≡ false
    → ltb (drop_of reference.amount current.amount) m ≡ false
    → judged id m current reference ≡ some (deal_of id current reference)
judged-some id m current reference f g = rw (f, g) refl

-- Not at most is below.
dropped : (below tiny : Bool) → (tiny || not below) ≡ false → below ≡ true
dropped true tiny h = refl
dropped false tiny h = ground arith

judged-below :
    (id : Text) (m : ℕ) (current reference : PricePoint) (d : DealResult)
    → judged id m current reference ≡ some d
    → (d ≡ deal_of id current reference)
      × (lt_decimal current.amount reference.amount ≡ true)
      × (m ≤ drop_of reference.amount current.amount)
judged-below id m current reference d e =
    elim (Bool-cases
      (le_decimal reference.amount zero_amount || le_decimal reference.amount current.amount)) [
        | inl f ↦ none_some d (sym (judged-none id m current reference f) ∙ e)
        | inr f ↦ elim (Bool-cases (ltb (drop_of reference.amount current.amount) m)) [
          | inl g ↦ none_some d (sym (judged-small id m current reference f g) ∙ e)
          | inr g ↦ (
            sym (
                some-injective (deal_of id current reference) d
                  (sym (judged-some id m current reference f g) ∙ e)),
            dropped (lt_decimal current.amount reference.amount) _ f,
            ground (arith, g),
          )
        ]
      ]

compute_deal-DropOf :
    (id : Text) (m : ℕ) (points : List PricePoint) (d : DealResult)
    → compute_deal id points m ≡ some d
    → (d.product_id ≡ id) × DropOf points m d
unfolding compute_deal
compute_deal-DropOf id m [] d e = cc
compute_deal-DropOf id m (p ∷ points) d e =
    let latest = max_by earlier p points in
    let highest = max_by lower p points in
    let (made, below, enough) = judged-below id m latest highest d e in
    let (first, later) =
      max_by-All earlier (λ p q. p.at ≤ q.at) (λ p. omega arith) (λ p q h. ground arith)
        (λ p q h. ground arith) (λ p q r a b. omega arith) p points in
    let (one, higher) =
      max_by-All lower (λ p q. le_decimal p.amount q.amount ≡ true) (λ p. le_decimal_refl p.amount)
        lower-le not_lower-le (λ p q r a b. le_decimal_trans p.amount q.amount r.amount a b) p
        points in
    subst (λ (t : DealResult). (t.product_id ≡ id) × DropOf (p ∷ points) m t) (sym made)
      (
        refl,
        record {
          latest = latest;
          highest = highest;
          listed = (max_by-IsIn earlier p points, max_by-IsIn lower p points);
          none_later = (first, later);
          none_higher = (one, higher);
          current = (refl, refl, refl, refl);
          previous = (refl, refl, refl);
          below = below;
          percentage = (enough, refl);
        },
      )

later_history :
    (entry : Text × List PricePoint) (histories : Dict (List PricePoint)) (m : ℕ) (d : DealResult)
    → IsDeal histories m d
    → IsDeal (entry ∷ histories) m d
later_history entry histories m d (i, points, e, drop) = (suc i, points, e, drop)

pub deals_of-IsDeal :
    (histories : Dict (List PricePoint)) (m : ℕ) → All (IsDeal histories m) (deals_of histories m)
unfolding deals_of
deals_of-IsDeal [] m = tt
deals_of-IsDeal ((id, points) ∷ histories) m =
    let rest =
      All-imp (IsDeal histories m) (IsDeal ((id, points) ∷ histories) m) (deals_of histories m)
        (λ d h. later_history (id, points) histories m d h) (deals_of-IsDeal histories m) in
    elim (Option-cases (compute_deal id points m)) [
      | inl e ↦ rw e rest
      | inr (d, e) ↦
          let (same, drop) = compute_deal-DropOf id m points d e in
          rw e ((0, points, ap (λ (t : Text). some (t, points)) (sym same), drop), rest)
    ]
