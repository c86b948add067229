-- ===== src/Pipeline/Items/Laws.antt =====
-- What the normalize stage does with every item, one by one and over a run.
use acquire_intel.Prelude.{
  ℕ, ◌+◌, ◌≡◌, refl, ◌⊎◌, inl, inr, false, Option, none, some, List, [], ◌∷◌, Text, eqb, any_of,
  length, All, Bool-cases, arith,
}
use acquire_intel.Pipeline.Price.{Unicode, Result, raised, returned}
use acquire_intel.Pipeline.Normalize.{RawProduct, NormalizedItem, normalize}
use acquire_intel.Pipeline.Normalize.Laws.{IsCanonical, normalize-IsCanonical}
use acquire_intel.Pipeline.Items.{
  Item, raw, normalized, other, NormalizePipeline, reject, skip_duplicate, keep, settled,
  capture_at, process_item, process_all,
}

abbrev New : List Text → NormalizedItem → Type 0
New seen item = any_of (eqb item.product.id) seen ≡ false

-- The item comes from a raw product and a time.
abbrev pub Canonical : Unicode → NormalizePipeline → NormalizedItem → Type 0
Canonical u p item =
    (product : RawProduct) × (now : ℕ) × IsCanonical u product (capture_at now p) item

-- An item is rejected, skipped as a duplicate, or kept.
abbrev pub Step : Unicode → NormalizePipeline → Option NormalizedItem × NormalizePipeline → Type 0
Step u p r =
    (r ≡ (none, reject p))
    ⊎ ((r ≡ (none, skip_duplicate p))
        ⊎ ((item : NormalizedItem) × (r ≡ (some item, keep item.product.id p))
            × New p.seen item
            × Canonical u p item))

settled-Step :
    (u : Unicode) (product : RawProduct) (now : ℕ) (p : NormalizePipeline)
    (r : Result NormalizedItem)
    → normalize u product (capture_at now p) ≡ r
    → Step u p (settled p r)
settled-Step u product now p (raised e) h = inl refl
settled-Step u product now p (returned item) h =
    elim (Bool-cases (any_of (eqb item.product.id) p.seen)) [
      | inl e ↦ inr (inl (rw e refl))
      | inr e ↦ inr (
          inr (
            item,
            rw e refl,
            e,
            (product, now, normalize-IsCanonical u product (capture_at now p) item h),
          ))
    ]

pub process_item-Step :
    (u : Unicode) (now : ℕ) (item : Item) (p : NormalizePipeline)
    → Step u p (process_item u now item p)
unfolding process_item
process_item-Step u now (raw product) p =
    settled-Step u product now p (normalize u product (capture_at now p)) refl
process_item-Step u now (normalized item) p = inl refl
process_item-Step u now other p = inl refl

-- No id is in `seen`, nor there twice.
abbrev pub NoRepeats : List Text → List NormalizedItem → Type 0
NoRepeats seen [] = Unit
NoRepeats seen (item ∷ items) = New seen item × NoRepeats (item.product.id ∷ seen) items

abbrev pub handled : NormalizePipeline → ℕ
handled p = p.items_ok + p.items_rejected + p.items_duplicate

pub record Accounted (u : Unicode) (n : ℕ) (p : NormalizePipeline) (out : List NormalizedItem)
    (p' : NormalizePipeline) : Type 0 where
  pub total : handled p' ≡ handled p + n
  pub kept : p'.items_ok ≡ p.items_ok + length out
  pub distinct : NoRepeats p.seen out
  pub canonical : All (Canonical u p) out

-- After a run of the stage, the three counters have grown together by the number of items, and
-- `items_ok` by the number that came out. What came out is canonical, and no product is in it twice or
-- had been seen before.
pub process_all-Accounted :
    (u : Unicode) (items : List (ℕ × Item)) (p : NormalizePipeline)
    → Accounted u (length items) p (process_all u items p).0 (process_all u items p).1
unfolding process_all
process_all-Accounted u [] p = record {
  total = omega arith;
  kept = omega arith;
  distinct = tt;
  canonical = tt;
}
process_all-Accounted u ((now, item) ∷ items) p = elim (process_item-Step u now item p) [
  | inl e ↦
      let rest = process_all-Accounted u items (reject p) in
      rw e record {
        total = omega (arith, rest.total);
        kept = rest.kept;
        distinct = rest.distinct;
        canonical = rest.canonical;
      }
  | inr (inl e) ↦
      let rest = process_all-Accounted u items (skip_duplicate p) in
      rw e record {
        total = omega (arith, rest.total);
        kept = rest.kept;
        distinct = rest.distinct;
        canonical = rest.canonical;
      }
  | inr (inr (x, e, new, canonical)) ↦
      let rest = process_all-Accounted u items (keep x.product.id p) in
      rw e record {
        total = omega (arith, rest.total);
        kept = omega (arith, rest.kept);
        distinct = (new, rest.distinct);
        canonical = (canonical, rest.canonical);
      }
]
