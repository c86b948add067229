-- ===== src/Pipeline/Run/Batch.antt =====
-- The run of the pipelines, item by item, against a description of it as a whole.
use acquire_intel.Prelude.{
  ℕ, ◌≡◌, refl, subst, sym, ap, ◌∙◌, true, Option, none, some, List, [], ◌∷◌, ◌++◌, Option-cases,
  inl, inr,
}
use acquire_intel.Pipeline.Spiders.{QualityIssue, items_rejected, quality, inc_stat}
use acquire_intel.Pipeline.Price.{Unicode}
use acquire_intel.Pipeline.Normalize.{NormalizedItem}
use acquire_intel.Pipeline.Items as Items
use acquire_intel.Pipeline.Items.Laws.{process_item-Step}
use acquire_intel.Pipeline.Quality as Quality
use acquire_intel.Pipeline.Quality.{QualityGatePipeline, issue_of, judged}
use acquire_intel.Pipeline.Persistence as Persistence
use acquire_intel.Pipeline.Run.{Pipelines, gated, feed, feed_all}
use mathlib.Core.List.{append_assoc, append-nil}

abbrev kept_if : Option QualityIssue → NormalizedItem → List NormalizedItem → List NormalizedItem
kept_if none item rest = item ∷ rest
kept_if (some issue) item rest = rest

-- The items that no gate refuses.
pub passing : QualityGatePipeline → List NormalizedItem → List NormalizedItem
passing q [] = []
passing q (item ∷ items) = kept_if (issue_of q item) item (passing q items)

-- The buffer after an item has come through.
pub process_item-buffer :
    (item : NormalizedItem) (p : Persistence.PersistencePipeline)
    → p.enabled ≡ true
    → Persistence.process_item (Items.normalized item) p
      ≡ record p { buffer = p.buffer ++ item ∷ [] }
unfolding Persistence.process_item
process_item-buffer item p h = simp h

pub process_item-judged :
    (item : NormalizedItem) (q : Quality.QualityGatePipeline)
    → q.enabled ≡ true
    → Quality.process_item (Items.normalized item) q ≡ judged q item (issue_of q item)
unfolding Quality.process_item
process_item-judged item q h = simp h

gated-pass :
    (s : Pipelines) (item : NormalizedItem)
    → s.quality.enabled ≡ true
    → s.persistence.enabled ≡ true
    → issue_of s.quality item ≡ none
    → gated s (some item) ≡ record s {
      persistence = record s.persistence { buffer = s.persistence.buffer ++ item ∷ [] };
    }
gated-pass s item g st v =
    rw (process_item-judged item s.quality g, v, judged)
      (rw (process_item-buffer item s.persistence st) refl)

gated-drop :
    (s : Pipelines) (item : NormalizedItem) (issue : QualityIssue)
    → s.quality.enabled ≡ true
    → issue_of s.quality item ≡ some issue
    → gated s (some item) ≡ record s {
      quality = record s.quality {
        stats = inc_stat (quality issue) (inc_stat items_rejected s.quality.stats);
      };
    }
gated-drop s item issue g v = rw (process_item-judged item s.quality g, v, judged) refl

passing-step :
    (q : QualityGatePipeline) (item : NormalizedItem) (rest : List NormalizedItem)
    (v : Option QualityIssue)
    → issue_of q item ≡ v
    → passing q (item ∷ rest) ≡ kept_if v item (passing q rest)
unfolding passing
passing-step q item rest v e = ap (λ w. kept_if w item (passing q rest)) e

passing-empty : (q : QualityGatePipeline) → passing q [] ≡ []
unfolding passing
passing-empty q = refl

-- The claim for the items that are left, after the first stage has answered to one.
abbrev Fed :
    Unicode
    → List (ℕ × Items.Item)
    → Pipelines
    → Option NormalizedItem × Items.NormalizePipeline
    → Type 0
Fed u items s r =
    (feed_all u items (gated (record s { normalize = r.1 }) r.0)).persistence.buffer
    ≡ s.persistence.buffer
      ++ passing s.quality (Items.emitted r.0 (Items.process_all u items r.1).0)

-- The buffer of a run holds, in order, the items that the first stage hands on and no gate refuses.
pub feed_all-buffer :
    (u : Unicode) (items : List (ℕ × Items.Item)) (s : Pipelines)
    → s.quality.enabled ≡ true
    → s.persistence.enabled ≡ true
    → (feed_all u items s).persistence.buffer
      ≡ s.persistence.buffer ++ passing s.quality (Items.process_all u items s.normalize).0
unfolding feed_all feed Items.process_all passing
feed_all-buffer u [] s g st =
    sym (append-nil s.persistence.buffer)
    ∙ ap (λ (t : List NormalizedItem). s.persistence.buffer ++ t) (sym (passing-empty s.quality))
feed_all-buffer u ((now, item) ∷ items) s g st = elim (process_item-Step u now item s.normalize) [
  | inl e ↦
      subst (Fed u items s) (sym e)
        (feed_all-buffer u items (record s { normalize = Items.reject s.normalize }) g st)
  | inr (inl e) ↦
      subst (Fed u items s) (sym e)
        (feed_all-buffer u items (record s { normalize = Items.skip_duplicate s.normalize }) g st)
  | inr (inr (x, e, _, _)) ↦
      let s1 : Pipelines = record s { normalize = Items.keep x.product.id s.normalize } in
      let rest = (Items.process_all u items s1.normalize).0 in
      elim (Option-cases (issue_of s.quality x)) [
        | inl v ↦ subst (Fed u items s) (sym e) (
            rw (gated-pass s1 x g st v) (
              feed_all-buffer u items
                (record s1 {
                  persistence = record s.persistence { buffer = s.persistence.buffer ++ x ∷ [] };
                })
                g st
              ∙ append_assoc s.persistence.buffer (x ∷ []) (passing s.quality rest)
              ∙ ap (λ (t : List NormalizedItem). s.persistence.buffer ++ t)
                  (sym (passing-step s.quality x rest none v))))
        | inr (issue, v) ↦ subst (Fed u items s) (sym e) (
            rw (gated-drop s1 x issue g v) (
              feed_all-buffer u items
                (record s1 {
                  quality = record s.quality {
                    stats = inc_stat (quality issue) (inc_stat items_rejected s.quality.stats);
                  };
                })
                g st
              ∙ ap (λ (t : List NormalizedItem). s.persistence.buffer ++ t)
                  (sym (passing-step s.quality x rest (some issue) v))))
      ]
]
