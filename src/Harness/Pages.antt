-- ===== src/Harness/Pages.antt =====
-- Crawls of the product pages of harness/scenarios.py by the REST extractor.
use acquire_intel.Prelude.{
  ℕ, zero, suc, ◌+◌, ◌-◌, ◌*◌, ◌≡◌, ◌≤◌, ◌<◌, refl, ap, ◌∙◌, true, Option, none, some, List, [],
  ◌∷◌, map, length, take, drop, Text, eqb, arith,
}
use native.Mathlib.Nat.{suc-mul}
use mathlib.Core.Path.{ap₂}
use acquire_intel.Prelude.Ratio.{Ratio, ratio, lt_ratio}
use acquire_intel.Analytics.Drift.{assess_drift}
use acquire_intel.Pipeline.Normalize.{RawProduct}
use acquire_intel.Acquisition.Sources.Json.{Json, Fields, get, get_or, dicts}
use acquire_intel.Acquisition.Sources.Raw.{stringify, kept, mapped_of, Counts, Response}
use acquire_intel.Acquisition.Sources.Rest.{
  DemoRest, PageRequest, start_requests, product_list, to_raw_product, Crawled, crawl,
}
use acquire_intel.Acquisition.Sources.Rest.Crawl.{pred_suc, Serves, crawl-Complete}
use acquire_intel.Harness.Scenarios.{catalog, envelope, items_of, happy_page, renamed, drift_page}

dicts-items_of : (ds : List Fields) → dicts (items_of ds) ≡ ds
unfolding dicts items_of
dicts-items_of [] = refl
dicts-items_of (d ∷ ds) = ap (λ (t : List Fields). d ∷ t) (dicts-items_of ds)

-- The response of a page, with its value read back from the body.
abbrev pub shown : Json → PageRequest → Response
shown payload q = record { is_text = true; json = some payload; page = some q.page }

product_list-shown :
    (ds : List Fields) (q : PageRequest) → product_list (shown (envelope ds) q) ≡ ds
unfolding product_list get get_or eqb
product_list-shown ds q = dicts-items_of ds

renamed_unmapped :
    (quoted : Text → Text) (x : DemoRest) (p : Fields) → to_raw_product quoted x (renamed p) ≡ none
unfolding to_raw_product renamed get get_or stringify eqb
renamed_unmapped quoted x p = refl

all_unmapped :
    (quoted : Text → Text) (x : DemoRest) (ds : List Fields)
    → mapped_of (to_raw_product quoted x) (map renamed ds) ≡ []
unfolding mapped_of
all_unmapped quoted x [] = refl
all_unmapped quoted x (d ∷ ds) =
    ap (λ (t : Option RawProduct). kept t (mapped_of (to_raw_product quoted x) (map renamed ds)))
      (renamed_unmapped quoted x d)
    ∙ all_unmapped quoted x ds

module _ {ℓ κ} {A : Type ℓ} {B : Type κ} (f : A → B) where
  map-drop : (n : ℕ) (xs : List A) → map f (drop n xs) ≡ drop n (map f xs)
  map-drop zero xs = refl
  map-drop (suc n) [] = refl
  map-drop (suc n) (x ∷ xs) = map-drop n xs

  map-take : (n : ℕ) (xs : List A) → map f (take n xs) ≡ take n (map f xs)
  map-take zero xs = refl
  map-take (suc n) [] = refl
  map-take (suc n) (x ∷ xs) = ap (λ (t : List B). f x ∷ t) (map-take n xs)

page_width : (page size : ℕ) → 1 ≤ page → page * size - (page - 1) * size ≡ size
page_width zero size h = absurd (omega arith)
page_width (suc k) size h = rw pred_suc (omega (arith, suc-mul k size))

stretch_width : (start size : ℕ) → start + size - start ≡ size
stretch_width start size = omega arith

pub happy-Serves : (size : ℕ) → Serves catalog size (λ q. shown (happy_page q.page size) q)
happy-Serves size = record {
  listed = λ q h.
      product_list-shown _ q
      ∙ ap (λ (n : ℕ). take n (drop ((q.page - 1) * size) catalog))
          (stretch_width ((q.page - 1) * size) size);
  paged = λ q. refl;
}

drift-Serves :
    (size : ℕ) → Serves (map renamed catalog) size (λ q. shown (drift_page q.page size) q)
unfolding drift_page
drift-Serves size = record {
  listed = λ q h.
      product_list-shown _ q
      ∙ map-take renamed _ _
      ∙ ap₂ (λ (n : ℕ) (t : List Fields). take n t) (page_width q.page size h)
          (map-drop renamed ((q.page - 1) * size) catalog);
  paged = λ q. refl;
}

-- A crawl from fresh counts.
abbrev ended : ℕ → List RawProduct → Crawled
ended seen out = some (out, some (record { entries_seen = seen; entries_mapped = 0 + length out }))

-- A crawl of the drift scenario, in pages of any size, yields no product, and the drift detection
-- flags its counts unless it asks for more than three entries or lets all of them go unmapped.
pub drift_crawl :
    (quoted : Text → Text) (x : DemoRest) (size fuel min_entries : ℕ) (limit : Ratio)
    → 0 < size
    → 3 < fuel
    → min_entries ≤ 3
    → lt_ratio limit (ratio 3 3) ≡ true
    → (c : Counts) × (crawl quoted fuel x
          (λ q. shown (drift_page q.page size) q)
          (start_requests x)
          (some (record { entries_seen = 0; entries_mapped = 0 }))
        ≡ some ([], some c))
      × (assess_drift c.entries_seen c.entries_mapped min_entries limit ≡ true)
unfolding assess_drift
drift_crawl quoted x size fuel min_entries limit p h m l = (
  record { entries_seen = 3; entries_mapped = 0 },
  crawl-Complete quoted x size (map renamed catalog) _ fuel
        (record { entries_seen = 0; entries_mapped = 0 }) p (drift-Serves size) h
      ∙ ap (ended 3) (all_unmapped quoted x catalog),
  ground (arith, l),
)
