-- ===== src/Acquisition/Sources/Rest/Crawl.antt =====
-- A crawl of a REST source that serves a list of products in pages.
use acquire_intel.Prelude.{
  ℕ, zero, suc, ◌+◌, ◌-◌, ◌*◌, ◌≡◌, ◌≤◌, ◌<◌, refl, sym, ap, subst, ◌∙◌, some, List, [], ◌∷◌, ◌++◌,
  length, length-append, take, drop, Text, arith,
}
use native.Mathlib.Nat.{suc-mul}
use mathlib.Core.Path.{ap₂, subst₂}
use acquire_intel.Acquisition.Sources.Json.{Fields}
use acquire_intel.Acquisition.Sources.Raw.{mapped_of, Counts, Response}
use acquire_intel.Acquisition.Sources.Raw.Laws.{mapped_of-append}
use acquire_intel.Acquisition.Sources.Rest.{
  DemoRest, PageRequest, page_request, start_requests, product_list, page_of, to_raw_product,
  parsed, parse, crawl, Crawled, continued, joined,
}

no_page : (size : ℕ) → 0 * size ≡ 0
no_page size = omega arith

add_one : (k : ℕ) → suc k ≡ k + 1
add_one k = omega arith

pub pred_suc : (k : ℕ) → suc k - 1 ≡ k
pred_suc k = omega arith

suc_add : (m n : ℕ) → suc (m + n) ≡ suc m + n
suc_add m n = omega arith

module _ {ℓ} {A : Type ℓ} where
  take-drop : (n : ℕ) (xs : List A) → take n xs ++ drop n xs ≡ xs
  take-drop zero xs = refl
  take-drop (suc n) [] = refl
  take-drop (suc n) (x ∷ xs) = ap (λ (t : List A). x ∷ t) (take-drop n xs)

  drop-nil : (n : ℕ) → drop {A = A} n [] ≡ []
  drop-nil zero = refl
  drop-nil (suc n) = refl

  drop-drop : (m n : ℕ) (xs : List A) → drop n (drop m xs) ≡ drop (m + n) xs
  drop-drop zero n xs = ap (λ (t : ℕ). drop t xs) (omega arith)
  drop-drop (suc m) n [] = drop-nil n ∙ sym (drop-nil (suc m + n))
  drop-drop (suc m) n (x ∷ xs) = drop-drop m n xs ∙ ap (λ (t : ℕ). drop t (x ∷ xs)) (suc_add m n)

  length-drop-le : (n : ℕ) (xs : List A) → length (drop n xs) ≤ length xs
  length-drop-le zero xs = omega arith
  length-drop-le (suc n) [] = omega arith
  length-drop-le (suc n) (x ∷ xs) = omega (arith, length-drop-le n xs)

  -- A list cut in two: nothing is left, or the first part is not empty.
  data Cut : List A → List A → List A → Type ℓ where
    done : (next : List A) → Cut [] [] next
    more :
        (x : A) (front next : List A)
        → length next ≤ length (front ++ next)
        → Cut (x ∷ front) (x ∷ front ++ next) next

  cut : (n : ℕ) (xs : List A) → 0 < n → Cut (take n xs) xs (drop n xs)
  cut zero xs p = absurd (omega arith)
  cut (suc n) [] p = done []
  cut (suc n) (x ∷ xs) p =
      subst (λ (t : List A). Cut (x ∷ take n xs) (x ∷ t) (drop n xs)) (take-drop n xs)
        (more x (take n xs) (drop n xs) (omega (arith, length-append (take n xs) (drop n xs))))

-- A server that has these products, `size` to a page, counted from page 1.
pub record Serves (products : List Fields) (size : ℕ) (serve : PageRequest → Response)
    : Type 0 where
  pub listed :
      (q : PageRequest)
      → 1 ≤ q.page
      → product_list (serve q) ≡ take size (drop ((q.page - 1) * size) products)
  pub paged : (q : PageRequest) → page_of (serve q).page ≡ q.page

abbrev add_counts : Counts → ℕ → ℕ → Counts
add_counts c seen mapped = record {
  entries_seen = c.entries_seen + seen;
  entries_mapped = c.entries_mapped + mapped;
}

module _ (quoted : Text → Text) (x : DemoRest) (size : ℕ) (products : List Fields)
    (serve : PageRequest → Response) where
  -- The products from page `k + 1` on.
  abbrev from_page : ℕ → List Fields
  from_page k = drop (k * size) products

  page-drop : (k : ℕ) → drop size (from_page k) ≡ from_page (suc k)
  page-drop k =
      drop-drop (k * size) size products ∙ ap (λ (t : ℕ). drop t products) (sym (suc-mul k size))

  -- The end of a crawl that still finds these products.
  abbrev delivered : Counts → List Fields → Crawled
  delivered c found =
      let out = mapped_of (to_raw_product quoted x) found in
      some (out, some (add_counts c (length found) (length out)))

  joined-delivered :
      (c : Counts) (front next : List Fields)
      → (let out = mapped_of (to_raw_product quoted x) front in
          joined out (delivered (add_counts c (length front) (length out)) next))
        ≡ delivered c (front ++ next)
  joined-delivered c front next = ground (
    arith,
    mapped_of-append (to_raw_product quoted x) front next,
    length-append front next,
    length-append (mapped_of (to_raw_product quoted x) front)
        (mapped_of (to_raw_product quoted x) next),
  )

  -- The crawl after a page that lists these entries.
  abbrev after_page : ℕ → ℕ → Counts → List Fields → Crawled
  after_page fuel k c entries =
      let p = parsed quoted x k (some c) entries in
      continued (crawl quoted fuel x serve) p.products p.stats p.follow

  crawl-after_page :
      (fuel k : ℕ) (c : Counts) (entries : List Fields)
      → Serves products size serve
      → take size (from_page k) ≡ entries
      → crawl quoted (suc fuel) x serve (page_request x (suc k)) (some c)
        ≡ after_page fuel (suc k) c entries
  unfolding crawl parse
  crawl-after_page fuel k c entries s e =
      let q = page_request x (suc k) in
      ap₂ (λ (t : ℕ) (es : List Fields). after_page fuel t c es) (s.paged q)
        (s.listed q (omega arith)
          ∙ ap (λ (t : ℕ). take size (drop (t * size) products)) (pred_suc k)
          ∙ e)

  -- One page and then the rest.
  after_page-Cut :
      (fuel k : ℕ) (c : Counts) (front found next : List Fields)
      → Cut front found next
      → length found ≤ fuel
      → (length next < fuel
          → (c' : Counts)
          → crawl quoted fuel x serve (page_request x (k + 1)) (some c') ≡ delivered c' next)
      → after_page fuel k c front ≡ delivered c found
  unfolding mapped_of
  after_page-Cut fuel k c _ _ next (done _) h again = ground arith
  after_page-Cut fuel k c _ _ _ (more y front next l) h again =
      ap (joined (mapped_of (to_raw_product quoted x) (y ∷ front))) (again (omega arith) _)
      ∙ joined-delivered c (y ∷ front) next

  crawl-from :
      (fuel k : ℕ) (c : Counts)
      → 0 < size
      → Serves products size serve
      → length (from_page k) < fuel
      → crawl quoted fuel x serve (page_request x (suc k)) (some c) ≡ delivered c (from_page k)
  crawl-from zero k c p s h = absurd (omega arith)
  crawl-from (suc fuel) k c p s h =
      crawl-after_page fuel k c _ s refl
      ∙ after_page-Cut fuel (suc k) c _ _ _ (cut size (from_page k) p) (omega arith) (λ l c'.
        subst₂
          (λ (t : ℕ) (found : List Fields).
            crawl quoted fuel x serve (page_request x t) (some c') ≡ delivered c' found)
          (add_one (suc k)) (sym (page-drop k))
          (crawl-from fuel (suc k) c' p s
            (subst (λ (t : List Fields). length t < fuel) (page-drop k) l)))

  -- A crawl of a REST source that serves a list of products in pages of at least one comes to an
  -- end, with more fuel than there are products: it yields what the mapping keeps of all of them,
  -- in their order and each once, and counts each as seen and each that it keeps as mapped.
  pub crawl-Complete :
      (fuel : ℕ) (c : Counts)
      → 0 < size
      → Serves products size serve
      → length products < fuel
      → crawl quoted fuel x serve (start_requests x) (some c)
        ≡ some (
          mapped_of (to_raw_product quoted x) products,
          some (record {
            entries_seen = c.entries_seen + length products;
            entries_mapped =
                c.entries_mapped + length (mapped_of (to_raw_product quoted x) products);
          }),
        )
  crawl-Complete fuel c p s h =
      subst
        (λ (t : ℕ).
          length (drop t products) < fuel
          → crawl quoted fuel x serve (start_requests x) (some c) ≡ delivered c (drop t products))
        (no_page size) (crawl-from fuel 0 c p s) h
