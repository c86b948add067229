-- ===== src/Resilience/Classifier/Tests.antt =====
-- Responses and their labels, and the theorems at concrete responses.
use acquire_intel.Prelude.{
  ◌≡◌, refl, ◌↔◌, ◌≤◌, ◌<◌, false, codes, is_empty, strip_bytes, arith, builtins, [], ◌∷◌, ◌++◌,
}
use acquire_intel.Resilience.Classifier.{
  Classification, ok, rate_limited, blocked, captcha, empty, scanned_text, has_marker, classify,
  lower,
}
use acquire_intel.Resilience.Classifier.Laws.{classify-marker, classify-ok_iff}

labels :
    (classify 200 (codes "{\"products\": []}") ≡ ok)
    × (classify 200 (codes " \n") ≡ empty)
    × (classify 429 [] ≡ rate_limited)
    × (classify 403 (codes "no") ≡ blocked)
    × (classify 200 (codes "<h1>Just a Moment...</h1>") ≡ captcha)
unfolding classify has_marker scanned_text lower builtins
labels = (refl, refl, refl, refl, refl)

-- An invalid byte is dropped, which can join the two halves of a marker.
joined : classify 200 (codes "cap" ++ 0xFF ∷ codes "tcha") ≡ captcha
unfolding classify has_marker scanned_text lower builtins
joined = refl

classify-marker_example : classify 403 (codes "<b>" ++ (codes "CaptCHA" ++ codes "</b>")) ≡ captcha
unfolding lower
classify-marker_example =
    classify-marker 403 0 (codes "<b>") (codes "CaptCHA") (codes "</b>") refl (omega arith)
      (omega arith) (omega arith)

classify-ok_iff_example :
    (classify 204 [] ≡ ok)
    ↔ (has_marker (scanned_text []) ≡ false)
      × (200 ≤ 204)
      × (204 < 300)
      × (is_empty (strip_bytes []) ≡ false)
classify-ok_iff_example = classify-ok_iff 204 []

abbrev challenge : Classification
challenge = captcha

abbrev soft_ban : Classification
soft_ban = empty
