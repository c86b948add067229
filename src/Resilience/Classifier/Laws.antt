-- ===== src/Resilience/Classifier/Laws.antt =====
-- What the gate lets by, and that a challenge page is caught wherever its marker stands.
use mathlib.Core.List.{append_assoc}
use acquire_intel.Prelude.{
  ℕ, zero, suc, ◌+◌, ◌-◌, ◌≤◌, ◌<◌, ◌≡◌, refl, ap, ◌∙◌, ◌↔◌, ◌≢◌, Bool, true, false, none, some,
  List, [], ◌∷◌, ◌++◌, take, length, is_empty, any_of, Text, strip_bytes, contains, starts_with,
  All, get_elem?, arith,
}
use acquire_intel.Resilience.Classifier.Decoding.{decode_from, decode_utf_8, lower, next, IsAscii}
use acquire_intel.Resilience.Classifier.Markers.{captcha_markers, scan_limit}
use acquire_intel.Resilience.Classifier.{
  Classification, ok, captcha, scanned_text, has_marker, classify, is_ban, ban_kind,
  recommended_action,
}

next_ascii : (b : ℕ) → IsAscii b → next none b ≡ (b ∷ [], none)
unfolding next
next_ascii b h = ground arith

decode-append_ascii :
    (s rest : Text) → All IsAscii s → decode_utf_8 (s ++ rest) ≡ s ++ decode_utf_8 rest
unfolding decode_utf_8
decode-append_ascii [] rest h = refl
decode-append_ascii (b ∷ s) rest h =
    rw (next_ascii b h.0, decode_from) (ap (◌∷◌ b) (decode-append_ascii s rest h.1))

lower-append : (s t : Text) → lower (s ++ t) ≡ lower s ++ lower t
unfolding lower
lower-append [] t = refl
lower-append (c ∷ s) t = simp (lower-append s t, append_assoc)

starts_with-append : (s t : Text) → starts_with (s ++ t) s ≡ true
unfolding starts_with
starts_with-append [] [] = refl
starts_with-append [] (c ∷ t) = refl
starts_with-append (c ∷ s) t = ground (arith, starts_with-append s t)

contains_self : (s t : Text) → contains s (s ++ t) ≡ true
unfolding contains
contains_self [] [] = refl
contains_self [] (c ∷ t) = rw (starts_with-append [] (c ∷ t))
contains_self (c ∷ s) t = rw (starts_with-append (c ∷ s) t)

contains-append : (needle s t : Text) → contains needle t ≡ true → contains needle (s ++ t) ≡ true
unfolding contains
contains-append needle [] t h = h
contains-append needle (c ∷ s) t h = ground (arith, contains-append needle s t h)

take-append : (n : ℕ) (s t : Text) → length s ≤ n → take n (s ++ t) ≡ s ++ take (n - length s) t
take-append n [] t h = let e : n - 0 ≡ n = omega arith in rw e
take-append zero (c ∷ s) t h = absurd (omega arith)
take-append (suc n) (c ∷ s) t h =
    let e : suc n - suc (length s) ≡ n - length s = omega arith in
    rw e (ap (◌∷◌ c) (take-append n s t (omega arith)))

any_of-get_elem? :
    (test : Text → Bool) (xs : List Text) (i : ℕ) (x : Text)
    → get_elem? xs i ≡ some x
    → test x ≡ true
    → any_of test xs ≡ true
unfolding any_of
any_of-get_elem? test [] i x e h = cc
any_of-get_elem? test (y ∷ xs) zero x e h = ground arith
any_of-get_elem? test (y ∷ xs) (suc i) x e h = ground (arith, any_of-get_elem? test xs i x e h)

scanned-append :
    (before word rest : Text)
    → All IsAscii before
    → All IsAscii word
    → length before + length word ≤ scan_limit
    → (tail : Text) × (scanned_text (before ++ (word ++ rest))
        ≡ lower before ++ (lower word ++ tail))
unfolding scanned_text
scanned-append before word rest b w l =
    let kept = take (scan_limit - length before - length word) rest in
    (
      lower (decode_utf_8 kept),
      ap (λ (t : Text). lower (decode_utf_8 t))
            (take-append scan_limit before (word ++ rest) (omega arith)
              ∙ ap (◌++◌ before) (take-append (scan_limit - length before) word rest (omega arith)))
          ∙ ap lower (decode-append_ascii before (word ++ kept) b)
          ∙ lower-append before (decode_utf_8 (word ++ kept))
          ∙ ap (◌++◌ (lower before))
              (ap lower (decode-append_ascii word kept w) ∙ lower-append word (decode_utf_8 kept)),
    )

-- A page with a challenge marker in it, in any mix of cases, behind any ASCII text and before any
-- bytes, is labelled a challenge whatever its status, if the marker ends within the scan limit.
pub classify-marker :
    (status i : ℕ) (before word rest : Text)
    → get_elem? captcha_markers i ≡ some (lower word)
    → All IsAscii before
    → All IsAscii word
    → length before + length word ≤ scan_limit
    → classify status (before ++ (word ++ rest)) ≡ captcha
unfolding classify has_marker
classify-marker status i before word rest e b w l =
    let (tail, scanned) = scanned-append before word rest b w l in
    let text = lower before ++ (lower word ++ tail) in
    let found : contains (lower word) text ≡ true =
      contains-append (lower word) (lower before) (lower word ++ tail)
        (contains_self (lower word) tail) in
    let caught =
      any_of-get_elem? (λ marker. contains marker text) captcha_markers i (lower word) e found in
    rw (scanned, caught)

-- A response is let by exactly if it has no challenge marker, a 2xx status and a body that is not
-- blank.
pub classify-ok_iff :
    (status : ℕ) (body : Text)
    → (classify status body ≡ ok)
      ↔ (has_marker (scanned_text body) ≡ false)
        × (200 ≤ status)
        × (status < 300)
        × (is_empty (strip_bytes body) ≡ false)
unfolding classify
classify-ok_iff status body =
    (λ e. (ground arith, ground arith, ground arith, ground arith), λ h. ground arith)

-- Every label but `ok` has a ban kind and an action, `ok` has neither, and no two labels share a
-- kind.
ban_kind_defined :
    (c d : Classification)
    → ((is_ban c ≡ true) ↔ (ban_kind c ≢ none))
      × ((is_ban c ≡ true) ↔ (recommended_action c ≢ none))
      × (ban_kind c ≡ ban_kind d → c ≡ d)
unfolding ban_kind recommended_action
ban_kind_defined c d = ground arith
