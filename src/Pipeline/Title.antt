-- ===== src/Pipeline/Title.antt =====
-- `normalize_title` of src/acquire_intel/pipeline/normalize.py: the words of a title, one space apart.
use acquire_intel.Prelude.{
  ℕ, ◌≡◌, refl, sym, ap, subst, ◌∙◌, true, false, ◌≢◌, List, [], ◌∷◌, ◌++◌, if◌then◌else◌, Text,
  is_space, is_empty, All, All-append, Bool-cases, inl, inr,
}
use acquire_intel.Pipeline.Price.{Result, raised, returned, empty_title}
use mathlib.Core.List.{append_assoc, append-nil}

-- A word that has ended, if it has letters.
abbrev finish : Text → List Text
finish [] = []
finish (c ∷ w) = (c ∷ w) ∷ []

-- `s.split()`, after the letters of an open word.
words_after : Text → Text → List Text
words_after word [] = finish word
words_after word (c ∷ s) = elim (is_space c) [
  | true ↦ finish word ++ words_after [] s
  | false ↦ words_after (word ++ c ∷ []) s
]

unfoldable pub split : Text → List Text
unfolding words_after
split s = words_after [] s

-- `" ".join(words)`
unfoldable pub join : List Text → Text
join [] = []
join (w ∷ []) = w
join (w ∷ v ∷ ws) = let rest = join (v ∷ ws) in w ++ 32 ∷ rest

abbrev checked_title : Text → Result Text
checked_title s = if is_empty s then raised empty_title else returned s

unfoldable pub normalize_title : Text → Result Text
unfolding split join
normalize_title title = checked_title (join (split title))

abbrev IsInk : ℕ → Type 0
IsInk c = is_space c ≡ false

-- A word has letters and no space.
abbrev IsWord : Text → Type 0
IsWord w = (is_empty w ≡ false) × All IsInk w

-- One step of the loop, after a letter and after a space.
letter_step :
    (w : Text) (c : ℕ) (s : Text)
    → is_space c ≡ false
    → words_after w (c ∷ s) ≡ words_after (w ++ c ∷ []) s
unfolding words_after
letter_step w c s e = rw (words_after, e) refl

space_step :
    (w : Text) (c : ℕ) (s : Text)
    → is_space c ≡ true
    → words_after w (c ∷ s) ≡ finish w ++ words_after [] s
unfolding words_after
space_step w c s e = rw (words_after, e) refl

words_after-ink : (w x s : Text) → All IsInk x → words_after w (x ++ s) ≡ words_after (w ++ x) s
words_after-ink w [] s h = ap (λ (t : Text). words_after t s) (sym (append-nil w))
words_after-ink w (c ∷ x) s h =
    letter_step w c (x ++ s) h.0
    ∙ words_after-ink (w ++ c ∷ []) x s h.1
    ∙ ap (λ (t : Text). words_after t s) (append_assoc w (c ∷ []) x)

finish-word : (w : Text) → IsWord w → finish w ≡ w ∷ []
finish-word [] h = cc
finish-word (c ∷ w) h = refl

finish-IsWord : (w : Text) → All IsInk w → All IsWord (finish w)
finish-IsWord [] h = tt
finish-IsWord (c ∷ w) h = ((refl, h), tt)

words_after-IsWord : (w s : Text) → All IsInk w → All IsWord (words_after w s)
unfolding words_after
words_after-IsWord w [] h = finish-IsWord w h
words_after-IsWord w (c ∷ s) h = elim (Bool-cases (is_space c)) [
  | inl e ↦ rw (space_step w c s e) (
      All-append IsWord (finish w) (words_after [] s) (finish-IsWord w h)
        (words_after-IsWord [] s tt))
  | inr e ↦
      rw (letter_step w c s e)
        (words_after-IsWord (w ++ c ∷ []) s (All-append IsInk w (c ∷ []) h (e, tt)))
]

words_after-space : (w s : Text) → words_after w (32 ∷ s) ≡ finish w ++ words_after [] s
unfolding words_after is_space
words_after-space w s = refl

split-join : (ws : List Text) → All IsWord ws → split (join ws) ≡ ws
unfolding split join words_after
split-join [] h = refl
split-join (w ∷ []) h =
    ap split (sym (append-nil w)) ∙ words_after-ink [] w [] h.0.1 ∙ finish-word w h.0
split-join (w ∷ v ∷ ws) h =
    words_after-ink [] w (32 ∷ join (v ∷ ws)) h.0.1
    ∙ words_after-space w (join (v ∷ ws))
    ∙ ap (λ (f : List Text). f ++ split (join (v ∷ ws))) (finish-word w h.0)
    ∙ ap (λ (f : List Text). w ∷ f) (split-join (v ∷ ws) h.1)

returned-injective : (t s : Text) → returned t ≡ returned s → t ≡ s
returned-injective t s e = cc

checked_title-same :
    (t s : Text)
    → join (split t) ≡ t
    → checked_title t ≡ returned s
    → (s ≢ []) × (normalize_title s ≡ returned s)
unfolding normalize_title
checked_title-same [] s same e = cc
checked_title-same (c ∷ t) s same e = (
  (λ z. cc),
  subst (λ (t : Text). normalize_title t ≡ returned t) (returned-injective (c ∷ t) s e)
      (ap checked_title same),
)

-- A title that has been normalized is not empty, and normalizing it again changes nothing.
pub normalize_title_idem :
    (title s : Text)
    → normalize_title title ≡ returned s
    → (s ≢ []) × (normalize_title s ≡ returned s)
unfolding normalize_title split
normalize_title_idem title s e =
    checked_title-same (join (split title)) s
      (ap join (split-join (split title) (words_after-IsWord [] title tt))) e
