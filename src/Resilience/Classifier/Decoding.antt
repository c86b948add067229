-- ===== src/Resilience/Classifier/Decoding.antt =====
-- `bytes.decode("utf-8", "ignore")` and `str.lower`, which the classifier calls.
use acquire_intel.Prelude.{
  ℕ, ◌+◌, ◌-◌, ◌*◌, ◌&&◌, Option, none, some, [], ◌∷◌, ◌++◌, leb, ltb, ◌==◌, ◌<◌, if◌then◌else◌,
  Text,
}

-- A sequence under way: the bytes still due, the range of the next one, and the value so far.
pub record Pending : Type 0 where
  pub due : ℕ
  pub low : ℕ
  pub high : ℕ
  pub value : ℕ

abbrev pending : ℕ → ℕ → ℕ → ℕ → Option Pending
pending due low high value = some (record { due = due; low = low; high = high; value = value })

-- What a byte does where no sequence is under way: it is a character, opens a sequence, or is
-- ignored. The ranges leave out overlong forms, surrogates and what is past U+10FFFF.
lead : ℕ → Text × Option Pending
lead b =
    if ltb b 0x80
    then (b ∷ [], none)
    else if ltb b 0xC2
    then ([], none)
    else if ltb b 0xE0
    then ([], pending 1 0x80 0xBF (b - 0xC0))
    else if b == 0xE0
    then ([], pending 2 0xA0 0xBF 0)
    else if b == 0xED
    then ([], pending 2 0x80 0x9F 0xD)
    else if ltb b 0xF0
    then ([], pending 2 0x80 0xBF (b - 0xE0))
    else if b == 0xF0
    then ([], pending 3 0x90 0xBF 0)
    else if ltb b 0xF4
    then ([], pending 3 0x80 0xBF (b - 0xF0))
    else if b == 0xF4
    then ([], pending 3 0x80 0x8F 4)
    else ([], none)

continued : ℕ → Pending → Text × Option Pending
continued b p =
    let value = p.value * 64 + (b - 0x80) in
    if p.due == 1 then (value ∷ [], none) else ([], pending (p.due - 1) 0x80 0xBF value)

-- A byte out of range ends the sequence, which is ignored, and is read again as a first byte.
unfoldable pub next : Option Pending → ℕ → Text × Option Pending
unfolding lead continued
next none b = lead b
next (some p) b = if leb p.low b && leb b p.high then continued b p else lead b

unfoldable pub decode_from : Option Pending → Text → Text
unfolding next
decode_from p [] = []
decode_from p (b ∷ bytes) = let (out, p') = next p b in out ++ decode_from p' bytes

unfoldable pub decode_utf_8 : Text → Text
unfolding decode_from
decode_utf_8 = decode_from none

-- The lower case of one character. Beyond ASCII only the two characters are changed whose lower
-- case has an ASCII letter in it (U+0130 and U+212A): no other matters to an ASCII marker.
lower_char : ℕ → Text
lower_char c =
    if leb b'A' c && leb c b'Z'
    then (c + 32) ∷ []
    else if c == 0x130
    then b'i' ∷ 0x307 ∷ []
    else if c == 0x212A
    then b'k' ∷ []
    else c ∷ []

unfoldable pub lower : Text → Text
unfolding lower_char
lower [] = []
lower (c ∷ s) = lower_char c ++ lower s

-- ASCII bytes stand for themselves.
abbrev pub IsAscii : ℕ → Type 0
IsAscii b = b < 0x80
