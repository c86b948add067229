-- ===== src/Prelude/Texts.antt =====
-- Python's `str` and `bytes` as the list of their code points or bytes, and the methods that the
-- program calls. Case and space are those of ASCII unless a definition says otherwise.
use Prim.Native.Nat.{ℕ}
use Prim.Native.Char.{code}
use Prim.Native.String.{String}
use mathlib.Core.Path.{◌≡◌, refl}
use mathlib.Core.Logic.{◌↔◌}
use mathlib.Core.Bool.{Bool, true, false, ◌&&◌, ◌||◌}
use mathlib.Core.List.{List, [], ◌∷◌, reverse}
use native.Mathlib.Omega.{arith}
use acquire_intel.Prelude.Tests.{leb, ◌==◌, if◌then◌else◌}
use acquire_intel.Prelude.Lists.{is_empty}

abbrev pub Text : Type 0
Text = List ℕ

-- A literal.
abbrev pub codes : String → Text
codes String.[] = []
codes (String.◌∷◌ c s) = code c ∷ codes s

-- `s == t`
unfoldable pub eqb : Text → Text → Bool
eqb [] [] = true
eqb (x ∷ s) (y ∷ t) = (x == y) && eqb s t
eqb _ _ = false

eq_of_eqb : (s t : Text) → eqb s t ≡ true → s ≡ t
unfolding eqb
eq_of_eqb [] [] h = refl
eq_of_eqb [] (y ∷ t) h = cc
eq_of_eqb (x ∷ s) [] h = cc
eq_of_eqb (x ∷ s) (y ∷ t) h = ground (arith, eq_of_eqb s t)

pub eqb_refl : (s : Text) → eqb s s ≡ true
unfolding eqb
eqb_refl [] = refl
eqb_refl (x ∷ s) = ground (arith, eqb_refl s)

pub eqb_iff : (s t : Text) → (eqb s t ≡ true) ↔ (s ≡ t)
eqb_iff s t = (eq_of_eqb s t, λ e. rw e (eqb_refl t))

-- The white space of `bytes.strip()`.
unfoldable pub is_blank : ℕ → Bool
is_blank c = c == 32 || (leb 9 c && leb c 13)

-- The white space of `str.strip()` and `str.split()`: `str.isspace` of one character.
unfoldable pub is_space : ℕ → Bool
unfolding is_blank
is_space c =
    is_blank c
    || ((leb 28 c && leb c 31)
        || (c == 0x85
            || (c == 0xA0
                || (c == 0x1680
                    || ((leb 0x2000 c && leb c 0x200A)
                        || (c == 0x2028
                            || (c == 0x2029 || (c == 0x202F || (c == 0x205F || c == 0x3000)))))))))

unfoldable pub lstrip_by : (ℕ → Bool) → Text → Text
lstrip_by blank [] = []
lstrip_by blank (c ∷ s) = let rest = lstrip_by blank s in if blank c then rest else c ∷ s

unfoldable pub strip_by : (ℕ → Bool) → Text → Text
unfolding lstrip_by
strip_by blank s = reverse (lstrip_by blank (reverse (lstrip_by blank s)))

-- `s.strip()` of a `str`, and of a `bytes`.
unfoldable pub strip : Text → Text
unfolding strip_by is_space
strip = strip_by is_space

unfoldable pub strip_bytes : Text → Text
unfolding strip_by is_blank
strip_bytes = strip_by is_blank

-- `s.startswith(prefix)`
unfoldable pub starts_with : Text → Text → Bool
starts_with s [] = true
starts_with [] (p ∷ ps) = false
starts_with (c ∷ s) (p ∷ ps) = (c == p) && starts_with s ps

-- `needle in haystack`
unfoldable pub contains : Text → Text → Bool
unfolding starts_with
contains needle [] = is_empty needle
contains needle (c ∷ s) = starts_with (c ∷ s) needle || contains needle s
