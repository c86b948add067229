-- ===== src/Api/Limits.antt =====
-- `_parse_limit` of src/acquire_intel/api/products.py and deals.py. Python's `int(text)` is a parameter;
-- `none` is its ValueError.
use acquire_intel.Prelude.{
  ℕ, ◌≤◌, ◌≡◌, refl, min, max, Option, none, some, Text, codes, ℤ, pos, negsuc, arith,
}
use acquire_intel.Api.Problems.{Problem, problem}

-- A result, or the problem that is raised.
pub data Parsed (A : Type 0) : Type 0 where
  refused : Problem → Parsed A
  parsed : A → Parsed A

-- max(low, min(high, value))
abbrev pub clamp : ℕ → ℕ → ℤ → ℕ
clamp low high (pos n) = max low (min high n)
clamp low high (negsuc n) = low

abbrev pub invalid_limit : Problem
invalid_limit = problem 400 (codes "Invalid limit") (codes "limit must be an integer")

abbrev pub clamped : ℕ → ℕ → Option ℤ → Parsed ℕ
clamped low high none = refused invalid_limit
clamped low high (some value) = parsed (clamp low high value)

abbrev pub Within : ℕ → ℕ → Parsed ℕ → Type 0
Within low high (refused p) = p ≡ invalid_limit
Within low high (parsed n) = (low ≤ n) × (n ≤ high)

clamped-Within :
    (low high : ℕ) (value : Option ℤ) → low ≤ high → Within low high (clamped low high value)
clamped-Within low high none h = refl
clamped-Within low high (some (pos n)) h = (omega arith, omega arith)
clamped-Within low high (some (negsuc n)) h = (omega arith, h)

module _ (int_of : Text → Option ℤ) where
  -- `_parse_limit` with its three constants.
  unfoldable pub parse_limit : ℕ → ℕ → ℕ → Option Text → Parsed ℕ
  parse_limit default low high none = parsed default
  parse_limit default low high (some raw) = clamped low high (int_of raw)

  -- A limit that is parsed lies within the bounds, if they and the default are in order, and one
  -- that is not is refused as invalid.
  pub parse_limit-Within :
      (default low high : ℕ) (raw : Option Text)
      → low ≤ default
      → default ≤ high
      → Within low high (parse_limit default low high raw)
  unfolding parse_limit
  parse_limit-Within default low high none l h = (l, h)
  parse_limit-Within default low high (some raw) l h =
      clamped-Within low high (int_of raw) (omega arith)
