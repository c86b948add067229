-- ===== src/Acquisition/Sources/Json.antt =====
-- What `response.json()` hands to the extractors of src/acquire_intel/acquisition/sources/: the values
-- of Python's json module, and `bool`, `str` and `dict.get` on them. A float is the text that `str`
-- prints for it and whether it is other than 0; a dict has each key once.
use acquire_intel.Prelude.{
  ◌+◌, Bool, true, false, not, List, [], ◌∷◌, ◌++◌, if◌then◌else◌, Text, codes, eqb, show, is_empty,
  ℤ, pos, negsuc, ◌==◌,
}

mutual
  pub data Json : Type 0 where
    null : Json
    bool : Bool → Json
    int : ℤ → Json
    float : (repr : Text) (nonzero : Bool) → Json
    string : Text → Json
    array : Items → Json
    object : Fields → Json

  pub data Items : Type 0 where
    nil : Items
    cons : Json → Items → Items

  pub data Fields : Type 0 where
    end : Fields
    field : (key : Text) → Json → Fields → Fields

-- d.get(key, default)
unfoldable pub get_or : Json → Fields → Text → Json
get_or default end key = default
get_or default (field k j d) key = let rest = get_or default d key in if eqb k key then j else rest

-- d.get(key)
unfoldable pub get : Fields → Text → Json
unfolding get_or
get d key = get_or null d key

-- The entries of a list that are dicts.
unfoldable pub dicts : Items → List Fields
dicts nil = []
dicts (cons (object d) xs) = d ∷ dicts xs
dicts (cons null xs) = dicts xs
dicts (cons (bool b) xs) = dicts xs
dicts (cons (int n) xs) = dicts xs
dicts (cons (float r z) xs) = dicts xs
dicts (cons (string s) xs) = dicts xs
dicts (cons (array ys) xs) = dicts xs

-- bool(value)
abbrev pub truthy : Json → Bool
truthy null = false
truthy (bool b) = b
truthy (int (pos n)) = not (n == 0)
truthy (int (negsuc n)) = true
truthy (float repr nonzero) = nonzero
truthy (string s) = not (is_empty s)
truthy (array nil) = false
truthy (array (cons x xs)) = true
truthy (object end) = false
truthy (object (field k j d)) = true

abbrev show_int : ℤ → Text
show_int (pos n) = show n
show_int (negsuc n) = codes "-" ++ show (n + 1)

abbrev show_bool : Bool → Text
show_bool true = codes "True"
show_bool false = codes "False"

-- `repr(value)`. Which characters of a string it escapes is for Unicode to say: `quoted` prints one.
module _ (quoted : Text → Text) where
  unfoldable mutual
    pub repr : Json → Text
    repr null = codes "None"
    repr (bool b) = show_bool b
    repr (int n) = show_int n
    repr (float shown nonzero) = shown
    repr (string s) = quoted s
    repr (array xs) = codes "[" ++ repr_items xs
    repr (object d) = codes "{" ++ repr_fields d

    repr_items : Items → Text
    repr_items nil = codes "]"
    repr_items (cons x xs) = repr x ++ after_item xs

    after_item : Items → Text
    after_item nil = codes "]"
    after_item (cons x xs) = codes ", " ++ repr x ++ after_item xs

    repr_fields : Fields → Text
    repr_fields end = codes "}"
    repr_fields (field k j d) = quoted k ++ codes ": " ++ repr j ++ after_field d

    after_field : Fields → Text
    after_field end = codes "}"
    after_field (field k j d) = codes ", " ++ quoted k ++ codes ": " ++ repr j ++ after_field d

  -- `str(value)`, which only differs on a string.
  unfoldable pub str : Json → Text
  unfolding repr
  str (string s) = s
  str null = repr null
  str (bool b) = repr (bool b)
  str (int n) = repr (int n)
  str (float shown nonzero) = shown
  str (array xs) = repr (array xs)
  str (object d) = repr (object d)
