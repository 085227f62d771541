-- ===== src/Providers/Body.antt =====
-- What `response.json()` of the HTTP client returns: the values of Python's `json` module. A key that
-- repeats has its last value already, so a dict is the list of its items.
use route_llm.Prelude.{
  ℕ, Bool, true, false, not, ◌&&◌, ◌||◌, Option, none, some, [], ◌∷◌, any, all, leb, ltb, ◌==◌,
  length, is_empty, if◌then◌else◌,
}
use route_llm.Prelude.Int.{ℤ, pos, negsuc}
use route_llm.Prelude.Text.{Text, codes, text_eq}

-- Of a float only its truth value is seen.
mutual
  pub data Value : Type 0 where
    null : Value
    boolean : Bool → Value
    integer : ℤ → Value
    floating : Bool → Value
    string : Text → Value
    array : Items → Value
    object : Fields → Value

  pub data Items : Type 0 where
    nil : Items
    cons : Value → Items → Items

  pub data Fields : Type 0 where
    end : Fields
    field : Text → Value → Fields → Fields

-- `d.get(key)`; a missing key is `None`.
unfoldable pub get : Text → Fields → Value
get key end = null
get key (field k v rest) = if text_eq k key then v else get key rest

-- `d[key]`
unfoldable pub item : Text → Fields → Option Value
item key end = none
item key (field k v rest) = if text_eq k key then some v else item key rest

-- `bool(value)`
abbrev pub truth : Value → Bool
truth null = false
truth (boolean b) = b
truth (integer (pos n)) = ltb 0 n
truth (integer (negsuc n)) = true
truth (floating b) = b
truth (string t) = not (is_empty t)
truth (array nil) = false
truth (array (cons x xs)) = true
truth (object end) = false
truth (object (field k v rest)) = true

-- `a or b`
abbrev pub or : Value → Value → Value
or a b = if truth a then a else b

-- `value[key]` of a value of any type, for a text as key; nothing where it raises.
abbrev pub subscript : Text → Value → Option Value
subscript key (object fs) = item key fs
subscript key v = none

-- `value[0]`; the keys of a dict are texts.
abbrev pub first : Value → Option Value
first (array (cons x xs)) = some x
first (string (c ∷ cs)) = some (string (c ∷ []))
first v = none

abbrev is_alphanumeric : ℕ → Bool
is_alphanumeric c = (leb 65 c && leb c 90) || (leb 97 c && leb c 122) || (leb 48 c && leb c 57)

-- One of `A-Za-z0-9._:/-`.
abbrev is_safe_character : ℕ → Bool
is_safe_character c = is_alphanumeric c || any (λ d. c == d) (codes "._:/-")

-- The pattern of a value that may be kept, with at most `n` characters behind the first.
unfoldable pub is_safe : ℕ → Text → Bool
is_safe n [] = false
is_safe n (c ∷ cs) = is_alphanumeric c && all is_safe_character cs && leb (length cs) n

-- `_safe_value`
unfoldable pub safe_value : Value → Option Text
safe_value (string t) = if is_safe 255 t then some t else none
safe_value v = none
