-- ===== src/Validation/Json.antt =====
-- The JSON documents that the validator reads, and the hooks and type tests of
-- validation/validator.py. What `json.loads` makes of a text before the hooks see it is a parameter
-- of `Validator`.
pub mod Standard
use route_llm.Prelude.{
  ◌%◌, Bool, true, false, not, ◌&&◌, Option, none, some, List, [], ◌∷◌, ◌==◌, if◌then◌else◌,
}
use route_llm.Prelude.Text.{Text, text_eq, member}
use route_llm.Decimal.{Decimal, denominator}
use route_llm.Validation.Contract.{JsonType}

-- A number is a decimal with its sign; `constant` is `NaN`, `Infinity` or `-Infinity`. An object is
-- the list of its pairs as they stand in the text.
mutual
  pub data Json : Type 0 where
    null : Json
    boolean : Bool → Json
    number : Bool → Decimal → Json
    string : Text → Json
    constant : Text → Json
    array : Items → Json
    object : Fields → Json

  pub data Items : Type 0 where
    nil : Items
    cons : Json → Items → Items

  pub data Fields : Type 0 where
    end : Fields
    field : Text → Json → Fields → Fields

-- `_pairs`: true where no key repeats. The first argument holds the keys read so far.
unfoldable pub pairs : List Text → Fields → Bool
pairs seen end = true
pairs seen (field key value rest) = not (member key seen) && pairs (key ∷ seen) rest

-- The hooks `_pairs` and `_constant` at every level: true where none of them raises. A document
-- that they accept is its own value, since no pair was dropped.
unfoldable mutual
  pub accepted : Json → Bool
  accepted null = true
  accepted (boolean b) = true
  accepted (number s d) = true
  accepted (string t) = true
  accepted (constant t) = false
  accepted (array xs) = accepted_items xs
  accepted (object fs) = accepted_fields fs && pairs [] fs

  pub accepted_items : Items → Bool
  accepted_items nil = true
  accepted_items (cons x xs) = accepted x && accepted_items xs

  pub accepted_fields : Fields → Bool
  accepted_fields end = true
  accepted_fields (field k v fs) = accepted v && accepted_fields fs

-- `value[key]`
unfoldable pub get_field : Text → Fields → Option Json
get_field key end = none
get_field key (field k v rest) = if text_eq k key then some v else get_field key rest

-- `value == value.to_integral_value()`
abbrev integral : Decimal → Bool
integral d = d.coefficient % denominator d == 0

-- `_matches`
unfoldable pub matches : Json → JsonType → Bool
matches (object fs) JsonType.object = true
matches (array xs) JsonType.array = true
matches (string t) JsonType.string = true
matches (number s d) JsonType.number = true
matches (number s d) JsonType.integer = integral d
matches (boolean b) JsonType.boolean = true
matches null JsonType.null = true
matches _ _ = false

-- What `json.loads` does with a text, before the hooks: a document, an exception that the validator
-- catches (`ValueError`, `ArithmeticError`, `RecursionError`), or any other exception.
pub data Parsed : Type 0 where
  document : Json → Parsed
  rejected : Parsed
  crashed : Parsed
