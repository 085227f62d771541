-- ===== src/Validation/Depth.antt =====
-- `_too_deep` of validation/validator.py: the scan of the nesting before the text is parsed.
pub mod Nesting
use route_llm.Prelude.{ℕ, zero, suc, Bool, false, ◌||◌, [], ◌∷◌, ◌==◌, ltb, if◌then◌else◌}
use route_llm.Prelude.Int.{ℤ, pos, negsuc}
use route_llm.Prelude.Text.{Text}
use route_llm.Validation.Contract.{max_json_depth}

-- `depth` goes below zero where a text closes more than it opens.
abbrev pub increment : ℤ → ℤ
increment (pos n) = pos (suc n)
increment (negsuc zero) = pos 0
increment (negsuc (suc n)) = negsuc n

abbrev pub decrement : ℤ → ℤ
decrement (pos zero) = negsuc 0
decrement (pos (suc n)) = pos n
decrement (negsuc n) = negsuc (suc n)

abbrev pub exceeds : ℤ → Bool
exceeds (pos n) = ltb max_json_depth n
exceeds (negsuc n) = false

-- Where the scan stands: outside strings, inside one, or behind a backslash inside one.
pub data Mode : Type 0 where
  outside quoted escaped : Mode

abbrev pub is_open : ℕ → Bool
is_open c = c == b'[' || c == b'{'

abbrev pub is_close : ℕ → Bool
is_close c = c == b']' || c == b'}'

unfoldable pub scan : Mode → ℤ → Text → Bool
scan mode depth [] = false
scan quoted depth (c ∷ cs) =
    scan (if c == 92 then escaped else if c == 34 then outside else quoted) depth cs
scan escaped depth (c ∷ cs) = scan quoted depth cs
scan outside depth (c ∷ cs) =
    let opened = scan outside (increment depth) cs in
    let other =
      scan (if c == 34 then quoted else outside) (if is_close c then decrement depth else depth)
        cs in
    if is_open c then (exceeds (increment depth) || opened) else other

-- `_too_deep`
unfoldable pub too_deep : Text → Bool
unfolding scan
too_deep text = scan outside (pos 0) text
