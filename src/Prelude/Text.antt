-- ===== src/Prelude/Text.antt =====
-- Texts as lists of code points, with the operations of Python's `str` that the code calls.
pub mod Trimmed
use Prim.Native.Nat.{ℕ}
use Prim.Native.Char.{code}
use Prim.Native.String.{String}
use mathlib.Core.Path.{◌≡◌, refl}
use mathlib.Core.Logic.{◌↔◌}
use mathlib.Core.Bool.{Bool, true, false, not, ◌&&◌, ◌||◌}
use mathlib.Core.List.{List, [], ◌∷◌, ◌++◌, reverse, map}
use native.Mathlib.Omega.{arith}
use route_llm.Prelude.Tests.{leb, ltb, ◌==◌, if◌then◌else◌}
use route_llm.Prelude.Lists.{length, any, is_empty}
use route_llm.Prelude.Order.{IsOrder}

abbrev pub Text : Type 0
Text = List ℕ

-- A literal.
abbrev pub codes : String → Text
codes String.[] = []
codes (String.◌∷◌ c s) = code c ∷ codes s

-- `a == b`
unfoldable pub text_eq : Text → Text → Bool
text_eq [] [] = true
text_eq (a ∷ us) (b ∷ vs) = a == b && text_eq us vs
text_eq _ _ = false

-- `a <= b`, by code points.
unfoldable pub text_le : Text → Text → Bool
text_le [] b = true
text_le (a ∷ us) [] = false
text_le (a ∷ us) (b ∷ vs) = if a == b then text_le us vs else ltb a b

-- `str.isspace` of one character.
unfoldable pub is_space : ℕ → Bool
is_space c =
    (leb 9 c && leb c 13)
    || (leb 28 c && leb c 32)
    || c == 0x85
    || c == 0xa0
    || c == 0x1680
    || (leb 0x2000 c && leb c 0x200a)
    || c == 0x2028
    || c == 0x2029
    || c == 0x202f
    || c == 0x205f
    || c == 0x3000

lstrip : Text → Text
lstrip [] = []
lstrip (c ∷ ws) = if is_space c then lstrip ws else c ∷ ws

-- `s.strip()`
unfoldable pub strip : Text → Text
unfolding lstrip is_space
strip s = reverse (lstrip (reverse (lstrip s)))

-- the word that is being read, backwards, and the rest
words_from : Text → Text → List Text
words_from word [] = if is_empty word then [] else reverse word ∷ []
words_from word (c ∷ ws) =
    let rest = words_from [] ws in
    let more = words_from (c ∷ word) ws in
    if is_space c then (if is_empty word then rest else reverse word ∷ rest) else more

-- `s.split()`
unfoldable pub split : Text → List Text
unfolding words_from is_space
split s = words_from [] s

-- `s.split(sep)`, for a separator of one character; there is always a first part.
split_from : ℕ → Text → Text → List Text
split_from sep part [] = reverse part ∷ []
split_from sep part (c ∷ ws) =
    let next = split_from sep [] ws in
    let more = split_from sep (c ∷ part) ws in if c == sep then reverse part ∷ next else more

unfoldable pub split_on : ℕ → Text → List Text
unfolding split_from
split_on sep s = split_from sep [] s

-- `sep.join(parts)`
abbrev pub join_with : ℕ → List Text → Text
join_with sep [] = []
join_with sep (t ∷ []) = t
join_with sep (t ∷ u ∷ more) = t ++ (sep ∷ join_with sep (u ∷ more))

-- `a in texts`
abbrev pub member : Text → List Text → Bool
member a = any (text_eq a)

-- `len(set(xs)) == len(xs)`
abbrev pub all_distinct : List Text → Bool
all_distinct [] = true
all_distinct (x ∷ xs) = not (member x xs) && all_distinct xs

pub text_eq_iff : (a b : Text) → (text_eq a b ≡ true) ↔ (a ≡ b)
unfolding text_eq
text_eq_iff [] [] = ground arith
text_eq_iff [] (b ∷ vs) = ground arith
text_eq_iff (a ∷ us) [] = ground arith
text_eq_iff (a ∷ us) (b ∷ vs) = ground (arith, text_eq_iff us vs)

pub text_eq_refl : (a : Text) → text_eq a a ≡ true
text_eq_refl a = (text_eq_iff a a).1 refl

text_le_total : (a b : Text) → text_le a b ≡ false → text_le b a ≡ true
unfolding text_le
text_le_total [] b h = ground arith
text_le_total (a ∷ us) [] h = refl
text_le_total (a ∷ us) (b ∷ vs) h = ground (arith, text_le_total us vs)

text_le_trans : (a b c : Text) → text_le a b ≡ true → text_le b c ≡ true → text_le a c ≡ true
unfolding text_le
text_le_trans [] b c h k = refl
text_le_trans (a ∷ us) [] c h k = ground arith
text_le_trans (a ∷ us) (b ∷ vs) [] h k = k
text_le_trans (a ∷ us) (b ∷ vs) (c ∷ ws) h k = ground (arith, text_le_trans us vs ws)

pub text_le-IsOrder : IsOrder text_le
text_le-IsOrder = record { total = text_le_total; trans = text_le_trans }

pub text_le_antisym : (a b : Text) → text_le a b ≡ true → text_le b a ≡ true → a ≡ b
unfolding text_le
text_le_antisym [] [] h k = refl
text_le_antisym [] (b ∷ vs) h k = ground arith
text_le_antisym (a ∷ us) [] h k = ground arith
text_le_antisym (a ∷ us) (b ∷ vs) h k = ground (arith, text_le_antisym us vs)

words_from-append :
    (word xs ys : Text) → words_from word (xs ++ (32 ∷ ys)) ≡ words_from word xs ++ words_from [] ys
unfolding words_from is_space
words_from-append word [] ys = ground arith
words_from-append word (c ∷ xs) ys =
    ground (arith, words_from-append [] xs ys, words_from-append (c ∷ word) xs ys)

-- What `split` makes of two texts that are joined by a space.
pub split-append : (xs ys : Text) → split (xs ++ (32 ∷ ys)) ≡ split xs ++ split ys
unfolding split
split-append xs ys = words_from-append [] xs ys

pub strip-nil : strip [] ≡ []
unfolding strip
strip-nil = refl

split_test : map length (split (codes "  a bcd  e ")) ≡ 1 ∷ 3 ∷ 1 ∷ []
unfolding split
split_test = refl

strip_test : strip (codes "  a b ") ≡ codes "a b"
unfolding strip
strip_test = refl
