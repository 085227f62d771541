-- ===== src/Telemetry/Cursor.antt =====
-- telemetry/query.py: the cursor of an activity page, a time and an identifier as one text. What the
-- standard library does with times, UUIDs and Base64 is a parameter; the bytes of UTF-8 are those of
-- the ASCII text that is encoded.
use route_llm.Prelude.{
  ℕ, zero, suc, ◌+◌, ◌-◌, ◌*◌, ◌/◌, ◌%◌, ◌≤◌, ◌<◌, ◌^◌, all, ◌≡◌, refl, sym, ap, ◌∙◌, subst, Bool,
  true, false, not, ◌||◌, Option, none, some, [], ◌∷◌, ◌++◌, ltb, ◌==◌, length, length-append,
  is_empty, if◌then◌else◌, arith, &&-true,
}
use mathlib.Core.List.{reverse, reverse-cons, reverse-append, reverse-reverse}
use route_llm.Prelude.Text.{Text}
use route_llm.Prelude.Text.Trimmed.{lacks}
use route_llm.Errors.{ok, err, invalid_activity_cursor}
use route_llm.Models.{Result}

-- The functions of the standard library; `fromisoformat` and `parse_uuid` give nothing where Python
-- raises a `ValueError`, and `decode` where Base64 or UTF-8 is malformed.
pub record Codec : Type 1 where
  pub Time : Type 0
  pub isoformat : Time → Text
  pub fromisoformat : Text → Option Time
  pub is_aware : Time → Bool
  pub is_utc : Time → Bool
  pub uuid_text : ℕ → Text
  pub parse_uuid : Text → Option ℕ
  pub encode : Text → Text
  pub decode : Text → Option Text

abbrev repeated : ℕ → ℕ → Text
repeated zero c = []
repeated (suc n) c = c ∷ repeated n c

abbrev pub is_ascii : Text → Bool
is_ascii = all (λ c. ltb c 128)

-- What is documented of them. A time in UTC is aware; its ISO text has at most 32 characters, with
-- microseconds and "+00:00", of ASCII and no bar, and is read again. A UUID is a number of 128 bits, of
-- which the 36 characters are read again. The UTF-8 of a text of ASCII is its characters, and Base64
-- fills up groups of four with "=".
pub record IsCodec (k : Codec) : Type 0 where
  pub time : (t : k.Time) → k.is_utc t ≡ true → k.fromisoformat (k.isoformat t) ≡ some t
  pub time_aware : (t : k.Time) → k.is_utc t ≡ true → k.is_aware t ≡ true
  pub time_length : (t : k.Time) → k.is_utc t ≡ true → length (k.isoformat t) ≤ 32
  pub time_bar : (t : k.Time) → k.is_utc t ≡ true → lacks 124 (k.isoformat t) ≡ true
  pub time_ascii : (t : k.Time) → k.is_utc t ≡ true → is_ascii (k.isoformat t) ≡ true
  pub uuid : (i : ℕ) → i < 2 ^ 128 → k.parse_uuid (k.uuid_text i) ≡ some i
  pub uuid_length : (i : ℕ) → i < 2 ^ 128 → length (k.uuid_text i) ≡ 36
  pub uuid_ascii : (i : ℕ) → i < 2 ^ 128 → is_ascii (k.uuid_text i) ≡ true
  pub decoded : (t : Text) → is_ascii t ≡ true → k.decode (k.encode t) ≡ some t
  pub padded :
      (t : Text)
      → is_ascii t ≡ true
      → (body : Text) × (n : ℕ) × (k.encode t ≡ body ++ repeated n 61)
        × (lacks 61 body ≡ true)
        × (n ≤ 2)
  pub size : (t : Text) → is_ascii t ≡ true → length (k.encode t) ≡ 4 * ((length t + 2) / 3)

-- `s.lstrip(c)` of one character, and `s.rstrip(c)`.
lstrip_of : ℕ → Text → Text
lstrip_of c [] = []
lstrip_of c (d ∷ ds) = let rest = lstrip_of c ds in if d == c then rest else d ∷ ds

unfoldable pub rstrip_of : ℕ → Text → Text
unfolding lstrip_of
rstrip_of c t = reverse (lstrip_of c (reverse t))

-- `a, b = s.split(c, 1)`
unfoldable pub split_once : ℕ → Text → Option (Text × Text)
split_once c [] = none
split_once c (d ∷ ds) =
    let rest = split_once c ds in
    if d == c then some ([], ds) else elim rest [ none ↦ none | some p ↦ some (d ∷ p.0, p.1) ]

module _ (k : Codec) where
  -- `encode_activity_cursor`
  unfoldable pub encode_activity_cursor : k.Time → ℕ → Text
  encode_activity_cursor t i = rstrip_of 61 (k.encode (k.isoformat t ++ (124 ∷ k.uuid_text i)))

  abbrev aware : k.Time → ℕ → Result (k.Time × ℕ)
  aware t i = if not (k.is_aware t) then err invalid_activity_cursor else ok (t, i)

  abbrev both : Option k.Time → Option ℕ → Result (k.Time × ℕ)
  both (some t) (some i) = aware t i
  both t i = err invalid_activity_cursor

  abbrev parts : Option (Text × Text) → Result (k.Time × ℕ)
  parts none = err invalid_activity_cursor
  parts (some (a, b)) = both (k.fromisoformat a) (k.parse_uuid b)

  abbrev read : Option Text → Result (k.Time × ℕ)
  read none = err invalid_activity_cursor
  read (some t) = parts (split_once 124 t)

  -- `"=" * (-len(cursor) % 4)`
  abbrev padding : Text → Text
  padding cursor = repeated ((4 - length cursor % 4) % 4) 61

  -- `decode_activity_cursor`
  unfoldable pub decode_activity_cursor : Text → Result (k.Time × ℕ)
  decode_activity_cursor cursor =
      if is_empty cursor || ltb 256 (length cursor)
      then err invalid_activity_cursor
      else read (k.decode (cursor ++ padding cursor))

length-repeated : (n c : ℕ) → length (repeated n c) ≡ n
length-repeated zero c = refl
length-repeated (suc n) c = omega (arith, length-repeated n c)

repeated-snoc : (n c : ℕ) → repeated n c ++ (c ∷ []) ≡ c ∷ repeated n c
repeated-snoc zero c = refl
repeated-snoc (suc n) c = ap (λ l. c ∷ l) (repeated-snoc n c)

reverse-repeated : (n c : ℕ) → reverse (repeated n c) ≡ repeated n c
reverse-repeated zero c = refl
reverse-repeated (suc n) c =
    reverse-cons c (repeated n c)
    ∙ ap (λ l. l ++ (c ∷ [])) (reverse-repeated n c)
    ∙ repeated-snoc n c

lacks-append : (c : ℕ) (a b : Text) → lacks c a ≡ true → lacks c b ≡ true → lacks c (a ++ b) ≡ true
lacks-append c [] b h k = k
lacks-append c (d ∷ a) b h k = ground (arith, lacks-append c a b)

lacks-one : (c d : ℕ) → not (d == c) ≡ true → lacks c (d ∷ []) ≡ true
lacks-one c d h = ground arith

lacks-reverse : (c : ℕ) (a : Text) → lacks c a ≡ true → lacks c (reverse a) ≡ true
lacks-reverse c [] h = refl
lacks-reverse c (d ∷ a) h =
    let (p, q) = &&-true (not (d == c)) (lacks c a) h in
    rw (reverse-cons d a)
      (lacks-append c (reverse a) (d ∷ []) (lacks-reverse c a q) (lacks-one c d p))

lstrip_of-lacks : (c : ℕ) (a : Text) → lacks c a ≡ true → lstrip_of c a ≡ a
unfolding lstrip_of
lstrip_of-lacks c [] h = refl
lstrip_of-lacks c (d ∷ a) h = ground arith

lstrip_of-repeated : (n c : ℕ) (t : Text) → lstrip_of c (repeated n c ++ t) ≡ lstrip_of c t
unfolding lstrip_of
lstrip_of-repeated zero c t = refl
lstrip_of-repeated (suc n) c t = ground (arith, lstrip_of-repeated n c t)

rstrip_of-repeated :
    (c : ℕ) (body : Text) (n : ℕ) → lacks c body ≡ true → rstrip_of c (body ++ repeated n c) ≡ body
unfolding rstrip_of
rstrip_of-repeated c body n h =
    ap (λ l. reverse (lstrip_of c l))
      (reverse-append body (repeated n c) ∙ ap (λ l. l ++ reverse body) (reverse-repeated n c))
    ∙ ap reverse (
        lstrip_of-repeated n c (reverse body)
        ∙ lstrip_of-lacks c (reverse body) (lacks-reverse c body h))
    ∙ reverse-reverse body

split_once-append :
    (c : ℕ) (a b : Text) → lacks c a ≡ true → split_once c (a ++ (c ∷ b)) ≡ some (a, b)
unfolding split_once
split_once-append c [] b h = ground arith
split_once-append c (d ∷ a) b h = ground (arith, split_once-append c a b)

not_empty : (t : Text) → 1 ≤ length t → is_empty t ≡ false
not_empty [] h = ground arith
not_empty (c ∷ cs) h = refl

not_longer : (n : ℕ) → n ≤ 256 → ltb 256 n ≡ false
not_longer n h = ground arith

is_ascii-append :
    (a b : Text) → is_ascii a ≡ true → is_ascii b ≡ true → is_ascii (a ++ (124 ∷ b)) ≡ true
is_ascii-append [] b h k = ground (arith, k)
is_ascii-append (c ∷ a) b h k = ground (arith, is_ascii-append a b)

module _ (k : Codec) (law : IsCodec k) (t : k.Time) (utc : k.is_utc t ≡ true) (i : ℕ)
    (bits : i < 2 ^ 128) where
  plain : Text
  plain = k.isoformat t ++ (124 ∷ k.uuid_text i)

  plain-is_ascii : is_ascii plain ≡ true
  unfolding plain
  plain-is_ascii =
      is_ascii-append (k.isoformat t) (k.uuid_text i) (law.time_ascii t utc) (law.uuid_ascii i bits)

  read-plain : read k (some plain) ≡ ok (t, i)
  unfolding plain
  read-plain =
      rw
        (
          split_once-append 124 (k.isoformat t) (k.uuid_text i) (law.time_bar t utc),
          law.time t utc,
          law.uuid i bits,
          law.time_aware t utc,
        )
        refl

  -- The padding that was stripped is put back.
  decode-body :
      (body : Text) (n : ℕ)
      → k.encode plain ≡ body ++ repeated n 61
      → lacks 61 body ≡ true
      → n ≤ 2
      → decode_activity_cursor k body ≡ ok (t, i)
  unfolding decode_activity_cursor plain
  decode-body body n e h b =
      let total : length body + n ≡ 4 * ((length plain + 2) / 3) =
        sym (length-append body (repeated n 61) ∙ ap (λ m. length body + m) (length-repeated n 61))
        ∙ ap length (sym e)
        ∙ law.size plain plain-is_ascii in
      let long : length plain ≡ length (k.isoformat t) + 37 =
        omega
          (arith, length-append (k.isoformat t) (124 ∷ k.uuid_text i), law.uuid_length i bits) in
      let filled : (4 - length body % 4) % 4 ≡ n = omega (arith, total, b) in
      let some_body : 1 ≤ length body = omega (arith, total, long, b) in
      let short : length body ≤ 256 = omega (arith, total, long, law.time_length t utc) in
      rw
        (
          not_empty body some_body,
          not_longer (length body) short,
          filled,
          sym e,
          law.decoded plain plain-is_ascii,
        )
        read-plain

  -- A cursor is read back as the time and the identifier it was made of: a time in UTC and a
  -- UUID of 128 bits.
  pub decode-encode_activity_cursor :
      decode_activity_cursor k (encode_activity_cursor k t i) ≡ ok (t, i)
  unfolding encode_activity_cursor plain
  decode-encode_activity_cursor =
      let (body, n, e, h, b) = law.padded plain plain-is_ascii in
      subst (λ c. decode_activity_cursor k c ≡ ok (t, i))
        (sym (ap (rstrip_of 61) e ∙ rstrip_of-repeated 61 body n h)) (decode-body body n e h b)
