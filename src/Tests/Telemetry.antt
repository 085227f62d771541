-- ===== src/Tests/Telemetry.antt =====
-- The activity pages over a codec that satisfies what is relied on: a time is one character, a UUID 36
-- digits to the base 64, and the encoding writes the length, the characters and "0"s.
use route_llm.Prelude.{
  ℕ, zero, suc, inl, inr, ltb, List, ◌<◌, ◌%◌, ◌^◌, ◌+◌, ◌-◌, ◌*◌, ◌/◌, ◌≡◌, refl, sym, ap, ◌∙◌,
  true, false, Option, none, some, [], ◌∷◌, ◌++◌, map, take, length, length-append, arith,
}
use mathlib.Core.List.{append-nil, Permᴰ}
use route_llm.Prelude.Text.{Text}
use route_llm.Prelude.Text.Trimmed.{lacks}
use route_llm.Errors.{ok}
use route_llm.Application.Activity.{ChatActivityRecord, direct, returned}
use route_llm.Telemetry.Cursor.{
  Codec, IsCodec, is_ascii, encode_activity_cursor, decode_activity_cursor,
  decode-encode_activity_cursor,
}
use route_llm.Telemetry.Pages.{Row, Database, pages, IsDescending}
use route_llm.Telemetry.Pages.Ordered.{IsKeyed}
use route_llm.Telemetry.Pages.Followed.{pages_all}

abbrev repeat : ℕ → ℕ → Text
repeat zero c = []
repeat (suc n) c = c ∷ repeat n c

abbrev time_of : Text → Option ℕ
time_of [] = none
time_of (c ∷ cs) = some (c - 48)

abbrev digits : ℕ → ℕ → Text
digits zero i = []
digits (suc n) i = (i % 64 + 48) ∷ digits n (i / 64)

abbrev number_of : Text → ℕ
number_of [] = 0
number_of (c ∷ cs) = (c - 48) + 64 * number_of cs

abbrev encoded : Text → Text
encoded [] = []
encoded (c ∷ cs) =
    (length (c ∷ cs) + 62) ∷ map (λ d. d + 62) (c ∷ cs)
    ++ repeat (4 * ((length (c ∷ cs) + 2) / 3) - (length (c ∷ cs) + 1)) 48

abbrev decoded : Text → Option Text
decoded [] = some []
decoded (m ∷ rest) = some (map (λ d. d - 62) (take (m - 62) rest))

abbrev codec : Codec
codec = record {
  Time = ℕ;
  isoformat = λ t. (t + 48) ∷ [];
  fromisoformat = time_of;
  is_aware = λ t. true;
  is_utc = λ t. ltb t 60;
  uuid_text = digits 36;
  parse_uuid = λ t. some (number_of t);
  encode = encoded;
  decode = decoded;
}

length-repeat : (n c : ℕ) → length (repeat n c) ≡ n
length-repeat zero c = refl
length-repeat (suc n) c = omega (arith, length-repeat n c)

length-map : (xs : Text) → length (map (λ d. d + 62) xs) ≡ length xs
length-map [] = refl
length-map (x ∷ xs) = omega (arith, length-map xs)

take-map : (xs ys : Text) → map (λ d. d - 62) (take (length xs) (map (λ d. d + 62) xs ++ ys)) ≡ xs
take-map [] ys = refl
take-map (x ∷ xs) ys = ground (arith, take-map xs ys)

lacks-rest : (xs : Text) (n : ℕ) → lacks 61 (map (λ d. d + 62) xs ++ repeat n 48) ≡ true
lacks-rest [] zero = refl
lacks-rest [] (suc n) = ground (arith, lacks-rest [] n)
lacks-rest (x ∷ xs) n = ground (arith, lacks-rest xs n)

decoded-encoded : (t : Text) → decoded (encoded t) ≡ some t
decoded-encoded [] = refl
decoded-encoded (c ∷ cs) =
    let rest : Text = repeat (4 * ((length (c ∷ cs) + 2) / 3) - (length (c ∷ cs) + 1)) 48 in
    let same : length (c ∷ cs) + 62 - 62 ≡ length (c ∷ cs) = omega arith in
    ap some (
      ap (λ m. map (λ d. d - 62) (take m (map (λ d. d + 62) (c ∷ cs) ++ rest))) same
      ∙ take-map (c ∷ cs) rest)

encoded-lacks : (t : Text) → lacks 61 (encoded t) ≡ true
encoded-lacks [] = refl
encoded-lacks (c ∷ cs) =
    ground (arith, lacks-rest (c ∷ cs) (4 * ((length (c ∷ cs) + 2) / 3) - (length (c ∷ cs) + 1)))

length-encoded : (t : Text) → length (encoded t) ≡ 4 * ((length t + 2) / 3)
length-encoded [] = refl
length-encoded (c ∷ cs) =
    let pad : ℕ = 4 * ((length (c ∷ cs) + 2) / 3) - (length (c ∷ cs) + 1) in
    omega (
      arith,
      length-append (map (λ d. d + 62) (c ∷ cs)) (repeat pad 48),
      length-map (c ∷ cs),
      length-repeat pad 48,
    )

back : (n : ℕ) → ◌≡◌ {A = Option ℕ} (some (n + 48 - 48)) (some n)
back n = ap some (omega arith)

number_of-digits : (n i : ℕ) → i < 64 ^ n → number_of (digits n i) ≡ i
number_of-digits zero i h = omega (arith, h)
number_of-digits (suc n) i h =
    let high : i / 64 < 64 ^ n = omega (arith, h) in omega (arith, number_of-digits n (i / 64) high)

length-digits : (n i : ℕ) → length (digits n i) ≡ n
length-digits zero i = refl
length-digits (suc n) i = ap suc (length-digits n (i / 64))

digits-is_ascii : (n i : ℕ) → is_ascii (digits n i) ≡ true
digits-is_ascii zero i = refl
digits-is_ascii (suc n) i = ground (arith, digits-is_ascii n (i / 64))

codec-IsCodec : IsCodec codec
codec-IsCodec = record {
  time = λ t h. back t;
  time_aware = λ t h. refl;
  time_length = λ t h. omega arith;
  time_bar = λ t h. ground (arith, h);
  time_ascii = λ t h. ground (arith, h);
  uuid = λ i h. ap some (number_of-digits 36 i (omega (arith, h)));
  uuid_length = λ i h. length-digits 36 i;
  uuid_ascii = λ i h. digits-is_ascii 36 i;
  decoded = λ t h. decoded-encoded t;
  padded = λ t h. (encoded t, 0, sym (append-nil (encoded t)), encoded-lacks t, omega arith);
  size = λ t h. length-encoded t;
}

decode-encode_activity_cursor_example :
    decode_activity_cursor codec (encode_activity_cursor codec 7 12) ≡ ok (7, 12)
decode-encode_activity_cursor_example =
    decode-encode_activity_cursor codec codec-IsCodec 7 refl 12 (omega arith)

abbrev activity : ChatActivityRecord
activity = record {
  request_id = 105 ∷ [];
  execution_mode = direct;
  category = none;
  is_manual_category = false;
  initial_model_id = none;
  final_model_id = none;
  provider = none;
  routing_threshold_satisfied = none;
  routing_fallback_used = none;
  attempt_count = some 1;
  escalated = none;
  validation_outcome = none;
  outcome = returned;
  error_category = none;
  input_tokens = none;
  output_tokens = none;
  latency_ms = none;
  estimated_cost_usd = none;
  cost_complete = true;
}

abbrev row : ℕ → ℕ → Row codec
row t i = record { created_at = t; instant = t; id = i; activity = activity }

-- Two rows of one instant and an older one, in no order.
abbrev table : List (Row codec)
table = row 9 1 ∷ row 4 7 ∷ row 9 2 ∷ []

abbrev database : Database codec
database = record { instant_of = λ t. t; rows = table }

table-IsKeyed : IsKeyed codec table
table-IsKeyed = ((inl refl, (inr refl, tt)), ((inr refl, tt), (tt, tt)))

pages_all_example :
    (read : List (Row codec)) × (pages codec 4 database 2 none ≡ ok read)
    × IsDescending codec read
    × Permᴰ table read
pages_all_example =
    pages_all codec codec-IsCodec database table-IsKeyed
      ((refl, refl, omega arith), ((refl, refl, omega arith), ((refl, refl, omega arith), tt))) 1
