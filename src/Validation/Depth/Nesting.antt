-- ===== src/Validation/Depth/Nesting.antt =====
-- What the scan of validation/validator.py finds, described by the brackets outside strings.
use route_llm.Prelude.{
  ℕ, zero, suc, ◌+◌, ◌≤◌, ◌≡◌, ◌↔◌, refl, inl, inr, Bool, true, false, ◌||◌, [], ◌∷◌, take, ◌==◌,
  if◌then◌else◌, arith, Bool-cases,
}
use route_llm.Prelude.Int.{ℤ, pos, negsuc}
use route_llm.Prelude.Text.{Text}
use route_llm.Validation.Depth.{
  increment, decrement, exceeds, Mode, outside, quoted, escaped, is_open, is_close, scan, too_deep,
}

-- A text without the strings in it: from a quote to the next one that no backslash precedes.
abbrev pub unquoted : Mode → Text → Text
unquoted mode [] = []
unquoted quoted (c ∷ cs) =
    unquoted (if c == 92 then escaped else if c == 34 then outside else quoted) cs
unquoted escaped (c ∷ cs) = unquoted quoted cs
unquoted outside (c ∷ cs) =
    let inside = unquoted quoted cs in
    let rest = unquoted outside cs in if c == 34 then inside else c ∷ rest

abbrev pub opens : Text → ℕ
opens [] = 0
opens (c ∷ cs) = let rest = opens cs in if c == b'[' || c == b'{' then suc rest else rest

abbrev pub closes : Text → ℕ
closes [] = 0
closes (c ∷ cs) = let rest = closes cs in if c == b']' || c == b'}' then suc rest else rest

-- No part at the start of the text has more than 32 brackets open.
abbrev pub IsShallow : Text → Type 0
IsShallow t =
    (n : ℕ) → opens (unquoted outside (take n t)) ≤ 32 + closes (unquoted outside (take n t))

-- The depth is what was opened less what was closed.
abbrev IsDiff : ℤ → ℕ → ℕ → Type 0
IsDiff (pos n) a b = a ≡ n + b
IsDiff (negsuc n) a b = b ≡ suc n + a

increment-IsDiff : (d : ℤ) (a b : ℕ) → IsDiff d a b → IsDiff (increment d) (suc a) b
increment-IsDiff (pos n) a b h = omega (arith, h)
increment-IsDiff (negsuc zero) a b h = omega (arith, h)
increment-IsDiff (negsuc (suc n)) a b h = omega (arith, h)

decrement-IsDiff : (d : ℤ) (a b : ℕ) → IsDiff d a b → IsDiff (decrement d) a (suc b)
decrement-IsDiff (pos zero) a b h = omega (arith, h)
decrement-IsDiff (pos (suc n)) a b h = omega (arith, h)
decrement-IsDiff (negsuc n) a b h = omega (arith, h)

exceeds_iff : (d : ℤ) (a b : ℕ) → IsDiff d a b → (exceeds d ≡ false) ↔ (a ≤ 32 + b)
exceeds_iff (pos n) a b h = (λ e. ground (arith, h, e), λ e. ground (arith, h, e))
exceeds_iff (negsuc n) a b h = (λ e. omega (arith, h), λ e. refl)

quote-no_bracket : (c : ℕ) → (c == 34) ≡ true → (is_open c ≡ false) × (is_close c ≡ false)
quote-no_bracket c h = (ground arith, ground arith)

open-not_close : (c : ℕ) → is_open c ≡ true → is_close c ≡ false
open-not_close c h = ground arith

-- Never more than 32 open, of `a` opened and `b` closed before.
abbrev Within : Mode → ℕ → ℕ → Text → Type 0
Within mode a b t =
    (n : ℕ) → a + opens (unquoted mode (take n t)) ≤ 32 + (b + closes (unquoted mode (take n t)))

scan-Within :
    (t : Text) (mode : Mode) (d : ℤ) (a b : ℕ)
    → IsDiff d a b
    → a ≤ 32 + b
    → scan mode d t ≡ false
    → Within mode a b t
unfolding scan
scan-Within t mode d a b i l h zero = omega (arith, l)
scan-Within [] mode d a b i l h (suc n) = omega (arith, l)
scan-Within (c ∷ cs) quoted d a b i l h (suc n) = scan-Within cs _ d a b i l h n
scan-Within (c ∷ cs) escaped d a b i l h (suc n) = scan-Within cs quoted d a b i l h n
scan-Within (c ∷ cs) outside d a b i l h (suc n) = elim (Bool-cases (c == 34)) [
  | inl q ↦
      let (o, k) = quote-no_bracket c q in
      rw q (scan-Within cs quoted d a b i l (rw (o, k, q) at h) n)
  | inr q ↦ elim (Bool-cases (is_open c)) [
    | inl o ↦
        let k = open-not_close c o in
        let (e, f) = or-false (exceeds (increment d)) _ (rw o at h) in
        let j = increment-IsDiff d a b i in
        let more =
          scan-Within cs outside (increment d) (suc a) b j ((exceeds_iff _ _ _ j).0 e) f n in
        rw (q, o, k) (omega (arith, more))
    | inr o ↦ elim (Bool-cases (is_close c)) [
      | inl k ↦
          let more =
            scan-Within cs outside (decrement d) a (suc b) (decrement-IsDiff d a b i)
              (omega (arith, l)) (rw (o, k, q) at h) n in
          rw (q, o, k) (omega (arith, more))
      | inr k ↦ rw (q, o, k) (scan-Within cs outside d a b i l (rw (o, k, q) at h) n)
    ]
  ]
]
  where
    or-false : (x y : Bool) → (x || y) ≡ false → (x ≡ false) × (y ≡ false)
    or-false x y e = (ground (arith, e), ground (arith, e))

Within-scan :
    (t : Text) (mode : Mode) (d : ℤ) (a b : ℕ)
    → IsDiff d a b
    → Within mode a b t
    → scan mode d t ≡ false
unfolding scan
Within-scan [] mode d a b i w = refl
Within-scan (c ∷ cs) quoted d a b i w = Within-scan cs _ d a b i (λ n. w (suc n))
Within-scan (c ∷ cs) escaped d a b i w = Within-scan cs quoted d a b i (λ n. w (suc n))
Within-scan (c ∷ cs) outside d a b i w = elim (Bool-cases (c == 34)) [
  | inl q ↦
      let (o, k) = quote-no_bracket c q in
      rw (o, k, q) (Within-scan cs quoted d a b i (λ n. rw q at (w (suc n))))
  | inr q ↦ elim (Bool-cases (is_open c)) [
    | inl o ↦
        let k = open-not_close c o in
        let j = increment-IsDiff d a b i in
        let first = rw (q, o, k) at (w 1) in
        rw (o, (exceeds_iff _ (suc a) b j).1 (omega (arith, first)))
          (Within-scan cs outside (increment d) (suc a) b j
            (λ n. let step = rw (q, o, k) at (w (suc n)) in omega (arith, step)))
    | inr o ↦ elim (Bool-cases (is_close c)) [
      | inl k ↦
          rw (o, k, q)
            (Within-scan cs outside (decrement d) a (suc b) (decrement-IsDiff d a b i)
              (λ n. let step = rw (q, o, k) at (w (suc n)) in omega (arith, step)))
      | inr k ↦ rw (o, k, q) (Within-scan cs outside d a b i (λ n. rw (q, o, k) at (w (suc n))))
    ]
  ]
]

-- The scan accepts exactly the texts that are nested at most 32 deep.
pub too_deep-IsShallow : (t : Text) → (too_deep t ≡ false) ↔ IsShallow t
unfolding too_deep
too_deep-IsShallow t = (
  λ h n. omega (arith, scan-Within t outside (pos 0) 0 0 refl (omega arith) h n),
  λ w. Within-scan t outside (pos 0) 0 0 refl (λ n. omega (arith, w n)),
)
