-- ===== src/Prelude/Text/Trimmed.antt =====
-- Texts without white space at their ends, and texts that are joined by a separator.
use Prim.Native.Nat.{ℕ}
use mathlib.Core.Path.{◌≡◌, refl, sym, ap, ◌∙◌}
use mathlib.Core.Logic.{inl, inr}
use mathlib.Core.Bool.{Bool, true, false, not, ◌&&◌}
use mathlib.Core.List.{
  List, [], ◌∷◌, ◌++◌, reverse, append_assoc, append-nil, reverse-append, reverse-cons,
  reverse-reverse,
}
use native.Mathlib.Omega.{arith}
use route_llm.Prelude.Tests.{◌==◌, &&-true, Bool-cases}
use route_llm.Prelude.Lists.{all, is_empty}
use route_llm.Prelude.Text.{Text, is_space, lstrip, strip, split_from, split_on, join_with}

-- The text has a first character, which is no white space.
abbrev starts_dark : Text → Bool
starts_dark [] = false
starts_dark (c ∷ ws) = not (is_space c)

abbrev pub is_trimmed : Text → Bool
is_trimmed t = starts_dark t && starts_dark (reverse t)

abbrev pub lacks : ℕ → Text → Bool
lacks sep [] = true
lacks sep (c ∷ ws) = not (c == sep) && lacks sep ws

lstrip-dark : (t : Text) → starts_dark t ≡ true → lstrip t ≡ t
unfolding lstrip
lstrip-dark [] h = refl
lstrip-dark (c ∷ ws) h = ground arith

-- What is trimmed is left as it is by `strip`.
pub strip-trimmed : (t : Text) → is_trimmed t ≡ true → strip t ≡ t
unfolding strip
strip-trimmed t h =
    let (a, b) = &&-true _ _ h in
    ap (λ u. reverse (lstrip (reverse u))) (lstrip-dark t a)
    ∙ ap reverse (lstrip-dark (reverse t) b)
    ∙ reverse-reverse t

pub trimmed-is_empty : (t : Text) → is_trimmed t ≡ true → is_empty t ≡ false
trimmed-is_empty [] h = cc
trimmed-is_empty (c ∷ ws) h = refl

starts_dark-append : (xs ys : Text) → starts_dark xs ≡ true → starts_dark (xs ++ ys) ≡ true
starts_dark-append [] ys h = cc
starts_dark-append (x ∷ xs) ys h = h

-- What is between the first and the last part does not matter.
trimmed-append :
    (xs ys zs : Text)
    → is_trimmed xs ≡ true
    → is_trimmed zs ≡ true
    → is_trimmed (xs ++ (ys ++ zs)) ≡ true
trimmed-append xs ys zs h k =
    let (a, b) = &&-true _ _ h in
    let (c, d) = &&-true _ _ k in
    let back : reverse (xs ++ (ys ++ zs)) ≡ reverse zs ++ (reverse ys ++ reverse xs) =
      reverse-append xs (ys ++ zs)
      ∙ ap (λ l. l ++ reverse xs) (reverse-append ys zs)
      ∙ append_assoc (reverse zs) (reverse ys) (reverse xs) in
    rw
      (
        starts_dark-append xs (ys ++ zs) a,
        back,
        starts_dark-append (reverse zs) (reverse ys ++ reverse xs) d,
      )
      refl

pub join_with-trimmed :
    (sep : ℕ) (t : Text) (more : List Text)
    → all is_trimmed (t ∷ more) ≡ true
    → is_trimmed (join_with sep (t ∷ more)) ≡ true
join_with-trimmed sep t [] h = (&&-true _ _ h).0
join_with-trimmed sep t (u ∷ more) h =
    let (a, b) = &&-true _ _ h in
    trimmed-append t (sep ∷ []) (join_with sep (u ∷ more)) a (join_with-trimmed sep u more b)

split_from-last :
    (sep : ℕ) (part t : Text)
    → lacks sep t ≡ true
    → split_from sep part t ≡ (reverse part ++ t) ∷ []
unfolding split_from
split_from-last sep part [] h = ap (λ l. l ∷ []) (sym (append-nil (reverse part)))
split_from-last sep part (c ∷ ws) h = elim (Bool-cases (c == sep)) [
  | inl e ↦ cc (rw e at h)
  | inr e ↦ rw e (
      split_from-last sep (c ∷ part) ws (rw e at h)
      ∙ ap (λ l. (l ++ ws) ∷ []) (reverse-cons c part)
      ∙ ap (λ l. l ∷ []) (append_assoc (reverse part) (c ∷ []) ws))
]

split_from-append :
    (sep : ℕ) (part t rest : Text)
    → lacks sep t ≡ true
    → split_from sep part (t ++ (sep ∷ rest)) ≡ (reverse part ++ t) ∷ split_from sep [] rest
unfolding split_from
split_from-append sep part [] rest h = ground (arith, append-nil (reverse part))
split_from-append sep part (c ∷ ws) rest h = elim (Bool-cases (c == sep)) [
  | inl e ↦ cc (rw e at h)
  | inr e ↦ rw e (
      split_from-append sep (c ∷ part) ws rest (rw e at h)
      ∙ ap (λ l. (l ++ ws) ∷ split_from sep [] rest) (reverse-cons c part)
      ∙ ap (λ l. l ∷ split_from sep [] rest) (append_assoc (reverse part) (c ∷ []) ws))
]

-- Splitting what was joined gives the parts back, if none of them has the separator.
pub split_on-join_with :
    (sep : ℕ) (t : Text) (more : List Text)
    → all (lacks sep) (t ∷ more) ≡ true
    → split_on sep (join_with sep (t ∷ more)) ≡ t ∷ more
unfolding split_on
split_on-join_with sep t [] h = split_from-last sep [] t (&&-true _ _ h).0
split_on-join_with sep t (u ∷ more) h =
    let (a, b) = &&-true _ _ h in
    split_from-append sep [] t (join_with sep (u ∷ more)) a
    ∙ ap (λ l. t ∷ l) (split_on-join_with sep u more b)
