-- ===== src/Prelude/Order.antt =====
-- Total preorders as Boolean tests, and what Python's `min` with a key returns.
use mathlib.Core.Path.{◌≡◌, refl}
use mathlib.Core.Logic.{inl, inr}
use mathlib.Core.Bool.{Bool, true, false, ◌&&◌}
use mathlib.Core.List.{List, [], ◌∷◌}
use native.Mathlib.Omega.{arith}
use route_llm.Prelude.Tests.{leb, if◌then◌else◌, Bool-cases}
use route_llm.Prelude.Lists.{In}

-- `le a b` is `a <= b`.
pub record IsOrder {ℓ} {A : Type ℓ} (le : A → A → Bool) : Type ℓ where
  pub total : (a b : A) → le a b ≡ false → le b a ≡ true
  pub trans : (a b c : A) → le a b ≡ true → le b c ≡ true → le a c ≡ true

pub leb-IsOrder : IsOrder leb
leb-IsOrder = record { total = λ a b h. ground arith; trans = λ a b c h k. ground arith }

module _ {ℓ} {A : Type ℓ} where
  -- The order of the negated values.
  abbrev pub descending : (A → A → Bool) → A → A → Bool
  descending le a b = le b a

  -- Python's comparison of tuples: the first component that differs decides.
  abbrev pub then_by : (A → A → Bool) → (A → A → Bool) → A → A → Bool
  then_by le next a b = if le a b && le b a then next a b else le a b

  -- `min`: the first of the elements with the least key.
  abbrev pub min_by : (A → A → Bool) → A → List A → A
  min_by le best [] = best
  min_by le best (x ∷ xs) = min_by le (if le best x then best else x) xs

module _ {ℓ} {A : Type ℓ} {le : A → A → Bool} (o : IsOrder le) where
  pub le_refl_of : (a : A) → le a a ≡ true
  le_refl_of a = elim (Bool-cases (le a a)) [ inl e ↦ e | inr e ↦ o.total a a e ]

  pub descending-IsOrder : IsOrder (descending le)
  descending-IsOrder = record {
    total = λ a b h. o.total b a h;
    trans = λ a b c h k. o.trans c b a k h;
  }

  pub on-IsOrder {κ} : {B : Type κ} (f : B → A) → IsOrder (λ x y. le (f x) (f y))
  on-IsOrder f = record {
    total = λ a b h. o.total (f a) (f b) h;
    trans = λ a b c h k. o.trans (f a) (f b) (f c) h k;
  }

  pub then_by-IsOrder : {next : A → A → Bool} → IsOrder next → IsOrder (then_by le next)
  then_by-IsOrder {next} n = record {
    total = λ a b h. ground (arith, o.total a b, n.total a b);
    trans = λ a b c h k.
        ground (arith, o.trans a b c, o.trans c b a, o.trans b c a, o.trans c a b, n.trans a b c);
  }

  min_by_le_best : (best : A) (xs : List A) → le (min_by le best xs) best ≡ true
  min_by_le_best best [] = le_refl_of best
  min_by_le_best best (x ∷ xs) = elim (Bool-cases (le best x)) [
    | inl e ↦ rw e (min_by_le_best best xs)
    | inr e ↦ rw e (o.trans _ x best (min_by_le_best x xs) (o.total best x e))
  ]

module _ {A : Type 0} {le : A → A → Bool} (o : IsOrder le) where
  -- The result is below every element.
  pub min_by_least :
      (best : A) (xs : List A) (a : A) → In a (best ∷ xs) → le (min_by le best xs) a ≡ true
  min_by_least best xs a (inl e) = rw e (min_by_le_best o best xs)
  min_by_least best [] a (inr m) = absurd m
  min_by_least best (x ∷ xs) a (inr (inl e)) = rw e (elim (Bool-cases (le best x)) [
    | inl k ↦ rw k (o.trans _ best x (min_by_le_best o best xs) k)
    | inr k ↦ rw k (min_by_le_best o x xs)
  ])
  min_by_least best (x ∷ xs) a (inr (inr m)) =
      min_by_least (if le best x then best else x) xs a (inr m)

In-pick :
    {A : Type 0} (b : Bool) (r x y : A) (xs : List A)
    → In r ((if b then x else y) ∷ xs)
    → In r (x ∷ y ∷ xs)
In-pick b r x y xs m = ground arith

-- The result of `min` is one of the elements.
pub min_by-In :
    {A : Type 0} (le : A → A → Bool) (best : A) (xs : List A) → In (min_by le best xs) (best ∷ xs)
min_by-In le best [] = inl refl
min_by-In le best (x ∷ xs) =
    In-pick (le best x) _ best x xs (min_by-In le (if le best x then best else x) xs)
