-- ===== src/Validation/Json/Standard.antt =====
-- What the hooks and the type tests of validation/validator.py accept, said apart from them.
use route_llm.Prelude.{
  ◌%◌, ◌≡◌, ◌↔◌, refl, subst, inl, inr, Bool, true, false, not, List, [], ◌∷◌, In, ==_iff, &&-true,
  Bool-cases,
}
use route_llm.Prelude.Text.{Text, text_eq, text_eq_iff, member}
use route_llm.Decimal.{Decimal, denominator}
use route_llm.Validation.Contract.{JsonType}
use route_llm.Validation.Json.{
  Json, Items, Fields, null, boolean, number, string, constant, array, object, nil, cons, end,
  field, pairs, accepted, accepted_items, accepted_fields, matches,
}

-- A value of each type; an integer is a number without a fraction.
pub data HasType : Json → JsonType → Type 0 where
  is_object : (fs : Fields) → HasType (object fs) JsonType.object
  is_array : (xs : Items) → HasType (array xs) JsonType.array
  is_string : (t : Text) → HasType (string t) JsonType.string
  is_number : (s : Bool) (d : Decimal) → HasType (number s d) JsonType.number
  is_integer :
      (s : Bool) (d : Decimal)
      → d.coefficient % denominator d ≡ 0
      → HasType (number s d) JsonType.integer
  is_boolean : (b : Bool) → HasType (boolean b) JsonType.boolean
  is_null : HasType null JsonType.null

matches-HasType : (v : Json) (t : JsonType) → matches v t ≡ true → HasType v t
unfolding matches
matches-HasType (object fs) JsonType.object h = is_object fs
matches-HasType (array xs) JsonType.array h = is_array xs
matches-HasType (string t) JsonType.string h = is_string t
matches-HasType (number s d) JsonType.number h = is_number s d
matches-HasType (number s d) JsonType.integer h = is_integer s d ((==_iff _ _).0 h)
matches-HasType (boolean b) JsonType.boolean h = is_boolean b
matches-HasType null JsonType.null h = is_null
matches-HasType _ _ h = cc

HasType-matches : (v : Json) (t : JsonType) → HasType v t → matches v t ≡ true
unfolding matches
HasType-matches _ _ (is_object fs) = refl
HasType-matches _ _ (is_array xs) = refl
HasType-matches _ _ (is_string t) = refl
HasType-matches _ _ (is_number s d) = refl
HasType-matches _ _ (is_integer s d h) = (==_iff _ _).1 h
HasType-matches _ _ (is_boolean b) = refl
HasType-matches _ _ is_null = refl

pub matches_iff : (v : Json) (t : JsonType) → (matches v t ≡ true) ↔ HasType v t
matches_iff v t = (matches-HasType v t, HasType-matches v t)

abbrev pub keys : Fields → List Text
keys end = []
keys (field k v rest) = k ∷ keys rest

-- No key stands twice.
abbrev pub IsUnique : Fields → Type 0
IsUnique end = Unit
IsUnique (field k v rest) = (¬ In k (keys rest)) × IsUnique rest

-- No constant such as NaN, and no key twice in one object, at any level.
unfoldable mutual
  pub IsStandard : Json → Type 0
  IsStandard (constant t) = ⊥
  IsStandard (array xs) = AreStandard xs
  IsStandard (object fs) = IsUnique fs × HasStandard fs
  IsStandard _ = Unit

  pub AreStandard : Items → Type 0
  AreStandard nil = Unit
  AreStandard (cons x xs) = IsStandard x × AreStandard xs

  pub HasStandard : Fields → Type 0
  HasStandard end = Unit
  HasStandard (field k v fs) = IsStandard v × HasStandard fs

In-member : (x : Text) (ys : List Text) → In x ys → member x ys ≡ true
In-member x [] i = absurd i
In-member x (y ∷ ys) (inl e) = rw ((text_eq_iff x y).1 e) refl
In-member x (y ∷ ys) (inr i) = elim (Bool-cases (text_eq x y)) [
  | inl e ↦ rw e refl
  | inr e ↦ rw e (In-member x ys i)
]

member-In : (x : Text) (ys : List Text) → member x ys ≡ true → In x ys
member-In x [] h = cc
member-In x (y ∷ ys) h = elim (Bool-cases (text_eq x y)) [
  | inl e ↦ inl ((text_eq_iff x y).0 e)
  | inr e ↦ inr (member-In x ys (rw e at h))
]

not_member : (x : Text) (ys : List Text) → ¬ In x ys → member x ys ≡ false
not_member x ys n = elim (Bool-cases (member x ys)) [
  | inl e ↦ absurd (n (member-In x ys e))
  | inr e ↦ e
]

-- No key is among those that were read.
abbrev Avoids : List Text → Fields → Type 0
Avoids seen fs = (k : Text) → In k (keys fs) → ¬ In k seen

not-true : (b : Bool) → not b ≡ true → b ≡ false
not-true true h = cc
not-true false h = refl

pairs-IsUnique :
    (seen : List Text) (fs : Fields) → pairs seen fs ≡ true → IsUnique fs × Avoids seen fs
unfolding pairs
pairs-IsUnique seen end h = (tt, λ k i. absurd i)
pairs-IsUnique seen (field k v rest) h =
    let (fresh, more) = &&-true (not (member k seen)) (pairs (k ∷ seen) rest) h in
    let (unique, avoids) = pairs-IsUnique (k ∷ seen) rest more in
    let apart : ¬ In k seen = λ i. cc (In-member k seen i, not-true (member k seen) fresh) in
    (
      (λ i. avoids k i (inl refl), unique),
      λ j i. elim i [
        | inl e ↦ λ m. apart (subst (λ x. In x seen) e m)
        | inr i' ↦ λ m. avoids j i' (inr m)
      ],
    )

IsUnique-pairs :
    (seen : List Text) (fs : Fields) → IsUnique fs → Avoids seen fs → pairs seen fs ≡ true
unfolding pairs
IsUnique-pairs seen end u a = refl
IsUnique-pairs seen (field k v rest) (n, u) a = rw (not_member k seen (a k (inl refl))) (
    IsUnique-pairs (k ∷ seen) rest u
      (λ j i m. elim m [ inl e ↦ n (subst (λ x. In x (keys rest)) e i) | inr m' ↦ a j (inr i) m' ]))

mutual
  unfolding accepted IsStandard

  accepted-IsStandard : (v : Json) → accepted v ≡ true → IsStandard v
  accepted-IsStandard (constant t) h = cc
  accepted-IsStandard (array xs) h = accepted_items-AreStandard xs h
  accepted-IsStandard (object fs) h =
      let (a, b) = &&-true (accepted_fields fs) (pairs [] fs) h in
      ((pairs-IsUnique [] fs b).0, accepted_fields-HasStandard fs a)
  accepted-IsStandard null h = tt
  accepted-IsStandard (boolean b) h = tt
  accepted-IsStandard (number s d) h = tt
  accepted-IsStandard (string t) h = tt

  accepted_items-AreStandard : (xs : Items) → accepted_items xs ≡ true → AreStandard xs
  accepted_items-AreStandard nil h = tt
  accepted_items-AreStandard (cons x xs) h =
      let (a, b) = &&-true (accepted x) (accepted_items xs) h in
      (accepted-IsStandard x a, accepted_items-AreStandard xs b)

  accepted_fields-HasStandard : (fs : Fields) → accepted_fields fs ≡ true → HasStandard fs
  accepted_fields-HasStandard end h = tt
  accepted_fields-HasStandard (field k v fs) h =
      let (a, b) = &&-true (accepted v) (accepted_fields fs) h in
      (accepted-IsStandard v a, accepted_fields-HasStandard fs b)

mutual
  unfolding accepted IsStandard

  IsStandard-accepted : (v : Json) → IsStandard v → accepted v ≡ true
  IsStandard-accepted (constant t) h = absurd h
  IsStandard-accepted (array xs) h = AreStandard-accepted_items xs h
  IsStandard-accepted (object fs) (u, h) =
      rw (HasStandard-accepted_fields fs h) (IsUnique-pairs [] fs u (λ k i m. m))
  IsStandard-accepted null h = refl
  IsStandard-accepted (boolean b) h = refl
  IsStandard-accepted (number s d) h = refl
  IsStandard-accepted (string t) h = refl

  AreStandard-accepted_items : (xs : Items) → AreStandard xs → accepted_items xs ≡ true
  AreStandard-accepted_items nil h = refl
  AreStandard-accepted_items (cons x xs) (a, b) =
      rw (IsStandard-accepted x a) (AreStandard-accepted_items xs b)

  HasStandard-accepted_fields : (fs : Fields) → HasStandard fs → accepted_fields fs ≡ true
  HasStandard-accepted_fields end h = refl
  HasStandard-accepted_fields (field k v fs) (a, b) =
      rw (IsStandard-accepted v a) (HasStandard-accepted_fields fs b)

-- The hooks accept exactly these documents.
pub accepted_iff : (v : Json) → (accepted v ≡ true) ↔ IsStandard v
accepted_iff v = (accepted-IsStandard v, IsStandard-accepted v)
