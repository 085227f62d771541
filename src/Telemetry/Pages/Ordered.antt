-- ===== src/Telemetry/Pages/Ordered.antt =====
-- The order that the query of persistence/repository.py asks for.
use route_llm.Prelude.{
  suc, ◌≡◌, refl, sym, ◌∙◌, ap, inl, inr, ◌⊎◌, Bool, true, false, List, [], ◌∷◌, All, select,
  length, arith, Bool-cases,
}
use mathlib.Core.List.{Permᴰ}
use mathlib.Core.List.Permᴰ
use route_llm.Telemetry.Cursor.{Codec}
use route_llm.Telemetry.Pages.{Row, precedes, insert_row, order_by, IsDescending}

module _ (k : Codec) where
  -- One of two rows comes behind the other.
  abbrev pub Differs : Row k → Row k → Type 0
  Differs r s = (precedes k r.instant r.id s ≡ true) ⊎ (precedes k s.instant s.id r ≡ true)

  -- No two rows agree in both columns.
  abbrev pub IsKeyed : List (Row k) → Type 0
  IsKeyed [] = Unit
  IsKeyed (r ∷ rs) = All (Differs r) rs × IsKeyed rs

  precedes_trans :
      (r s t : Row k)
      → precedes k r.instant r.id s ≡ true
      → precedes k s.instant s.id t ≡ true
      → precedes k r.instant r.id t ≡ true
  precedes_trans r s t h j = ground arith

  -- What is behind `s` is not before `r`, if `s` is not.
  precedes_not :
      (r s t : Row k)
      → precedes k s.instant s.id r ≡ false
      → precedes k s.instant s.id t ≡ true
      → precedes k t.instant t.id r ≡ false
  precedes_not r s t h j = ground arith

  All-insert_row :
      (P : Row k → Type 0) (r : Row k) (rows : List (Row k))
      → P r
      → All P rows
      → All P (insert_row k r rows)
  unfolding insert_row
  All-insert_row P r [] p h = (p, tt)
  All-insert_row P r (s ∷ rows) p (q, h) = elim (Bool-cases (precedes k s.instant s.id r)) [
    | inl e ↦ rw e (q, All-insert_row P r rows p h)
    | inr e ↦ rw e (p, (q, h))
  ]

  pub All-order_by :
      (P : Row k → Type 0) (rows : List (Row k)) → All P rows → All P (order_by k rows)
  unfolding order_by
  All-order_by P [] h = tt
  All-order_by P (r ∷ rows) (p, h) = All-insert_row P r (order_by k rows) p (All-order_by P rows h)

  All-map :
      (P Q : Row k → Type 0) (rows : List (Row k))
      → ((r : Row k) → P r → Q r)
      → All P rows
      → All Q rows
  All-map P Q [] f h = tt
  All-map P Q (r ∷ rows) f (p, h) = (f r p, All-map P Q rows f h)

  insert_row-IsDescending :
      (r : Row k) (rows : List (Row k))
      → IsDescending k rows
      → All (Differs r) rows
      → IsDescending k (insert_row k r rows)
  unfolding insert_row
  insert_row-IsDescending r [] d h = (tt, tt)
  insert_row-IsDescending r (s ∷ rows) (a, d) (b, h) =
      elim (Bool-cases (precedes k s.instant s.id r)) [
        | inl e ↦ rw e (
          All-insert_row (λ t. precedes k s.instant s.id t ≡ true) r rows e a,
          insert_row-IsDescending r rows d h,
        )
        | inr e ↦
            let first : precedes k r.instant r.id s ≡ true = behind b e in
            rw e (
              (
                first,
                All-map _ (λ t. precedes k r.instant r.id t ≡ true) rows
                    (λ t. precedes_trans r s t first) a,
              ),
              (a, d),
            )
      ]
    where
      behind :
          Differs r s → precedes k s.instant s.id r ≡ false → precedes k r.instant r.id s ≡ true
      behind (inl p) e = p
      behind (inr p) e = cc

  pub order_by-IsDescending :
      (rows : List (Row k)) → IsKeyed rows → IsDescending k (order_by k rows)
  unfolding order_by
  order_by-IsDescending [] h = tt
  order_by-IsDescending (r ∷ rows) (a, h) =
      insert_row-IsDescending r (order_by k rows) (order_by-IsDescending rows h)
        (All-order_by (Differs r) rows a)

  insert_row-first :
      (r : Row k) (rows : List (Row k))
      → All (λ t. precedes k t.instant t.id r ≡ false) rows
      → insert_row k r rows ≡ r ∷ rows
  unfolding insert_row
  insert_row-first r [] h = refl
  insert_row-first r (s ∷ rows) (e, h) = rw e refl

  module _ (p : Row k → Bool) where
    All-select : (P : Row k → Type 0) (rows : List (Row k)) → All P rows → All P (select p rows)
    All-select P [] h = tt
    All-select P (r ∷ rows) (q, h) = elim (Bool-cases (p r)) [
      | inl e ↦ rw e (q, All-select P rows h)
      | inr e ↦ rw e (All-select P rows h)
    ]

    select-insert_row :
        (r : Row k) (rows : List (Row k))
        → IsDescending k rows
        → p r ≡ true
        → select p (insert_row k r rows) ≡ insert_row k r (select p rows)
    unfolding insert_row
    select-insert_row r [] d h = rw h refl
    select-insert_row r (s ∷ rows) (a, d) h = elim (Bool-cases (precedes k s.instant s.id r)) [
      | inl e ↦ elim (Bool-cases (p s)) [
        | inl f ↦ rw (e, f, e) (ap (λ l. s ∷ l) (select-insert_row r rows d h))
        | inr f ↦ rw (e, f) (select-insert_row r rows d h)
      ]
      | inr e ↦ elim (Bool-cases (p s)) [
        | inl f ↦ rw (e, h, f, e) refl
        | inr f ↦
            rw (e, h, f)
              (sym (
                insert_row-first r (select p rows) (
                  All-select (λ t. precedes k t.instant t.id r ≡ false) rows
                    (All-map _ (λ t. precedes k t.instant t.id r ≡ false) rows
                      (λ t. precedes_not r s t e) a))))
      ]
    ]

    select-insert_row-off :
        (r : Row k) (rows : List (Row k))
        → p r ≡ false
        → select p (insert_row k r rows) ≡ select p rows
    unfolding insert_row
    select-insert_row-off r [] h = rw h refl
    select-insert_row-off r (s ∷ rows) h = elim (Bool-cases (precedes k s.instant s.id r)) [
      | inl e ↦ elim (Bool-cases (p s)) [
        | inl f ↦ rw (e, f) (ap (λ l. s ∷ l) (select-insert_row-off r rows h))
        | inr f ↦ rw (e, f) (select-insert_row-off r rows h)
      ]
      | inr e ↦ rw (e, h) refl
    ]

    -- The rows may be ordered before the condition selects from them.
    pub select-order_by :
        (rows : List (Row k))
        → IsKeyed rows
        → select p (order_by k rows) ≡ order_by k (select p rows)
    unfolding order_by
    select-order_by [] h = refl
    select-order_by (r ∷ rows) (a, h) = elim (Bool-cases (p r)) [
      | inl e ↦ rw e (
          select-insert_row r (order_by k rows) (order_by-IsDescending rows h) e
          ∙ ap (insert_row k r) (select-order_by rows h))
      | inr e ↦ rw e (select-insert_row-off r (order_by k rows) e ∙ select-order_by rows h)
    ]

  insert_row-Perm : (r : Row k) (rows : List (Row k)) → Permᴰ (r ∷ rows) (insert_row k r rows)
  unfolding insert_row
  insert_row-Perm r [] = Permᴰ.refl (r ∷ [])
  insert_row-Perm r (s ∷ rows) = elim (Bool-cases (precedes k s.instant s.id r)) [
    | inl e ↦ rw e (Permᴰ.trans (Permᴰ.swap refl refl) (Permᴰ.cons refl (insert_row-Perm r rows)))
    | inr e ↦ rw e (Permᴰ.refl (r ∷ s ∷ rows))
  ]

  -- The rows are those of the table.
  pub order_by-Perm : (rows : List (Row k)) → Permᴰ rows (order_by k rows)
  unfolding order_by
  order_by-Perm [] = Permᴰ.nil
  order_by-Perm (r ∷ rows) =
      Permᴰ.trans (Permᴰ.cons refl (order_by-Perm rows)) (insert_row-Perm r (order_by k rows))

  length-insert_row :
      (r : Row k) (rows : List (Row k)) → length (insert_row k r rows) ≡ suc (length rows)
  unfolding insert_row
  length-insert_row r [] = refl
  length-insert_row r (s ∷ rows) = elim (Bool-cases (precedes k s.instant s.id r)) [
    | inl e ↦ rw e (ap suc (length-insert_row r rows))
    | inr e ↦ rw e refl
  ]

  pub length-order_by : (rows : List (Row k)) → length (order_by k rows) ≡ length rows
  unfolding order_by
  length-order_by [] = refl
  length-order_by (r ∷ rows) = length-insert_row r (order_by k rows) ∙ ap suc (length-order_by rows)
