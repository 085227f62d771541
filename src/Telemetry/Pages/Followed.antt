-- ===== src/Telemetry/Pages/Followed.antt =====
-- What a client reads that follows the cursors of telemetry/query.py to the end.
use route_llm.Prelude.{
  ℕ, zero, suc, ◌+◌, ◌≤◌, ◌<◌, ◌^◌, ◌≡◌, refl, sym, ap, ◌∙◌, subst, inl, inr, Bool, true, false,
  Option, none, some, List, [], ◌∷◌, ◌++◌, All, select, take, ltb, length, length-append, arith,
  Bool-cases,
}
use mathlib.Core.List.{append_assoc, Permᴰ}
use route_llm.Prelude.Text.{Text}
use route_llm.Errors.{ok}
use route_llm.Telemetry.Cursor.{
  Codec, IsCodec, encode_activity_cursor, decode-encode_activity_cursor,
}
use route_llm.Telemetry.Pages.{
  Row, Database, precedes, condition, list_chat_activity, last_cursor, before_of, page, pages,
  IsDescending, order_by,
}
use route_llm.Telemetry.Pages.Ordered.{
  IsKeyed, order_by-IsDescending, select-order_by, order_by-Perm, All-order_by, length-order_by,
}

module _ {A : Type 0} where
  take-take : (n : ℕ) (xs : List A) → take n (take (suc n) xs) ≡ take n xs
  take-take zero xs = refl
  take-take (suc n) [] = refl
  take-take (suc n) (x ∷ xs) = ap (λ l. x ∷ l) (take-take n xs)

  ltb-take : (n : ℕ) (xs : List A) → ltb n (length (take (suc n) xs)) ≡ ltb n (length xs)
  ltb-take zero [] = refl
  ltb-take zero (x ∷ xs) = ground arith
  ltb-take (suc n) [] = refl
  ltb-take (suc n) (x ∷ xs) = ground (arith, ltb-take n xs)

  take-all : (n : ℕ) (xs : List A) → length xs ≤ n → take n xs ≡ xs
  take-all zero [] h = refl
  take-all zero (x ∷ xs) h = absurd (omega (arith, h))
  take-all (suc n) [] h = refl
  take-all (suc n) (x ∷ xs) h = ap (λ l. x ∷ l) (take-all n xs (omega (arith, h)))

  -- A first part that is not empty, with its last element, and the rest.
  record Split (n : ℕ) (xs : List A) : Type 0 where
    pub init : List A
    pub last : A
    pub rest : List A
    pub taken : take n xs ≡ init ++ (last ∷ [])
    pub whole : xs ≡ init ++ (last ∷ rest)

  split : (n : ℕ) (xs : List A) → suc n ≤ length xs → Split (suc n) xs
  split n [] h = absurd (omega (arith, h))
  split zero (x ∷ xs) h = record { init = []; last = x; rest = xs; taken = refl; whole = refl }
  split (suc n) (x ∷ xs) h =
      let s : Split (suc n) xs = split n xs (omega (arith, h)) in
      record {
        init = x ∷ s.init;
        last = s.last;
        rest = s.rest;
        taken = ap (λ l. x ∷ l) s.taken;
        whole = ap (λ l. x ∷ l) s.whole;
      }

  select-All : (p : A → Bool) (xs : List A) → All (λ x. p x ≡ true) xs → select p xs ≡ xs
  select-All p [] h = refl
  select-All p (x ∷ xs) (e, h) = rw e (ap (λ l. x ∷ l) (select-All p xs h))

  All-middle : (P : A → Type 0) (xs : List A) (y : A) (zs : List A) → All P (xs ++ (y ∷ zs)) → P y
  All-middle P [] y zs (e, h) = e
  All-middle P (x ∷ xs) y zs (e, h) = All-middle P xs y zs h

module _ (k : Codec) where
  precedes-asym :
      (r s : Row k) → precedes k r.instant r.id s ≡ true → precedes k s.instant s.id r ≡ false
  precedes-asym r s h = ground arith

  precedes_irrefl : (r : Row k) → precedes k r.instant r.id r ≡ false
  precedes_irrefl r = ground arith

  -- The rows behind one of them are those that the condition of its cursor selects.
  select-behind :
      (pre : List (Row k)) (r : Row k) (rest : List (Row k))
      → IsDescending k (pre ++ (r ∷ rest))
      → select (precedes k r.instant r.id) (pre ++ (r ∷ rest)) ≡ rest
  select-behind [] r rest (a, h) =
      rw (precedes_irrefl r) (select-All (precedes k r.instant r.id) rest a)
  select-behind (q ∷ pre) r rest (a, h) =
      rw (precedes-asym q r (All-middle (λ s. precedes k q.instant q.id s ≡ true) pre r rest a))
        (select-behind pre r rest h)

  last_cursor-snoc :
      (init : List (Row k)) (r : Row k)
      → last_cursor k (init ++ (r ∷ [])) ≡ some (encode_activity_cursor k r.created_at r.id)
  last_cursor-snoc [] r = refl
  last_cursor-snoc (q ∷ []) r = refl
  last_cursor-snoc (q ∷ p ∷ init) r = last_cursor-snoc (p ∷ init) r

  -- A row compares by the instant of its time, which is in UTC, and has an identifier of 128 bits.
  abbrev pub IsTimed : Database k → Row k → Type 0
  IsTimed db r =
      (k.is_utc r.created_at ≡ true) × (db.instant_of r.created_at ≡ r.instant) × (r.id < 2 ^ 128)

  module _ (law : IsCodec k) (db : Database k) (keyed : IsKeyed k db.rows)
      (timed : All (IsTimed db) db.rows) (n : ℕ) where
    abbrev ordered : List (Row k)
    ordered = order_by k db.rows

    order : IsDescending k ordered
    order = order_by-IsDescending k db.rows keyed

    -- The rows behind the last one of a page.
    module _ (front : List (Row k)) (r : Row k) (rest : List (Row k))
        (w : ordered ≡ front ++ (r ∷ rest)) where
      r-IsTimed : IsTimed db r
      r-IsTimed =
          All-middle (IsTimed db) front r rest
            (subst (All (IsTimed db)) w (All-order_by k (IsTimed db) db.rows timed))

      before_of-next :
          before_of k (some (encode_activity_cursor k r.created_at r.id))
          ≡ ok (some (r.created_at, r.id))
      before_of-next =
          rw (decode-encode_activity_cursor k law r.created_at r-IsTimed.0 r.id r-IsTimed.2) refl

      select-next : select (condition k db (some (r.created_at, r.id))) ordered ≡ rest
      select-next =
          ap (λ t. select (precedes k t r.id) ordered) r-IsTimed.1
          ∙ ap (select (precedes k r.instant r.id)) w
          ∙ select-behind front r rest (subst (IsDescending k) w order)

    pages-behind :
        (fuel : ℕ) (cursor : Option Text) (before : Option (k.Time × ℕ)) (pre suf : List (Row k))
        → before_of k cursor ≡ ok before
        → ordered ≡ pre ++ suf
        → select (condition k db before) ordered ≡ suf
        → length suf < fuel
        → pages k fuel db (suc n) cursor ≡ ok suf
    unfolding pages page list_chat_activity
    pages-behind zero cursor before pre suf c w e h = absurd (omega (arith, h))
    pages-behind (suc fuel) cursor before pre suf c w e h =
        let listed : order_by k (select (condition k db before) db.rows) ≡ suf =
          sym (select-order_by k (condition k db before) db.rows keyed) ∙ e in
        elim (Bool-cases (ltb (suc n) (length suf))) [
          | inr b ↦
              rw (c, listed, take-take (suc n) suf, ltb-take (suc n) suf, b)
                (ap ok (take-all (suc n) suf (ground (arith, b))))
          | inl b ↦
              let s : Split (suc n) suf = split n suf (ground (arith, b)) in
              let parted : ordered ≡ (pre ++ s.init) ++ (s.last ∷ s.rest) =
                w ∙ ap (λ l. pre ++ l) s.whole ∙ sym (append_assoc pre s.init (s.last ∷ s.rest)) in
              let shorter : length suf ≡ length s.init + suc (length s.rest) =
                ap length s.whole ∙ length-append s.init (s.last ∷ s.rest) in
              let more =
                pages-behind fuel (some (encode_activity_cursor k s.last.created_at s.last.id))
                  (some (s.last.created_at, s.last.id)) ((pre ++ s.init) ++ (s.last ∷ [])) s.rest
                  (before_of-next (pre ++ s.init) s.last s.rest parted)
                  (parted ∙ sym (append_assoc (pre ++ s.init) (s.last ∷ []) s.rest))
                  (select-next (pre ++ s.init) s.last s.rest parted) (omega (arith, h, shorter)) in
              rw
                (
                  c,
                  listed,
                  take-take (suc n) suf,
                  ltb-take (suc n) suf,
                  b,
                  s.taken,
                  last_cursor-snoc s.init s.last,
                  more,
                )
                (ap ok (append_assoc s.init (s.last ∷ []) s.rest ∙ sym s.whole))
        ]

    -- A client that follows the cursors from the first page to the last reads the rows of the table, every
    -- one once, from the latest to the oldest and of one time by falling identifiers, whatever the limit
    -- of a page is, in at most one page more than there are rows. The times of the rows are in UTC and are
    -- compared by their instant, the identifiers have 128 bits, and no two rows agree in both columns.
    pub pages_all :
        (read : List (Row k)) × (pages k (suc (length db.rows)) db (suc n) none ≡ ok read)
        × IsDescending k read
        × Permᴰ db.rows read
    pages_all = (
      ordered,
      pages-behind (suc (length db.rows)) none none [] ordered refl refl
          (select-All (λ r. true) ordered (every ordered))
          (omega (arith, length-order_by k db.rows)),
      order,
      order_by-Perm k db.rows,
    )
      where
        every : (rs : List (Row k)) → All (λ r. true ≡ true) rs
        every [] = tt
        every (r ∷ rs) = (refl, every rs)
