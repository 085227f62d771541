-- ===== src/Telemetry/Pages.antt =====
-- persistence/repository.py: `list_chat_activity`, and `ChatActivityQueryService.page` of
-- telemetry/query.py. The database is a parameter: its rows, in any order.
pub mod Ordered
pub mod Followed
use route_llm.Prelude.{
  ℕ, zero, suc, ◌+◌, ◌≤◌, ◌≡◌, refl, sym, ap, ◌∙◌, subst, inl, inr, Bool, true, false, not, ◌&&◌,
  ◌||◌, Option, none, some, List, [], ◌∷◌, ◌++◌, All, select, take, ltb, ◌==◌, length, is_empty,
  if◌then◌else◌, arith, Bool-cases, &&-true,
}
use route_llm.Prelude.Text.{Text}
use route_llm.Errors.{ok, err, ◌>>=◌, telemetry_unavailable, ok-injective}
use route_llm.Models.{Result}
use route_llm.Application.Activity.{ChatActivityRecord}
use route_llm.Telemetry.Cursor.{
  Codec, IsCodec, encode_activity_cursor, decode_activity_cursor, decode-encode_activity_cursor,
}

-- A row of the table; `instant` is the time that the database compares.
pub record Row (k : Codec) : Type 0 where
  pub created_at : k.Time
  pub instant : ℕ
  pub id : ℕ
  pub activity : ChatActivityRecord

-- The times of the database have their zone, and it compares them by their instant.
pub record Database (k : Codec) : Type 0 where
  pub instant_of : k.Time → ℕ
  pub rows : List (Row k)

module _ (k : Codec) where
  -- The condition of the query on a row, from the instant and the identifier of the cursor.
  abbrev pub precedes : ℕ → ℕ → Row k → Bool
  precedes instant id row = ltb row.instant instant || (row.instant == instant && ltb row.id id)

  abbrev pub condition : Database k → Option (k.Time × ℕ) → Row k → Bool
  condition db none row = true
  condition db (some (t, i)) row = precedes (db.instant_of t) i row

  -- ORDER BY `created_at` and `id`, both descending.
  insert_row : Row k → List (Row k) → List (Row k)
  insert_row r [] = r ∷ []
  insert_row r (s ∷ rows) =
      let rest = insert_row r rows in if precedes s.instant s.id r then s ∷ rest else r ∷ s ∷ rows

  pub order_by : List (Row k) → List (Row k)
  unfolding insert_row
  order_by [] = []
  order_by (r ∷ rows) = insert_row r (order_by rows)

  -- `list_chat_activity`: at most `limit` rows, and whether there are more.
  unfoldable pub list_chat_activity : Database k → ℕ → Option (k.Time × ℕ) → List (Row k) × Bool
  unfolding order_by
  list_chat_activity db limit before =
      let rows = take (suc limit) (order_by (select (condition db before) db.rows)) in
      (take limit rows, ltb limit (length rows))

  abbrev last_cursor : List (Row k) → Option Text
  last_cursor [] = none
  last_cursor (r ∷ []) = some (encode_activity_cursor k r.created_at r.id)
  last_cursor (r ∷ s ∷ more) = last_cursor (s ∷ more)

  pub record ChatActivityPage : Type 0 where
    pub items : List (Row k)
    pub next_cursor : Option Text

  abbrev page_of : List (Row k) × Bool → ChatActivityPage
  page_of (items, has_more) = record {
    items = items;
    next_cursor = if has_more then last_cursor items else none;
  }

  abbrev before_of : Option Text → Result (Option (k.Time × ℕ))
  before_of none = ok none
  before_of (some cursor) = decode_activity_cursor k cursor >>= λ b. ok (some b)

  -- `page`, where the repository answers in time.
  unfoldable pub page : Option (Database k) → ℕ → Option Text → Result ChatActivityPage
  page none limit cursor = err telemetry_unavailable
  page (some db) limit cursor =
      before_of cursor >>= λ before. ok (page_of (list_chat_activity db limit before))

  -- What a client reads that follows the cursors, at most so many pages.
  abbrev items_after :
      (Option Text → Result (List (Row k))) → ChatActivityPage → Result (List (Row k))
  items_after next p = elim p.next_cursor [
    | none ↦ ok p.items
    | some cursor ↦ next (some cursor) >>= λ more. ok (p.items ++ more)
  ]

  unfoldable pub pages : ℕ → Database k → ℕ → Option Text → Result (List (Row k))
  pages zero db limit cursor = ok []
  pages (suc fuel) db limit cursor =
      page (some db) limit cursor >>= items_after (pages fuel db limit)

  -- The rows come in the order of the query, from the latest, and no two agree in both columns.
  abbrev pub IsDescending : List (Row k) → Type 0
  IsDescending [] = Unit
  IsDescending (r ∷ rs) = All (λ s. precedes r.instant r.id s ≡ true) rs × IsDescending rs
