-- ===== src/Paging/Listing.antt =====
-- `ListIn` of server/store/resource_table.go.
use buildbeaver.Base.{
  ltb, ◌==◌, if◌then◌else◌, length, take, ℕ, suc, Bool, true, false, ◌&&◌, ◌||◌, Option, none, some,
  List, [], ◌∷◌,
}
use buildbeaver.Queue.{select}

-- `resourceTableMarker`
pub record Marker : Type 0 where
  pub created_at : ℕ
  pub id : ℕ

pub data CursorDirection : Type 0 where
  prev_page next_page : CursorDirection

pub record DirectionalCursor : Type 0 where
  pub direction : CursorDirection
  pub marker : Marker

pub record Cursor : Type 0 where
  pub prev : Option DirectionalCursor
  pub next : Option DirectionalCursor

pub record Pagination : Type 0 where
  pub limit : ℕ
  pub cursor : Option DirectionalCursor

-- What the query asks of a row after the marker, in the order of the newest first.
unfoldable pub is_older : Marker → Marker → Bool
is_older m a =
    (ltb a.created_at m.created_at || a.created_at == m.created_at)
    && (a.created_at == m.created_at && ltb a.id m.id || ltb a.created_at m.created_at)

abbrev pub is_newer : Marker → Marker → Bool
is_newer m a = is_older a m

abbrev pub is_forwards : Option DirectionalCursor → Bool
is_forwards none = true
is_forwards (some c) = elim c.direction [ prev_page ↦ false | next_page ↦ true ]

module _ {A : Type 0} (marker : A → Marker) where
  unfoldable pub insert_by : (Marker → Marker → Bool) → A → List A → List A
  insert_by before a [] = a ∷ []
  insert_by before a (b ∷ bs) =
      let tail = insert_by before a bs in
      if before (marker a) (marker b) then a ∷ b ∷ bs else b ∷ tail

  -- `ORDER BY` the time and the ID: `before a b` says that a stands before b.
  unfoldable pub order_by : (Marker → Marker → Bool) → List A → List A
  unfolding insert_by
  order_by before [] = []
  order_by before (a ∷ bs) = insert_by before a (order_by before bs)

  -- The query.
  unfoldable pub fetch : Pagination → List A → List A
  unfolding order_by select is_older
  fetch p rows = elim p.cursor [
    | none ↦ take (suc p.limit) (order_by is_older rows)
    | some c ↦ elim c.direction [
      | next_page ↦
          take (suc p.limit) (order_by is_older (select (λ a. is_older c.marker (marker a)) rows))
      | prev_page ↦
          order_by is_older (
            take (suc p.limit)
              (order_by is_newer (select (λ a. is_newer c.marker (marker a)) rows)))
    ]
  ]

  abbrev pub last_of : A → List A → A
  last_of a [] = a
  last_of a (b ∷ bs) = last_of b bs

  unfoldable pub to_next : A → DirectionalCursor
  to_next a = record { direction = next_page; marker = marker a }

  unfoldable pub to_prev : A → DirectionalCursor
  to_prev a = record { direction = prev_page; marker = marker a }

  -- The cursor before it is known whether there is a further page in the direction of the listing.
  unfoldable pub cursor_back : Option DirectionalCursor → A → List A → Cursor
  unfolding to_next to_prev
  cursor_back none a rest = record { prev = none; next = none }
  cursor_back (some c) a rest = elim c.direction [
    | next_page ↦ record { prev = some (to_prev a); next = none }
    | prev_page ↦ record { prev = none; next = some (to_next (last_of a rest)) }
  ]

  -- There is a row more than the limit: a page of no rows is an index out of range.
  unfoldable pub page_forwards : ℕ → Cursor → List A → Option (List A × Option Cursor)
  unfolding to_next
  page_forwards limit c rows = elim (take limit rows) [
    | [] ↦ none
    | a ∷ rest ↦ some (a ∷ rest, some (record c { next = some (to_next (last_of a rest)) }))
  ]

  unfoldable pub page_backwards : Cursor → List A → Option (List A × Option Cursor)
  unfolding to_prev
  page_backwards c [] = none
  page_backwards c (a ∷ rest) = some (a ∷ rest, some (record c { prev = some (to_prev a) }))

  unfoldable pub page_of : Pagination → List A → Option (List A × Option Cursor)
  unfolding cursor_back page_forwards page_backwards
  page_of p [] = some ([], none)
  page_of p (a ∷ rest) =
      let c = cursor_back p.cursor a rest in
      if ltb p.limit (length (a ∷ rest))
      then (if is_forwards p.cursor
          then page_forwards p.limit c (a ∷ rest)
          else page_backwards c rest)
      else some (a ∷ rest, some c)

  -- `ListIn`, on the rows that the caller's query selects.
  unfoldable pub list_in : Pagination → List A → Option (List A × Option Cursor)
  unfolding fetch page_of
  list_in p rows = page_of p (fetch p rows)
