-- ===== src/Paging/Loop.antt =====
-- The loop over the pages of a listing, as in `removeObsoleteGroupPermissions` of
-- server/services/sync/sync_service.go: each page is listed in the state that the pages before it left.
use buildbeaver.Base.{ℕ, zero, suc, Option, none, some, List, [], ◌∷◌}
use buildbeaver.Base.Options.{◌>>=◌}
use buildbeaver.Paging.Listing.{Marker, DirectionalCursor, Cursor, list_in}

abbrev pub next_of : Option Cursor → Option DirectionalCursor
next_of none = none
next_of (some c) = c.next

-- No result stands for an error that ends the loop, or for a panic.
module _ {A S : Type 0} (marker : A → Marker) (listed : S → List A) (body : A → S → Option S) where
  unfoldable pub each_row : List A → S → Option S
  each_row [] s = some s
  each_row (a ∷ rest) s = do s' ← body a s; each_row rest s'

  unfoldable pub each_page : ℕ → ℕ → Option DirectionalCursor → S → Option S
  unfolding each_row list_in
  each_page zero limit cursor s = none
  each_page (suc n) limit cursor s = do
    (page, c) ← list_in marker (record { limit = limit; cursor = cursor }) (listed s)
    s' ← each_row page s
    elim (next_of c) [ none ↦ some s' | some m ↦ each_page n limit (some m) s' ]
