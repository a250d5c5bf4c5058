-- ===== src/Paging/Tests.antt =====
-- Pages of a few rows.
use buildbeaver.Base.{ℕ, ◌≡◌, refl, none, some, List, [], ◌∷◌}
use buildbeaver.Paging.{Marker, next_page, prev_page, insert_by, list_in}

abbrev row : ℕ → ℕ → Marker
row t n = record { created_at = t; id = n }

abbrev rows : List Marker
rows = row 1 5 ∷ row 3 2 ∷ row 2 9 ∷ row 3 4 ∷ row 2 1 ∷ []

abbrev itself : Marker → Marker
itself m = m

first_page :
    list_in itself (record { limit = 2; cursor = none }) rows
    ≡ some (
      row 3 4 ∷ row 3 2 ∷ [],
      some (record {
        prev = none;
        next = some (record { direction = next_page; marker = row 3 2 });
      }),
    )
unfolding list_in insert_by
first_page = refl

second_page :
    list_in itself
      (record { limit = 2; cursor = some (record { direction = next_page; marker = row 3 2 }) })
      rows
    ≡ some (
      row 2 9 ∷ row 2 1 ∷ [],
      some (record {
        prev = some (record { direction = prev_page; marker = row 2 9 });
        next = some (record { direction = next_page; marker = row 2 1 });
      }),
    )
unfolding list_in insert_by
second_page = refl

-- Back from the second page.
back_again :
    list_in itself
      (record { limit = 2; cursor = some (record { direction = prev_page; marker = row 2 9 }) })
      rows
    ≡ some (
      row 3 4 ∷ row 3 2 ∷ [],
      some (record {
        prev = none;
        next = some (record { direction = next_page; marker = row 3 2 });
      }),
    )
unfolding list_in insert_by
back_again = refl
