-- ===== src/Paging/Pages.antt =====
-- What one page of a listing is, when the listing goes forwards.
use buildbeaver.Base.{
  ltb, length, take, drop, lt→ltb, ℕ, zero, suc, ◌≤◌, ◌<◌, ◌≡◌, refl, sym, ap, Bool, true, false,
  Option, none, some, List, [], ◌∷◌, ◌++◌, OnSome, arith,
}
use buildbeaver.Base.Options.{◌>>=◌}
use buildbeaver.Queue.{select}
use buildbeaver.Paging.{
  Marker, DirectionalCursor, next_page, Cursor, Pagination, is_older, order_by, fetch, page_of,
  last_of, to_next, cursor_back, page_forwards, next_of, select_passing, All-any,
}

pub bind_congr {ℓ κ} :
    {A : Type ℓ} {B : Type κ} (o : Option A) (f g : A → Option B)
    → OnSome o (λ a. f a ≡ g a)
    → (o >>= f) ≡ (o >>= g)
bind_congr none f g h = refl
bind_congr (some a) f g h = h

pub bind_some {ℓ} : {A : Type ℓ} (o : Option A) → (o >>= some) ≡ o
bind_some none = refl
bind_some (some a) = refl

pub bind_assoc {ℓ κ} :
    {A : Type ℓ} {B : Type κ} (o : Option A) (f g : A → Option B) (h : B → Option B)
    → ((a : A) → f a ≡ (g a >>= h))
    → (o >>= f) ≡ ((o >>= g) >>= h)
bind_assoc none f g h e = refl
bind_assoc (some a) f g h e = e a

pub le→ltb : (a b : ℕ) → b ≤ a → ltb a b ≡ false
le→ltb a b h = ground arith

module _ {ℓ} {A : Type ℓ} where
  pub take-short : (n : ℕ) (xs : List A) → length xs ≤ n → take n xs ≡ xs
  take-short zero [] h = refl
  take-short zero (x ∷ xs) h = ground (arith, h)
  take-short (suc n) [] h = refl
  take-short (suc n) (x ∷ xs) h = ap (λ l. x ∷ l) (take-short n xs (omega (arith, h)))

  length-take_long : (n : ℕ) (xs : List A) → n ≤ length xs → length (take n xs) ≡ n
  length-take_long zero xs h = refl
  length-take_long (suc n) [] h = omega (arith, h)
  length-take_long (suc n) (x ∷ xs) h = ap suc (length-take_long n xs (omega (arith, h)))

  take-take-suc : (n : ℕ) (xs : List A) → take n (take (suc n) xs) ≡ take n xs
  take-take-suc zero xs = refl
  take-take-suc (suc n) [] = refl
  take-take-suc (suc n) (x ∷ xs) = ap (λ l. x ∷ l) (take-take-suc n xs)

  pub take-append-drop : (n : ℕ) (xs : List A) → take n xs ++ drop n xs ≡ xs
  take-append-drop zero xs = refl
  take-append-drop (suc n) [] = refl
  take-append-drop (suc n) (x ∷ xs) = ap (λ l. x ∷ l) (take-append-drop n xs)

  pub length-drop_le : (n : ℕ) (xs : List A) → length (drop n xs) ≤ length xs
  length-drop_le zero xs = omega arith
  length-drop_le (suc n) [] = omega arith
  length-drop_le (suc n) (x ∷ xs) = omega (arith, length-drop_le n xs)

module _ {A : Type 0} (marker : A → Marker) where
  -- The cursor of a page other than the first.
  abbrev pub cursor_at : Option Marker → Option DirectionalCursor
  cursor_at none = none
  cursor_at (some m) = some (record { direction = next_page; marker = m })

  abbrev pub is_after : Option Marker → A → Bool
  is_after none a = true
  is_after (some m) a = is_older m (marker a)

  abbrev pub page_at : ℕ → Option Marker → Pagination
  page_at k m = record { limit = suc k; cursor = cursor_at m }

  abbrev pub rows_after : Option Marker → List A → List A
  rows_after m rows = order_by marker is_older (select (is_after m) rows)

  pub fetch-rows_after :
      (k : ℕ) (m : Option Marker) (rows : List A)
      → fetch marker (page_at k m) rows ≡ take (suc (suc k)) (rows_after m rows)
  unfolding fetch
  fetch-rows_after k none rows =
      ap (λ l. take (suc (suc k)) (order_by marker is_older l))
        (sym (select_passing (λ a. true) rows (All-any rows λ a. refl)))
  fetch-rows_after k (some m) rows = refl

  -- The last page.
  pub page_of-short :
      (k : ℕ) (m : Option Marker) (rows : List A)
      → length rows ≤ suc k
      → (c : Option Cursor) × (page_of marker (page_at k m) rows ≡ some (rows, c))
        × (next_of c ≡ none)
  unfolding page_of cursor_back
  page_of-short k m [] h = (_, refl, refl)
  page_of-short k none (a ∷ r) h =
      (some (cursor_back marker none a r), rw (le→ltb _ _ h) refl, refl)
  page_of-short k (some m) (a ∷ r) h =
      (some (cursor_back marker (cursor_at (some m)) a r), rw (le→ltb _ _ h) refl, refl)

  page_of-long_more :
      (k : ℕ) (m : Option Marker) (a : A) (r : List A)
      → ltb (suc k) (suc (length (take (suc k) r))) ≡ true
      → page_of marker (page_at k m) (take (suc (suc k)) (a ∷ r))
        ≡ some (
          a ∷ take k r,
          some (record (cursor_back marker (cursor_at m) a (take (suc k) r)) {
            next = some (to_next marker (last_of marker a (take k r)));
          }),
        )
  unfolding page_of cursor_back page_forwards
  page_of-long_more k none a r more = rw (more, take-take-suc k r) refl
  page_of-long_more k (some m) a r more = rw (more, take-take-suc k r) refl

  pub page_of-long :
      (k : ℕ) (m : Option Marker) (a : A) (r : List A)
      → suc k < length (a ∷ r)
      → (c : Option Cursor) × (page_of marker (page_at k m) (take (suc (suc k)) (a ∷ r))
          ≡ some (a ∷ take k r, c))
        × (next_of c ≡ some (to_next marker (last_of marker a (take k r))))
  unfolding page_of cursor_back page_forwards
  page_of-long k m a r h =
      let e : length (take (suc k) r) ≡ suc k = length-take_long (suc k) r (omega (arith, h)) in
      let more : ltb (suc k) (suc (length (take (suc k) r))) ≡ true =
        lt→ltb _ _ (omega (arith, e)) in
      let c : Cursor = record (cursor_back marker (cursor_at m) a (take (suc k) r)) {
        next = some (to_next marker (last_of marker a (take k r)));
      } in
      (some c, page_of-long_more k m a r more, refl)
