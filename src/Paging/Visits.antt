-- ===== src/Paging/Visits.antt =====
-- Each row of a listing is visited once, however the listing is cut into pages.
use buildbeaver.Base.{
  leb, leb→le, Bool-cases, length, take, drop, ℕ, zero, suc, ◌≤◌, ◌<◌, ◌≡◌, refl, sym, ap, subst,
  ◌∙◌, All, inl, inr, true, Option, none, some, List, [], ◌∷◌, ◌++◌, OnSome, OnSome-map, arith,
}
use buildbeaver.Base.Options.{◌>>=◌, OnSome->>=}
use buildbeaver.Queue.{select}
use buildbeaver.Paging.{
  Marker, is_older, order_by, list_in, last_of, to_next, each_row, each_page, is_older_trans,
  select_passing, HasDistinctIds, listed_after, All-any, length-order_by, IsListed, All-kept,
  order_by-All,
}
use buildbeaver.Paging.Pages.{
  bind_congr, bind_some, bind_assoc, take-short, take-append-drop, length-drop_le, cursor_at,
  is_after, rows_after, fetch-rows_after, page_of-short, page_of-long,
}

module _ {A S : Type 0} (marker : A → Marker) (listed : S → List A) (body : A → S → Option S)
    (Inv : S → Type 0) (distinct : (s : S) → Inv s → HasDistinctIds marker (listed s))
    (keeps : (a : A) (s : S)
      → Inv s
      → IsListed a (listed s)
      → OnSome (body a s) λ s'.
        Inv s'
        × (select (λ b. is_older (marker a) (marker b)) (listed s')
            ≡ select (λ b. is_older (marker a) (marker b)) (listed s))) where
  abbrev rest_of : S → Option Marker → List A
  rest_of s m = rows_after marker m (listed s)

  rest_of-tail :
      (s : S) (m : Option Marker) {x : A} {xs : List A}
      → Inv s
      → rest_of s m ≡ x ∷ xs
      → rest_of s (some (marker x)) ≡ xs
  rest_of-tail s none {x} i e =
      listed_after marker (is_after marker none) (listed s) (distinct s i) (λ a b h k. refl) e
  rest_of-tail s (some m) {x} i e =
      listed_after marker (is_after marker (some m)) (listed s) (distinct s i)
        (λ a b. is_older_trans m (marker a) (marker b)) e

  IsListed-rest :
      (s : S) (m : Option Marker) {x : A} {xs : List A}
      → rest_of s m ≡ x ∷ xs
      → IsListed x (listed s)
  IsListed-rest s m e P h =
      (subst (All P) e
        (order_by-All marker is_older P _ (All-kept P (is_after marker m) (listed s) h))).0

  -- What is left of the listing when the first rows of it have been visited.
  each_row-rest :
      (y : A) (ys zs : List A) (s : S) (m : Option Marker)
      → Inv s
      → rest_of s m ≡ y ∷ ys ++ zs
      → OnSome
          (each_row marker listed body (y ∷ ys) s)
          λ s'. Inv s' × (rest_of s' (some (marker (last_of marker y ys))) ≡ zs)
  unfolding each_row
  each_row-rest y [] zs s m i e =
      OnSome->>= _ (body y s) _ (keeps y s i (IsListed-rest s m e))
        λ s' (i', same). (i', ap (order_by marker is_older) same ∙ rest_of-tail s m i e)
  each_row-rest y (x ∷ xs) zs s m i e =
      OnSome->>= _ (body y s) _ (keeps y s i (IsListed-rest s m e)) λ s' (i', same).
        each_row-rest x xs zs s' (some (marker y)) i'
          (ap (order_by marker is_older) same ∙ rest_of-tail s m i e)

  each_row-append :
      (xs ys : List A) (s : S)
      → each_row marker listed body (xs ++ ys) s
        ≡ (each_row marker listed body xs s >>= each_row marker listed body ys)
  unfolding each_row
  each_row-append [] ys s = refl
  each_row-append (x ∷ xs) ys s = bind_assoc (body x s) _ _ _ (each_row-append xs ys)

  each_page-last :
      (n k : ℕ) (m : Option Marker) (s : S) (rows : List A)
      → rest_of s m ≡ rows
      → length rows ≤ suc k
      → each_page marker listed body (suc n) (suc k) (cursor_at marker m) s
        ≡ each_row marker listed body rows s
  unfolding each_page list_in
  each_page-last n k m s rows e h =
      let (c, page, end) = page_of-short marker k m rows h in
      rw
        (
          fetch-rows_after marker k m (listed s),
          e,
          take-short (suc (suc k)) rows (omega (arith, h)),
          page,
          end,
        )
        (bind_some (each_row marker listed body rows s))

  each_page-first :
      (n k : ℕ) (m : Option Marker) (s : S) (a : A) (r : List A)
      → rest_of s m ≡ a ∷ r
      → suc k < length (a ∷ r)
      → each_page marker listed body (suc n) (suc k) (cursor_at marker m) s ≡ (
          each_row marker listed body (a ∷ take k r) s
          >>= each_page marker listed body n
              (suc k)
              (cursor_at marker (some (marker (last_of marker a (take k r))))))
  unfolding each_page list_in to_next
  each_page-first n k m s a r e h =
      let (c, page, next) = page_of-long marker k m a r h in
      rw (fetch-rows_after marker k m (listed s), e, page, next) refl

  each_page-all :
      (n k : ℕ) (m : Option Marker) (s : S) (rows : List A)
      → Inv s
      → rest_of s m ≡ rows
      → length rows ≤ n
      → each_page marker listed body (suc n) (suc k) (cursor_at marker m) s
        ≡ each_row marker listed body rows s
  unfolding each_page list_in
  each_page-all n k m s [] i e h = each_page-last n k m s [] e (omega arith)
  each_page-all zero k m s (a ∷ r) i e h = ground (arith, h)
  each_page-all (suc n) k m s (a ∷ r) i e h = elim (Bool-cases (leb (length (a ∷ r)) (suc k))) [
    | inl short ↦ each_page-last (suc n) k m s (a ∷ r) e (leb→le _ _ short)
    | inr long ↦
        each_page-first (suc n) k m s a r e (ground (arith, long))
        ∙ bind_congr (each_row marker listed body (a ∷ take k r) s) _ _ (
            OnSome-map _ _ (each_row marker listed body (a ∷ take k r) s)
              (each_row-rest a (take k r) (drop k r) s m i
                (e ∙ ap (λ l. a ∷ l) (sym (take-append-drop k r))))
              λ s' (i', rest).
                each_page-all n k (some (marker (last_of marker a (take k r)))) s' (drop k r) i'
                  rest (omega (arith, h, length-drop_le k r)))
        ∙ sym (each_row-append (a ∷ take k r) (drop k r) s)
        ∙ ap (λ l. each_row marker listed body (a ∷ l) s) (take-append-drop k r)
  ]

  -- With one page more than there are rows as the bound, the loop over the pages, of one row or more,
  -- visits each row that is listed at its start once, from the newest to the oldest.
  pub each_page-each_row :
      (k : ℕ) (s : S)
      → Inv s
      → each_page marker listed body (suc (length (listed s))) (suc k) none s
        ≡ each_row marker listed body (order_by marker is_older (listed s)) s
  each_page-each_row k s i =
      each_page-all (length (listed s)) k none s _ i
        (ap (order_by marker is_older)
          (select_passing (λ a. true) (listed s) (All-any (listed s) λ a. refl)))
        (omega (arith, length-order_by marker is_older (listed s)))
