-- ===== src/Paging/Deletion.antt =====
-- Rows that are deleted by their IDs while the rows of the table are being listed.
use buildbeaver.Base.{
  ◌==◌, Bool-cases, any, All, All-map, ◌≡◌, refl, sym, ap, ◌∙◌, ◌≢◌, inl, inr, Bool, true, false,
  not, ◌&&◌, ◌||◌, List, [], ◌∷◌, arith,
}
use buildbeaver.Queue.{select}
use buildbeaver.Paging.{
  Marker, is_older, insert_by, order_by, is_older_irrefl, All-any, IsListed, select_passing,
  select-select, HasDistinctIds, select-HasDistinctIds,
}

pub select-and {ℓ} :
    {A : Type ℓ} (p q : A → Bool) (xs : List A)
    → select p (select q xs) ≡ select (λ x. q x && p x) xs
unfolding select
select-and p q [] = refl
select-and p q (x ∷ xs) = elim (Bool-cases (q x)) [
  | inl e ↦ elim (Bool-cases (p x)) [
    | inl g ↦ rw (e, g) (ap (λ l. x ∷ l) (select-and p q xs))
    | inr g ↦ rw (e, g) (select-and p q xs)
  ]
  | inr e ↦ rw e (select-and p q xs)
]

pub select-ext {ℓ} :
    {A : Type ℓ} (p q : A → Bool) (xs : List A)
    → All (λ x. p x ≡ q x) xs
    → select p xs ≡ select q xs
unfolding select
select-ext p q [] h = refl
select-ext p q (x ∷ xs) h = elim (Bool-cases (q x)) [
  | inl e ↦ rw (h.0, e) (ap (λ l. x ∷ l) (select-ext p q xs h.1))
  | inr e ↦ rw (h.0, e) (select-ext p q xs h.1)
]

and_comm : (a b : Bool) → (a && b) ≡ (b && a)
and_comm true true = refl
and_comm true false = refl
and_comm false true = refl
and_comm false false = refl

pub and_swap : (a b c : Bool) → (a && (b && c)) ≡ (b && (a && c))
and_swap true true c = refl
and_swap true false c = refl
and_swap false true c = refl
and_swap false false c = refl

pub All-both {ℓ κ μ ν} :
    {A : Type ℓ} (P : A → Type κ) (Q : A → Type μ) {R : A → Type ν} (xs : List A)
    → All P xs
    → All Q xs
    → ((x : A) → P x → Q x → R x)
    → All R xs
All-both P Q [] h k f = tt
All-both P Q (x ∷ xs) h k f = (f x h.0 k.0, All-both P Q xs h.1 k.1 f)

-- The rows that no visited row deletes: one that is gone deletes the rows that it is the key of.
module _ {R Z : Type 0} (is_key : R → Z → Bool) (is_gone : Z → Bool) where
  abbrev pub left_by : List Z → List R → List R
  left_by zs = select λ r. not (any (λ z. is_key r z && is_gone z) zs)

  pub left_by-nil : (rows : List R) → left_by [] rows ≡ rows
  left_by-nil rows = select_passing _ rows (All-any rows λ r. refl)

  pub left_by-kept :
      (z : Z) (zs : List Z) (rows : List R)
      → is_gone z ≡ false
      → left_by zs rows ≡ left_by (z ∷ zs) rows
  left_by-kept z zs rows h = select-ext _ _ rows (All-any rows λ r. ground (arith, h))

  pub left_by-gone :
      (z : Z) (zs : List Z) (rows : List R)
      → is_gone z ≡ true
      → left_by zs (select (λ r. not (is_key r z)) rows) ≡ left_by (z ∷ zs) rows
  left_by-gone z zs rows h =
      select-and (λ r. not (any (λ z. is_key r z && is_gone z) zs)) (λ r. not (is_key r z)) rows
      ∙ select-ext _ _ rows (All-any rows λ r. ground (arith, h))

pub select_comm {ℓ} :
    {A : Type ℓ} (p q : A → Bool) (xs : List A) → select p (select q xs) ≡ select q (select p xs)
select_comm p q xs =
    select-and p q xs
    ∙ select-ext _ _ xs (All-any xs λ x. and_comm (q x) (p x))
    ∙ sym (select-and q p xs)

pub any-ext {ℓ} :
    {A : Type ℓ} (p q : A → Bool) (xs : List A) → ((x : A) → p x ≡ q x) → any p xs ≡ any q xs
any-ext p q [] h = refl
any-ext p q (x ∷ xs) h = rw (h x, any-ext p q xs h) refl

any-select {ℓ} :
    {A : Type ℓ} (h p : A → Bool) (xs : List A) → any h (select p xs) ≡ any (λ x. p x && h x) xs
unfolding select
any-select h p [] = refl
any-select h p (x ∷ xs) = elim (Bool-cases (p x)) [
  | inl e ↦ rw (e, any-select h p xs) refl
  | inr e ↦ rw (e, any-select h p xs) refl
]

module _ {A : Type 0} (marker : A → Marker) where
  any-insert_by :
      (before : Marker → Marker → Bool) (h : A → Bool) (a : A) (bs : List A)
      → any h (insert_by marker before a bs) ≡ (h a || any h bs)
  unfolding insert_by
  any-insert_by before h a [] = refl
  any-insert_by before h a (b ∷ bs) = ground (arith, any-insert_by before h a bs)

  any-order_by :
      (before : Marker → Marker → Bool) (h : A → Bool) (bs : List A)
      → any h (order_by marker before bs) ≡ any h bs
  unfolding order_by
  any-order_by before h [] = refl
  any-order_by before h (b ∷ bs) =
      any-insert_by before h b (order_by marker before bs)
      ∙ ap (λ t. h b || t) (any-order_by before h bs)

  pub any-listed_rows :
      (before : Marker → Marker → Bool) (h p : A → Bool) (rows : List A)
      → any h (order_by marker before (select p rows)) ≡ any (λ z. p z && h z) rows
  any-listed_rows before h p rows = any-order_by before h (select p rows) ∙ any-select h p rows

  older_ids :
      (rows : List A)
      → HasDistinctIds marker rows
      → All
          (λ a.
            All (λ b. is_older (marker a) (marker b) ≡ true → (marker b).id ≢ (marker a).id) rows)
          rows
  unfolding HasDistinctIds
  older_ids [] d = tt
  older_ids (x ∷ xs) d = (
    (
      (λ h. cc (h, is_older_irrefl (marker x) (marker x) refl refl)),
      All-map xs d.0 λ b n h e. n (sym e),
    ),
    All-both _ _ xs d.0 (older_ids xs d.1) λ a n h. ((λ g. n), h),
  )

  -- To delete a listed row leaves the rows that are listed after it.
  pub delete-after :
      (p : A → Bool) (a : A) (rows : List A)
      → HasDistinctIds marker rows
      → IsListed a (select p rows)
      → select
          (λ b. is_older (marker a) (marker b))
          (select p (select (λ b. not ((marker b).id == (marker a).id)) rows))
        ≡ select (λ b. is_older (marker a) (marker b)) (select p rows)
  delete-after p a rows d l =
      ap (select _) (select_comm p _ rows)
      ∙ select-select _ _ (select p rows) (
          All-map (select p rows)
            (l _ (older_ids (select p rows) (select-HasDistinctIds marker p rows d)))
            λ b n h. ground (arith, n h))

  any_other :
      (g : A → Bool) (r : A) (rows : List A)
      → All (λ b. (marker r).id ≢ (marker b).id) rows
      → any (λ z. (marker r).id == (marker z).id && g z) rows ≡ false
  any_other g r [] h = refl
  any_other g r (b ∷ bs) h = ground (arith, h.0, any_other g r bs h.1)

  -- A row is the only one that has its ID.
  any_own :
      (g : A → Bool) (rows : List A)
      → HasDistinctIds marker rows
      → All (λ r. any (λ z. (marker r).id == (marker z).id && g z) rows ≡ g r) rows
  unfolding HasDistinctIds
  any_own g [] d = tt
  any_own g (x ∷ xs) d = (
    ground (arith, any_other g x xs d.0),
    All-both _ _ xs d.0 (any_own g xs d.1) λ r n e. ground (arith, n, e),
  )

  -- A row of the table is among those that are listed and fail exactly if it passes both tests.
  pub any-listed :
      (before : Marker → Marker → Bool) (p f : A → Bool) (rows : List A)
      → HasDistinctIds marker rows
      → All
          (λ r.
            any
              (λ z. (marker r).id == (marker z).id && f z)
              (order_by marker before (select p rows))
            ≡ (p r && f r))
          rows
  any-listed before p f rows d = All-map rows (any_own (λ z. p z && f z) rows d) λ r e.
      any-listed_rows before _ p rows
      ∙ any-ext _ _ rows (λ z. and_swap (p z) ((marker r).id == (marker z).id) (f z))
      ∙ e
