-- ===== src/Paging/Sorting.antt =====
-- How the order of a listing and the tests on its rows go together.
use buildbeaver.Base.{
  Bool-cases, length, suc, All, All-map, ◌≡◌, refl, sym, ap, subst, ◌∙◌, ◌≢◌, inl, inr, Bool, true,
  false, List, [], ◌∷◌, arith,
}
use buildbeaver.Queue.{select}
use buildbeaver.Paging.Listing.{Marker, is_older, insert_by, order_by}
use buildbeaver.Paging.Order.{is_older_trans, is_older_total, is_older_irrefl}

pub All-any {ℓ κ} : {A : Type ℓ} {P : A → Type κ} (xs : List A) → ((x : A) → P x) → All P xs
All-any [] f = tt
All-any (x ∷ xs) f = (f x, All-any xs f)

-- What holds of all the rows holds of this one.
abbrev pub IsListed {ℓ} : {A : Type ℓ} → A → List A → Type (ℓ ⊔ 1)
IsListed {A = A} a rows = (P : A → Type 0) → All P rows → P a

-- A test keeps what held.
pub All-kept {ℓ κ} :
    {A : Type ℓ} (P : A → Type κ) (p : A → Bool) (xs : List A) → All P xs → All P (select p xs)
unfolding select
All-kept P p [] h = tt
All-kept P p (x ∷ xs) h = elim (Bool-cases (p x)) [
  | inl e ↦ rw e (h.0, All-kept P p xs h.1)
  | inr e ↦ rw e (All-kept P p xs h.1)
]

pub All-passed {ℓ} : {A : Type ℓ} (p : A → Bool) (xs : List A) → All (λ x. p x ≡ true) (select p xs)
unfolding select
All-passed p [] = tt
All-passed p (x ∷ xs) = elim (Bool-cases (p x)) [
  | inl e ↦ rw e (e, All-passed p xs)
  | inr e ↦ rw e (All-passed p xs)
]

pub select_passing {ℓ} :
    {A : Type ℓ} (p : A → Bool) (xs : List A) → All (λ x. p x ≡ true) xs → select p xs ≡ xs
unfolding select
select_passing p [] h = refl
select_passing p (x ∷ xs) h = rw (h.0, select_passing p xs h.1) refl

-- Of two tests the stronger one decides.
pub select-select {ℓ} :
    {A : Type ℓ} (p q : A → Bool) (xs : List A)
    → All (λ x. q x ≡ true → p x ≡ true) xs
    → select q (select p xs) ≡ select q xs
unfolding select
select-select p q [] f = refl
select-select p q (x ∷ xs) f = elim (Bool-cases (q x)) [
  | inl e ↦ rw (f.0 e, e) (ap (λ l. x ∷ l) (select-select p q xs f.1))
  | inr e ↦ elim (Bool-cases (p x)) [
    | inl g ↦ rw (g, e) (select-select p q xs f.1)
    | inr g ↦ rw (g, e) (select-select p q xs f.1)
  ]
]

module _ {A : Type 0} (marker : A → Marker) where
  -- Each row is older than those before it.
  unfoldable pub Descending : List A → Type 0
  Descending [] = Unit
  Descending (a ∷ bs) = All (λ b. is_older (marker a) (marker b) ≡ true) bs × Descending bs

  unfoldable pub HasDistinctIds : List A → Type 0
  HasDistinctIds [] = Unit
  HasDistinctIds (a ∷ bs) = All (λ b. (marker a).id ≢ (marker b).id) bs × HasDistinctIds bs

  pub select-HasDistinctIds :
      (p : A → Bool) (bs : List A) → HasDistinctIds bs → HasDistinctIds (select p bs)
  unfolding HasDistinctIds select
  select-HasDistinctIds p [] h = tt
  select-HasDistinctIds p (b ∷ bs) h = elim (Bool-cases (p b)) [
    | inl e ↦ rw e (All-kept _ p bs h.0, select-HasDistinctIds p bs h.1)
    | inr e ↦ rw e (select-HasDistinctIds p bs h.1)
  ]

  module _ (before : Marker → Marker → Bool) where
    insert_by-All {κ} :
        (P : A → Type κ) (a : A) (bs : List A)
        → P a
        → All P bs
        → All P (insert_by marker before a bs)
    unfolding insert_by
    insert_by-All P a [] h k = (h, tt)
    insert_by-All P a (b ∷ bs) h k = elim (Bool-cases (before (marker a) (marker b))) [
      | inl e ↦ rw e (h, k)
      | inr e ↦ rw e (k.0, insert_by-All P a bs h k.1)
    ]

    pub order_by-All {κ} :
        (P : A → Type κ) (bs : List A) → All P bs → All P (order_by marker before bs)
    unfolding order_by
    order_by-All P [] h = tt
    order_by-All P (b ∷ bs) h = insert_by-All P b _ h.0 (order_by-All P bs h.1)

    length-insert_by :
        (a : A) (bs : List A) → length (insert_by marker before a bs) ≡ suc (length bs)
    unfolding insert_by
    length-insert_by a [] = refl
    length-insert_by a (b ∷ bs) = ground (arith, length-insert_by a bs)

    pub length-order_by : (bs : List A) → length (order_by marker before bs) ≡ length bs
    unfolding order_by
    length-order_by [] = refl
    length-order_by (b ∷ bs) = length-insert_by b _ ∙ ap suc (length-order_by bs)

  insert_by-Descending :
      (a : A) (bs : List A)
      → All (λ b. (marker a).id ≢ (marker b).id) bs
      → Descending bs
      → Descending (insert_by marker is_older a bs)
  unfolding insert_by Descending
  insert_by-Descending a [] h d = (tt, tt)
  insert_by-Descending a (b ∷ bs) h d = elim (Bool-cases (is_older (marker a) (marker b))) [
    | inl e ↦ rw e ((e, All-map bs d.0 λ c. is_older_trans (marker a) (marker b) (marker c) e), d)
    | inr e ↦ rw e (
      insert_by-All is_older (λ c. is_older (marker b) (marker c) ≡ true) a bs
          (is_older_total (marker a) (marker b) h.0 e) d.0,
      insert_by-Descending a bs h.1 d.1,
    )
  ]

  pub order_by-Descending :
      (bs : List A) → HasDistinctIds bs → Descending (order_by marker is_older bs)
  unfolding order_by HasDistinctIds Descending
  order_by-Descending [] h = tt
  order_by-Descending (b ∷ bs) h =
      insert_by-Descending b _ (order_by-All is_older _ bs h.0) (order_by-Descending bs h.1)

  insert_by-first :
      (a : A) (bs : List A)
      → All (λ b. is_older (marker a) (marker b) ≡ true) bs
      → insert_by marker is_older a bs ≡ a ∷ bs
  unfolding insert_by
  insert_by-first a [] h = refl
  insert_by-first a (b ∷ bs) h = rw h.0 refl

  module _ (p : A → Bool) where
    select-insert_by :
        (a : A) (bs : List A)
        → Descending bs
        → p a ≡ true
        → select p (insert_by marker is_older a bs) ≡ insert_by marker is_older a (select p bs)
    unfolding select insert_by Descending
    select-insert_by a [] d h = rw h refl
    select-insert_by a (b ∷ bs) d h = elim (Bool-cases (is_older (marker a) (marker b))) [
      | inl e ↦ elim (Bool-cases (p b)) [
        | inl g ↦ rw (e, h, g, e) refl
        | inr g ↦
            rw (e, h, g)
              (sym (
                insert_by-first a (select p bs) (
                  All-kept _ p bs
                    (All-map bs d.0 λ c. is_older_trans (marker a) (marker b) (marker c) e))))
      ]
      | inr e ↦ elim (Bool-cases (p b)) [
        | inl g ↦ rw (e, g, e) (ap (λ l. b ∷ l) (select-insert_by a bs d.1 h))
        | inr g ↦ rw (e, g) (select-insert_by a bs d.1 h)
      ]
    ]

    select-insert_by_other :
        (a : A) (bs : List A)
        → p a ≡ false
        → select p (insert_by marker is_older a bs) ≡ select p bs
    unfolding select insert_by
    select-insert_by_other a [] h = rw h refl
    select-insert_by_other a (b ∷ bs) h = elim (Bool-cases (is_older (marker a) (marker b))) [
      | inl e ↦ rw (e, h) refl
      | inr e ↦ elim (Bool-cases (p b)) [
        | inl g ↦ rw (e, g) (ap (λ l. b ∷ l) (select-insert_by_other a bs h))
        | inr g ↦ rw (e, g) (select-insert_by_other a bs h)
      ]
    ]

    -- A test on the listing is a test on the table.
    pub select-order_by :
        (bs : List A)
        → HasDistinctIds bs
        → select p (order_by marker is_older bs) ≡ order_by marker is_older (select p bs)
    unfolding select order_by HasDistinctIds
    select-order_by [] h = refl
    select-order_by (b ∷ bs) h = elim (Bool-cases (p b)) [
      | inl e ↦ rw e (
          select-insert_by b _ (order_by-Descending bs h.1) e
          ∙ ap (insert_by marker is_older b) (select-order_by bs h.1))
      | inr e ↦ rw e (select-insert_by_other b _ e ∙ select-order_by bs h.1)
    ]

  -- What is listed after the first row of a listing, if the test lets all rows pass that are older than one
  -- that it lets pass.
  pub listed_after :
      (p : A → Bool) (rows : List A) {x : A} {xs : List A}
      → HasDistinctIds rows
      → ((a b : A) → p a ≡ true → is_older (marker a) (marker b) ≡ true → p b ≡ true)
      → order_by marker is_older (select p rows) ≡ x ∷ xs
      → order_by marker is_older (select (λ a. is_older (marker x) (marker a)) rows) ≡ xs
  unfolding select Descending
  listed_after p rows {x} {xs} d f e =
      let q : A → Bool = λ a. is_older (marker x) (marker a) in
      let passed : All (λ a. p a ≡ true) (x ∷ xs) =
        subst (All (λ a. p a ≡ true)) e
          (order_by-All is_older _ (select p rows) (All-passed p rows)) in
      let dp = select-HasDistinctIds p rows d in
      let below : Descending (x ∷ xs) =
        subst Descending e (order_by-Descending (select p rows) dp) in
      ap (order_by marker is_older)
        (sym (select-select p q rows (All-any rows λ a. f x a passed.0)))
      ∙ sym (select-order_by q (select p rows) dp)
      ∙ ap (select q) e
      ∙ rw (is_older_irrefl (marker x) (marker x) refl refl) (select_passing q xs below.0)
