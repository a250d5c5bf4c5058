-- ===== src/Queue/Table.antt =====
-- A database table as the list of its rows, found by a numeric primary key.
use buildbeaver.Base.{
  leb, ◌==◌, if◌then◌else◌, leb→le, Bool-cases, All, All-map, ℕ, ◌≤◌, ◌≡◌, refl, sym, subst, ◌≢◌,
  inl, inr, Bool, true, false, Option, none, some, List, [], ◌∷◌, arith,
}
use mathlib.Core.List.{Memᴰ}

module _ {A : Type 0} (key : A → ℕ) where
  -- The row with the key, if there is one.
  unfoldable pub find_row : ℕ → List A → Option A
  find_row id [] = none
  find_row id (r ∷ rs) = if key r == id then some r else find_row id rs

  -- The row with the key of the given one is replaced by it.
  unfoldable pub put_row : A → List A → List A
  put_row a [] = []
  put_row a (r ∷ rs) = if key r == key a then a ∷ rs else r ∷ put_row a rs

  pub find_row-key : (id : ℕ) (rs : List A) {r : A} → find_row id rs ≡ some r → key r ≡ id
  unfolding find_row
  find_row-key id [] h = cc
  find_row-key id (x ∷ rs) {r} h = ground (arith, find_row-key id rs {r = r})

  -- A read after a write.
  pub find_row-put_row :
      (id : ℕ) (a old : A) (rs : List A)
      → find_row (key a) rs ≡ some old
      → find_row id (put_row a rs) ≡ (if key a == id then some a else find_row id rs)
  unfolding find_row put_row
  find_row-put_row id a old [] h = cc
  find_row-put_row id a old (x ∷ rs) h = ground (arith, find_row-put_row id a old rs)

  pub find_row-put_row_own :
      (id : ℕ) (a old : A) (rs : List A)
      → key a ≡ id
      → find_row id rs ≡ some old
      → find_row id (put_row a rs) ≡ some a
  unfolding find_row put_row
  find_row-put_row_own id a old [] e h = cc
  find_row-put_row_own id a old (x ∷ rs) e h = ground (arith, find_row-put_row_own id a old rs)

  pub find_row-put_row_ne :
      (id : ℕ) (a : A) (rs : List A) → key a ≢ id → find_row id (put_row a rs) ≡ find_row id rs
  unfolding find_row put_row
  find_row-put_row_ne id a [] h = refl
  find_row-put_row_ne id a (x ∷ rs) h = ground (arith, find_row-put_row_ne id a rs)

-- The rows that pass a test, in their order.
unfoldable pub select {ℓ} : {A : Type ℓ} → (A → Bool) → List A → List A
select p [] = []
select p (x ∷ xs) = if p x then x ∷ select p xs else select p xs

pub select-none {ℓ} :
    {A : Type ℓ} (p : A → Bool) (xs : List A) → All (λ x. p x ≡ false) xs → select p xs ≡ []
unfolding select
select-none p [] h = refl
select-none p (x ∷ xs) h = rw h.0 (select-none p xs h.1)

All-if {ℓ κ} :
    {A : Type ℓ} (P : A → Type κ) (b : Bool) (x : A) (xs : List A)
    → All P (if b then x ∷ xs else xs)
    → All P xs
All-if P true x xs h = h.1
All-if P false x xs h = h

-- What holds of the rows that pass a test holds of those that pass a stronger one.
pub All-select {ℓ κ} :
    {A : Type ℓ} (P : A → Type κ) (p q : A → Bool) (xs : List A)
    → All P (select p xs)
    → ((x : A) → q x ≡ true → p x ≡ true)
    → All P (select q xs)
unfolding select
All-select P p q [] h f = tt
All-select P p q (x ∷ xs) h f = elim (Bool-cases (q x)) [
  | inl e ↦
      let h' : P x × All P (select p xs) =
        subst (λ b. All P (if b then x ∷ select p xs else select p xs)) (f x e) h in
      rw e (h'.0, All-select P p q xs h'.1 f)
  | inr e ↦ rw e (All-select P p q xs (All-if P (p x) x (select p xs) h) f)
]

-- The first row that passes a test.
unfoldable pub first {ℓ} : {A : Type ℓ} → (A → Bool) → List A → Option A
first p [] = none
first p (x ∷ xs) = if p x then some x else first p xs

module _ {A : Type 0} (time : A → ℕ) where
  unfoldable pub earlier : A → Option A → A
  earlier a none = a
  earlier a (some b) = if leb (time a) (time b) then a else b

  -- The first of the rows with the least time: `order by ... asc limit 1`, where the database chooses
  -- among equal times.
  unfoldable pub earliest : List A → Option A
  unfolding earlier
  earliest [] = none
  earliest (a ∷ rs) = some (earlier a (earliest rs))

  -- A chosen row is in the table and is ready, and no ready row was created before it; only if no row
  -- is ready, none is chosen.
  unfoldable pub Next : (A → Bool) → List A → Option A → Type 0
  Next ready rows none = All (λ k. ready k ≡ false) rows
  Next ready rows (some j) =
      Memᴰ j rows × (ready j ≡ true) × All (λ k. time j ≤ time k) (select ready rows)

  Next-cons :
      (ready : A → Bool) (k : A) (rows : List A) (o : Option A)
      → Next ready rows o
      → ready k ≡ true
      → Next ready (k ∷ rows) (some (earlier k o))
  unfolding Next earlier select
  Next-cons ready k rows none h r =
      (Memᴰ.head refl, r, rw r (omega arith, subst (All _) (sym (select-none ready rows h)) tt))
  Next-cons ready k rows (some j) h r = elim (Bool-cases (leb (time k) (time j))) [
    | inl f ↦
        subst (λ e. Next ready (k ∷ rows) (some e)) (sym (rw f refl))
          (
            Memᴰ.head refl,
            r,
            rw r (
              omega arith,
              All-map (select ready rows) h.2 λ x g. omega (arith, g, leb→le _ _ f),
            ),
          )
    | inr f ↦
        subst (λ e. Next ready (k ∷ rows) (some e)) (sym (rw f refl))
          (Memᴰ.tail h.0, h.1, rw r (ground (arith, f), h.2))
  ]

  Next-skip :
      (ready : A → Bool) (k : A) (rows : List A) (o : Option A)
      → Next ready rows o
      → ready k ≡ false
      → Next ready (k ∷ rows) o
  unfolding Next select
  Next-skip ready k rows none h r = (r, h)
  Next-skip ready k rows (some j) h r = (Memᴰ.tail h.0, h.1, rw r h.2)

  pub earliest-Next :
      (ready : A → Bool) (rows : List A) → Next ready rows (earliest (select ready rows))
  unfolding earliest Next select
  earliest-Next ready [] = tt
  earliest-Next ready (k ∷ rows) = elim (Bool-cases (ready k)) [
    | inl f ↦ rw f (Next-cons ready k rows _ (earliest-Next ready rows) f)
    | inr f ↦ rw f (Next-skip ready k rows _ (earliest-Next ready rows) f)
  ]
