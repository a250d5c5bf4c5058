-- ===== src/Access/Lists.antt =====
-- Tests on the rows of a table when a row is added or rows are taken out.
use buildbeaver.Base.{
  Bool-cases, any, All, All-map, ◌≡◌, refl, ap, inl, inr, Bool, true, false, none, some, List, [],
  ◌∷◌, ◌++◌, arith,
}
use buildbeaver.Queue.{select, first}

pub any-own {ℓ} :
    {A : Type ℓ} (xs : List A) → All (λ x. (p : A → Bool) → p x ≡ true → any p xs ≡ true) xs
any-own [] = tt
any-own (x ∷ xs) = ((λ p h. rw h refl), All-map xs (any-own xs) λ y f p h. ground (arith, f p h))

pub any-kept {ℓ} :
    {A : Type ℓ} (h keep : A → Bool) (xs : List A)
    → All (λ x. h x ≡ true → keep x ≡ true) xs
    → any h xs ≡ true
    → any h (select keep xs) ≡ true
unfolding select
any-kept h keep [] k e = e
any-kept h keep (x ∷ xs) k e = elim (Bool-cases (keep x)) [
  | inl f ↦ elim (Bool-cases (h x)) [
    | inl g ↦ rw (f, g) refl
    | inr g ↦ rw (f, g) (any-kept h keep xs k.1 (ground (arith, e, g)))
  ]
  | inr f ↦ rw f (any-kept h keep xs k.1 (ground (arith, e, f, k.0)))
]

pub any-append_left {ℓ} :
    {A : Type ℓ} (h : A → Bool) (xs ys : List A) → any h xs ≡ true → any h (xs ++ ys) ≡ true
any-append_left h [] ys e = ground (arith, e)
any-append_left h (x ∷ xs) ys e = ground (arith, e, any-append_left h xs ys)

pub first-any {ℓ} :
    {A : Type ℓ} (p : A → Bool) (xs : List A) → any p xs ≡ true → (x : A) × (first p xs ≡ some x)
unfolding first
first-any p [] h = cc
first-any p (x ∷ xs) h = elim (Bool-cases (p x)) [
  | inl e ↦ (x, rw e refl)
  | inr e ↦ let (y, f) = first-any p xs (ground (arith, h, e)) in (y, rw e f)
]

pub first-none {ℓ} :
    {A : Type ℓ} (p : A → Bool) (xs : List A) → any p xs ≡ false → first p xs ≡ none
unfolding first
first-none p [] h = refl
first-none p (x ∷ xs) h = ground (arith, h, first-none p xs)

pub any-false {ℓ} :
    {A : Type ℓ} (p : A → Bool) (xs : List A) → All (λ x. p x ≡ false) xs → any p xs ≡ false
any-false p [] h = refl
any-false p (x ∷ xs) h = rw (h.0, any-false p xs h.1) refl

pub All-append_one {ℓ κ} :
    {A : Type ℓ} (P : A → Type κ) (xs : List A) (x : A) → All P xs → P x → All P (xs ++ (x ∷ []))
All-append_one P [] x h k = (k, tt)
All-append_one P (y ∷ xs) x h k = (h.0, All-append_one P xs x h.1 k)

pub any-append_one {ℓ} :
    {A : Type ℓ} (p : A → Bool) (xs : List A) (x : A) → p x ≡ true → any p (xs ++ (x ∷ [])) ≡ true
any-append_one p [] x h = rw h refl
any-append_one p (y ∷ xs) x h = ground (arith, any-append_one p xs x h)

pub select-append_one {ℓ} :
    {A : Type ℓ} (p : A → Bool) (xs : List A) (x : A)
    → p x ≡ false
    → select p (xs ++ (x ∷ [])) ≡ select p xs
unfolding select
select-append_one p [] x h = rw h refl
select-append_one p (y ∷ xs) x h = elim (Bool-cases (p y)) [
  | inl e ↦ rw e (ap (λ l. y ∷ l) (select-append_one p xs x h))
  | inr e ↦ rw e (select-append_one p xs x h)
]
