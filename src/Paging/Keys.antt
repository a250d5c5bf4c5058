-- ===== src/Paging/Keys.antt =====
-- Rows that are deleted by a key other than their IDs while they are being listed.
use buildbeaver.Base.{
  Bool-cases, any, All, All-map, ◌≡◌, refl, ap, ◌∙◌, inl, inr, Bool, true, false, not, ◌&&◌, List,
  [], ◌∷◌, arith,
}
use buildbeaver.Queue.{select}
use buildbeaver.Paging.{Marker, is_older, is_older_irrefl, All-kept, select-select}
use buildbeaver.Paging.Deletion.{All-both, select_comm}

-- The rows that are gone are not listed after the row of the marker.
pub deleted-after :
    {A : Type 0} (marker : A → Marker) (p gone : A → Bool) (m : Marker) (rows : List A)
    → All (λ b. is_older m (marker b) ≡ true → gone b ≡ false) (select p rows)
    → select (λ b. is_older m (marker b)) (select p (select (λ b. not (gone b)) rows))
      ≡ select (λ b. is_older m (marker b)) (select p rows)
deleted-after marker p gone m rows h =
    ap (select _) (select_comm p _ rows)
    ∙ select-select _ _ (select p rows) (All-map (select p rows) h λ b f e. ap not (f e))

module _ {A : Type 0} (same : A → A → Bool) where
  unfoldable pub HasUniqueKeys : List A → Type 0
  HasUniqueKeys [] = Unit
  HasUniqueKeys (a ∷ bs) = All (λ b. same a b ≡ false) bs × HasUniqueKeys bs

  pub select-HasUniqueKeys :
      (p : A → Bool) (bs : List A) → HasUniqueKeys bs → HasUniqueKeys (select p bs)
  unfolding HasUniqueKeys select
  select-HasUniqueKeys p [] h = tt
  select-HasUniqueKeys p (b ∷ bs) h = elim (Bool-cases (p b)) [
    | inl e ↦ rw e (All-kept _ p bs h.0, select-HasUniqueKeys p bs h.1)
    | inr e ↦ rw e (select-HasUniqueKeys p bs h.1)
  ]

  module _ (symmetric : (a b : A) → same a b ≡ same b a) where
    pub older_keys :
        (marker : A → Marker) (rows : List A)
        → HasUniqueKeys rows
        → All (λ a. All (λ b. is_older (marker a) (marker b) ≡ true → same b a ≡ false) rows) rows
    unfolding HasUniqueKeys
    older_keys marker [] d = tt
    older_keys marker (x ∷ xs) d = (
      (
        (λ h. cc (h, is_older_irrefl (marker x) (marker x) refl refl)),
        All-map xs d.0 λ b n h. symmetric b x ∙ n,
      ),
      All-both _ _ xs d.0 (older_keys marker xs d.1) λ a n h. ((λ g. n), h),
    )

    any_other_key :
        (g : A → Bool) (r : A) (rows : List A)
        → All (λ b. same r b ≡ false) rows
        → any (λ z. same r z && g z) rows ≡ false
    any_other_key g r [] h = refl
    any_other_key g r (b ∷ bs) h = rw (h.0, any_other_key g r bs h.1) refl

    -- A row is the only one that has its key.
    pub any_own_key :
        (g : A → Bool) (rows : List A)
        → ((a : A) → same a a ≡ true)
        → HasUniqueKeys rows
        → All (λ r. any (λ z. same r z && g z) rows ≡ g r) rows
    unfolding HasUniqueKeys
    any_own_key g [] r d = tt
    any_own_key g (x ∷ xs) r d = (
      ground (arith, r x, any_other_key g x xs d.0),
      All-both _ _ xs d.0 (any_own_key g xs r d.1) λ y n e. ground (arith, symmetric y x, n, e),
    )
