-- ===== src/Runner/Scrubbing/Masks.antt =====
-- What replacing secrets by stars leaves of a text.
use buildbeaver.Base.{
  if◌then◌else◌, Bool-cases, length, All, ℕ, zero, suc, ◌-◌, ◌≤◌, ◌≡◌, refl, ap, ◌≢◌, inl, inr,
  Bool, true, false, ◌||◌, [], ◌∷◌, ◌++◌, arith,
}
use buildbeaver.Models.{Text}
use buildbeaver.Runner.Scrubbing.{make_filler, starts_with, replace_from}

-- A secret that can be scrubbed: it is not empty, and has no stars.
unfoldable pub Proper : Text → Type 0
Proper [] = ⊥
Proper (c ∷ p) = All (λ d. d ≢ b'*') (c ∷ p)

unfoldable pub occurs : Text → Text → Bool
unfolding starts_with
occurs p [] = starts_with p []
occurs p (c ∷ t) = starts_with p (c ∷ t) || occurs p t

-- Replacing by stars, byte by byte.
unfoldable pub mask : Text → ℕ → Text → Text
unfolding starts_with
mask s k [] = []
mask s (suc k) (c ∷ t) = b'*' ∷ mask s k t
mask s zero (c ∷ t) =
    let matched = mask s (length s - 1) t in
    let rest = mask s zero t in if starts_with s (c ∷ t) then b'*' ∷ matched else c ∷ rest

starts_with-length : (p t : Text) → starts_with p t ≡ true → length p ≤ length t
unfolding starts_with
starts_with-length [] t h = omega arith
starts_with-length (c ∷ p) [] h = cc
starts_with-length (c ∷ p) (d ∷ t) h = omega (arith, starts_with-length p t (ground (arith, h)))

pub replace_from-mask :
    (c : ℕ) (s t : Text) (k : ℕ)
    → k ≤ length t
    → make_filler k ++ replace_from (c ∷ s) (make_filler (length (c ∷ s))) k t ≡ mask (c ∷ s) k t
unfolding replace_from mask make_filler
replace_from-mask c s [] zero h = refl
replace_from-mask c s [] (suc k) h = absurd (omega arith)
replace_from-mask c s (d ∷ t) (suc k) h =
    ap (λ u. b'*' ∷ u) (replace_from-mask c s t k (omega arith))
replace_from-mask c s (d ∷ t) zero h = elim (Bool-cases (starts_with (c ∷ s) (d ∷ t))) [
  | inl e ↦
      let i : suc (length s) - 1 ≡ length s = omega arith in
      rw (e, i)
        (ap (λ u. b'*' ∷ u)
          (replace_from-mask c s t (length s)
            (omega (arith, starts_with-length (c ∷ s) (d ∷ t) e))))
  | inr e ↦ rw e (ap (λ u. d ∷ u) (replace_from-mask c s t zero (omega arith)))
]

pub length-mask : (s : Text) (k : ℕ) (t : Text) → length (mask s k t) ≡ length t
unfolding mask
length-mask s k [] = refl
length-mask s (suc k) (c ∷ t) = ap suc (length-mask s k t)
length-mask s zero (c ∷ t) = ground (arith, length-mask s (length s - 1) t, length-mask s zero t)

pub starts_with-mask :
    (p s : Text) (k : ℕ) (t : Text)
    → All (λ d. d ≢ b'*') p
    → starts_with p (mask s k t) ≡ true
    → starts_with p t ≡ true
unfolding starts_with mask
starts_with-mask [] s k t a h = refl
starts_with-mask (c ∷ p) s k [] a h = h
starts_with-mask (c ∷ p) s (suc k) (d ∷ t) a h = absurd (a.0 (ground (arith, h)))
starts_with-mask (c ∷ p) s zero (d ∷ t) a h =
    ground (arith, a.0, h, starts_with-mask p s zero t a.1)

-- A proper text that occurs once a part was masked did so before.
pub occurs-mask :
    (p s : Text) (k : ℕ) (t : Text)
    → All (λ d. d ≢ b'*') p
    → occurs p (mask s k t) ≡ true
    → occurs p t ≡ true
unfolding occurs mask
occurs-mask p s k [] a h = h
occurs-mask p s (suc k) (c ∷ t) a h =
    ground (arith, h, starts_with-mask p s (suc k) (c ∷ t) a, occurs-mask p s k t a)
occurs-mask p s zero (c ∷ t) a h = ground (
  arith,
  h,
  starts_with-mask p s zero (c ∷ t) a,
  occurs-mask p s (length s - 1) t a,
  occurs-mask p s zero t a,
)

-- The text that is masked does not occur any more.
pub occurs-mask_own :
    (c : ℕ) (s : Text) (k : ℕ) (t : Text)
    → All (λ d. d ≢ b'*') (c ∷ s)
    → occurs (c ∷ s) (mask (c ∷ s) k t) ≡ false
unfolding occurs mask
occurs-mask_own c s k [] a = unfold starts_with in refl
occurs-mask_own c s (suc k) (d ∷ t) a =
    unfold starts_with in ground (arith, a.0, occurs-mask_own c s k t a)
occurs-mask_own c s zero (d ∷ t) a = elim (Bool-cases (starts_with (c ∷ s) (d ∷ t))) [
  | inl e ↦
      rw e (unfold starts_with in ground (arith, a.0, occurs-mask_own c s (length (c ∷ s) - 1) t a))
  | inr e ↦ rw e (
      ground
        (arith, e, starts_with-mask (c ∷ s) (c ∷ s) zero (d ∷ t) a, occurs-mask_own c s zero t a))
]
