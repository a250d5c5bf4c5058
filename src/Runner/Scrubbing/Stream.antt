-- ===== src/Runner/Scrubbing/Stream.antt =====
-- The text that leaves the scrubber, with what it holds back.
use buildbeaver.Base.{
  ltb, if◌then◌else◌, length, length-append, All, All-map, ℕ, ◌≤◌, ◌≡◌, refl, sym, subst, ◌∙◌, ◌≢◌,
  Bool, true, false, ◌||◌, List, [], ◌∷◌, ◌++◌, arith,
}
use buildbeaver.Models.{Text, is_empty}
use mathlib.Core.List.{append_assoc}
use buildbeaver.Runner.Scrubbing.{
  SecretPlaintext, make_filler, starts_with, replace_all, scrub, longest_secret_len,
}
use buildbeaver.Runner.Scrubbing.Masks.{
  Proper, occurs, mask, replace_from-mask, length-mask, starts_with-mask, occurs-mask,
  occurs-mask_own,
}

abbrev Starless : Text → Type 0
Starless p = All (λ d. d ≢ b'*') p

-- The values of the secrets that are scrubbed.
unfoldable pub visible : List SecretPlaintext → List Text
visible [] = []
visible (s ∷ ss) = if s.is_internal then visible ss else s.value ∷ visible ss

pub contrapose : {b c : Bool} → (b ≡ true → c ≡ true) → c ≡ false → b ≡ false
contrapose {b = true} f h = sym (f refl) ∙ h
contrapose {b = false} f h = refl

-- An occurrence that starts in the first of two texts.
unfoldable pub starts_in : Text → Text → Text → Bool
starts_in p [] m = false
starts_in p (c ∷ o) m = starts_with p (c ∷ (o ++ m)) || starts_in p o m

pub occurs-append : (p o m : Text) → occurs p (o ++ m) ≡ (starts_in p o m || occurs p m)
unfolding occurs starts_in
occurs-append p [] m = refl
occurs-append p (c ∷ o) m = ground (arith, occurs-append p o m)

starts_with-append_mask :
    (p s : Text) (k : ℕ) (x t : Text)
    → Starless p
    → starts_with p (x ++ mask s k t) ≡ true
    → starts_with p (x ++ t) ≡ true
unfolding starts_with
starts_with-append_mask [] s k x t a h = refl
starts_with-append_mask (d ∷ p) s k [] t a h = starts_with-mask (d ∷ p) s k t a h
starts_with-append_mask (d ∷ p) s k (c ∷ x) t a h =
    ground (arith, h, starts_with-append_mask p s k x t a.1)

pub starts_in-mask :
    (p s : Text) (k : ℕ) (o t : Text)
    → Starless p
    → starts_in p o (mask s k t) ≡ true
    → starts_in p o t ≡ true
unfolding starts_in
starts_in-mask p s k [] t a h = h
starts_in-mask p s k (c ∷ o) t a h =
    ground (arith, h, starts_with-append_mask p s k (c ∷ o) t a, starts_in-mask p s k o t a)

starts_with-short : (p x t : Text) → length p ≤ length x → starts_with p (x ++ t) ≡ starts_with p x
unfolding starts_with
starts_with-short [] x t h = refl
starts_with-short (d ∷ p) [] t h = absurd (omega arith)
starts_with-short (d ∷ p) (c ∷ x) t h = ground (arith, starts_with-short p x t (omega arith))

pub starts_in-short :
    (p o b t : Text) → length p ≤ length b → starts_in p o (b ++ t) ≡ starts_in p o b
unfolding starts_in
starts_in-short p [] b t h = refl
starts_in-short p (c ∷ o) b t h = ground (
  arith,
  append_assoc o b t,
  length-append o b,
  starts_with-short p (c ∷ (o ++ b)) t (omega (arith, length-append o b)),
  starts_in-short p o b t h,
)

-- Replacing a secret is masking it.
replace_all-mask : (s t : Text) → Proper s → replace_all s (make_filler (length s)) t ≡ mask s 0 t
unfolding replace_all Proper is_empty make_filler
replace_all-mask [] t h = absurd h
replace_all-mask (c ∷ s) t h = replace_from-mask c s t 0 (omega arith)

pub Proper-Starless : (p : Text) → Proper p → Starless p
unfolding Proper
Proper-Starless [] h = tt
Proper-Starless (c ∷ p) h = h

-- What masking a secret keeps, scrubbing keeps.
pub scrub-keeps {ℓ} :
    (Q : Text → Type ℓ)
    → ((s t : Text) → Proper s → Q t → Q (mask s 0 t))
    → (ss : List SecretPlaintext) → (t : Text) → All Proper (visible ss)
    → Q t
    → Q (scrub ss t)
unfolding scrub visible
scrub-keeps Q f [] t a q = q
scrub-keeps Q f (s ∷ ss) t a q = at_secret s.is_internal (scrub-keeps Q f ss) a
  where
    at_secret :
        (b : Bool)
        → ((u : Text) → All Proper (visible ss) → Q u → Q (scrub ss u))
        → All Proper (if b then visible ss else s.value ∷ visible ss)
        → Q (
            if b
            then scrub ss t
            else scrub ss (replace_all s.value (make_filler (length s.value)) t))
    at_secret true rest a = rest t a q
    at_secret false rest a =
        rest (replace_all s.value (make_filler (length s.value)) t) a.1
          (subst Q (sym (replace_all-mask s.value t a.0)) (f s.value t a.0 q))

pub length-scrub :
    (ss : List SecretPlaintext) (t : Text)
    → All Proper (visible ss)
    → length (scrub ss t) ≡ length t
length-scrub ss t a =
    scrub-keeps (λ u. length u ≡ length t) (λ s u h e. length-mask s 0 u ∙ e) ss t a refl

-- No visible secret is left in a scrubbed text.
pub occurs-scrub :
    (ss : List SecretPlaintext) (t : Text)
    → All Proper (visible ss)
    → All (λ p. occurs p (scrub ss t) ≡ false) (visible ss)
unfolding scrub visible
occurs-scrub [] t a = tt
occurs-scrub (s ∷ ss) t a = at_secret s.is_internal (occurs-scrub ss) a
  where
    own : (p : Text) → Proper p → occurs p (mask p 0 t) ≡ false
    own [] h = unfold Proper in absurd h
    own (c ∷ p) h = occurs-mask_own c p 0 t (Proper-Starless (c ∷ p) h)

    at_secret :
        (b : Bool)
        → ((u : Text)
            → All Proper (visible ss)
            → All (λ p. occurs p (scrub ss u) ≡ false) (visible ss))
        → All Proper (if b then visible ss else s.value ∷ visible ss)
        → All
            (λ p.
              occurs p (
                if b
                then scrub ss t
                else scrub ss (replace_all s.value (make_filler (length s.value)) t))
              ≡ false)
            (if b then visible ss else s.value ∷ visible ss)
    at_secret true rest a = rest t a
    at_secret false rest a = (
      scrub-keeps (λ u. occurs s.value u ≡ false)
          (λ q u h e. contrapose (occurs-mask s.value q 0 u (Proper-Starless s.value a.0)) e) ss
          (replace_all s.value (make_filler (length s.value)) t) a.1
          (subst (λ u. occurs s.value u ≡ false) (sym (replace_all-mask s.value t a.0))
            (own s.value a.0)),
      rest (replace_all s.value (make_filler (length s.value)) t) a.1,
    )

pub visible-longest :
    (ss : List SecretPlaintext) → All (λ p. length p ≤ longest_secret_len ss) (visible ss)
unfolding longest_secret_len visible
visible-longest [] = tt
visible-longest (s ∷ ss) = at_secret s.is_internal (visible-longest ss)
  where
    longer : ℕ
    longer =
        if ltb (longest_secret_len ss) (length s.value)
        then length s.value
        else longest_secret_len ss

    at_secret :
        (b : Bool)
        → All (λ p. length p ≤ longest_secret_len ss) (visible ss)
        → All
            (λ p. length p ≤ (if b then longest_secret_len ss else longer))
            (if b then visible ss else s.value ∷ visible ss)
    at_secret true rest = rest
    at_secret false rest = (ground arith, All-map (visible ss) rest λ p h. ground (arith, h))
