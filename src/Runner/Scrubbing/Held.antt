-- ===== src/Runner/Scrubbing/Held.antt =====
-- What the scrubber holds back.
use buildbeaver.Base.{
  ltb, leb, leb→le, Bool-cases, length, take, drop, length-append, All, All-map, ℕ, zero, suc, ◌+◌,
  ◌-◌, ◌≤◌, ◌<◌, ◌≡◌, refl, sym, ap, subst, ◌∙◌, ◌⊎◌, inl, inr, false, List, [], ◌∷◌, ◌++◌, arith,
}
use buildbeaver.Models.{Text}
use mathlib.Core.List.{append_assoc}
use buildbeaver.Runner.Scrubbing.{
  SecretPlaintext, scrub, longest_secret_len, LogScrubber, flush_entries, flush, write_plain,
  text_of,
}
use buildbeaver.Runner.Scrubbing.Masks.{Proper, occurs}
use buildbeaver.Runner.Scrubbing.Stream.{
  visible, contrapose, starts_in, occurs-append, starts_in-mask, starts_in-short, Proper-Starless,
  scrub-keeps, length-scrub, occurs-scrub, visible-longest,
}

All-both {ℓ κ μ} :
    {A : Type ℓ} (P : A → Type κ) (Q : A → Type μ) (xs : List A)
    → All P xs
    → All Q xs
    → All (λ x. P x × Q x) xs
All-both P Q [] p q = tt
All-both P Q (x ∷ xs) p q = ((p.0, q.0), All-both P Q xs p.1 q.1)

take-drop : (n : ℕ) (t : Text) → take n t ++ drop n t ≡ t
take-drop zero t = refl
take-drop (suc n) [] = refl
take-drop (suc n) (c ∷ t) = ap (λ u. c ∷ u) (take-drop n t)

length-take_le : (n : ℕ) (t : Text) → length (take n t) ≤ n
length-take_le zero t = omega arith
length-take_le (suc n) [] = omega arith
length-take_le (suc n) (c ∷ t) = omega (arith, length-take_le n t)

-- A flush cuts the buffer in two, and passes on no more than it may.
flush_entries-text :
    (n : ℕ) (buf : Text) (es : List Text)
    → text_of (flush_entries n buf es).out ++ (flush_entries n buf es).buf ≡ buf
unfolding flush_entries text_of
flush_entries-text n buf [] = refl
flush_entries-text n buf (e ∷ es) = elim (Bool-cases (ltb n (length e))) [
  | inl f ↦ rw f refl
  | inr f ↦ rw f (
      append_assoc (take (length e) buf) _ _
      ∙ ap (λ u. take (length e) buf ++ u)
          (flush_entries-text (n - length e) (drop (length e) buf) es)
      ∙ take-drop (length e) buf)
]

flush_entries-length :
    (n : ℕ) (buf : Text) (es : List Text) → length (text_of (flush_entries n buf es).out) ≤ n
unfolding flush_entries text_of
flush_entries-length n buf [] = omega arith
flush_entries-length n buf (e ∷ es) = ground (
  arith,
  length-append (take (length e) buf)
      (text_of (flush_entries (n - length e) (drop (length e) buf) es).out),
  length-take_le (length e) buf,
  flush_entries-length (n - length e) (drop (length e) buf) es,
)

nil_of_length : (t : Text) → length t ≤ 0 → t ≡ []
nil_of_length [] h = refl
nil_of_length (c ∷ t) h = absurd (omega arith)

module _ (ss : List SecretPlaintext) (proper : All Proper (visible ss)) where
  -- The text that was passed on and the buffer hold no visible secret, and unless nothing was passed
  -- on, the buffer is at least as long as the longest of them.
  unfoldable pub Guarded : Text → Text → Type 0
  Guarded o buf =
      All (λ p. occurs p (o ++ buf) ≡ false) (visible ss)
      × ((o ≡ []) ⊎ (longest_secret_len ss ≤ length buf))

  starts_in-scrub :
      (p o buf t : Text)
      → Proper p
      → length p ≤ longest_secret_len ss
      → occurs p (o ++ buf) ≡ false
      → (o ≡ []) ⊎ (longest_secret_len ss ≤ length buf)
      → starts_in p o (scrub ss (buf ++ t)) ≡ false
  starts_in-scrub p o buf t h n f (inl e) =
      subst (λ o. starts_in p o (scrub ss (buf ++ t)) ≡ false) (sym e) (unfold starts_in in refl)
  starts_in-scrub p o buf t h n f (inr l) =
      scrub-keeps (λ u. starts_in p o u ≡ false)
        (λ s u _ e. contrapose (starts_in-mask p s 0 o u (Proper-Starless p h)) e) ss (buf ++ t)
        proper (starts_in-short p o buf t (omega arith) ∙ ground (arith, f, occurs-append p o buf))

  occurs-written :
      (o buf t : Text)
      → Guarded o buf
      → All (λ p. occurs p (o ++ scrub ss (buf ++ t)) ≡ false) (visible ss)
  unfolding Guarded
  occurs-written o buf t (g, l) =
      All-map (visible ss)
        (All-both _ _ (visible ss) (All-both _ _ (visible ss) proper (visible-longest ss))
          (All-both _ _ (visible ss) g (occurs-scrub ss (buf ++ t) proper)))
        λ p ((h, n), (f, m)).
          occurs-append p o (scrub ss (buf ++ t))
          ∙ ground (arith, m, starts_in-scrub p o buf t h n f l)

  -- What is held back after a flush of the scrubbed text.
  held :
      (o buf t m : Text) (out rest : Text)
      → out ++ rest ≡ m
      → length m ≡ length (buf ++ t)
      → length out ≤ length m - longest_secret_len ss
      → (o ≡ []) ⊎ (longest_secret_len ss ≤ length buf)
      → (o ++ out ≡ []) ⊎ (longest_secret_len ss ≤ length rest)
  held o buf t m out rest e f h l = elim (Bool-cases (leb (longest_secret_len ss) (length m))) [
    | inl b ↦ inr (
        omega (
          arith,
          leb→le (longest_secret_len ss) (length m) b,
          sym (length-append out rest) ∙ ap length e,
          h,
        ))
    | inr b ↦
        let short : length m < longest_secret_len ss = ground (arith, b) in
        elim l [
          | inl n ↦ inl (ap (λ u. u ++ out) n ∙ nil_of_length out (omega (arith, h, short)))
          | inr k ↦ absurd (omega (arith, k, f, short, length-append buf t))
        ]
  ]

  pub write_plain-Guarded :
      (o t : Text) (l : LogScrubber)
      → Guarded o l.buf
      → let (l', out) = write_plain ss t l in Guarded (o ++ text_of out) l'.buf
  unfolding write_plain flush Guarded
  write_plain-Guarded o t l g = (
    subst (λ u. All (λ p. occurs p u ≡ false) (visible ss))
        (ap (λ u. o ++ u) (sym cut) ∙ sym (append_assoc o _ _)) (occurs-written o l.buf t g),
    held o l.buf t m _ _ cut (length-scrub ss (l.buf ++ t) proper)
        (flush_entries-length (length m - longest_secret_len ss) m (l.entries ++ (t ∷ []))) g.1,
  )
    where
      m : Text
      m = scrub ss (l.buf ++ t)

      cut :
          text_of (flush_entries (length m - longest_secret_len ss) m (l.entries ++ (t ∷ []))).out
            ++ (flush_entries (length m - longest_secret_len ss) m (l.entries ++ (t ∷ []))).buf
          ≡ m
      cut = flush_entries-text (length m - longest_secret_len ss) m (l.entries ++ (t ∷ []))

  -- The lengths of what was written, and of what was passed on or is held.
  pub write_plain-length :
      (t : Text) (l : LogScrubber)
      → let (l', out) = write_plain ss t l in
        length (text_of out ++ l'.buf) ≡ length l.buf + length t
  unfolding write_plain flush
  write_plain-length t l =
      ap length (
        flush_entries-text (length (scrub ss (l.buf ++ t)) - longest_secret_len ss)
          (scrub ss (l.buf ++ t)) (l.entries ++ (t ∷ [])))
      ∙ length-scrub ss (l.buf ++ t) proper
      ∙ length-append l.buf t
