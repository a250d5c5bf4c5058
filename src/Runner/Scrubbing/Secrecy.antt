-- ===== src/Runner/Scrubbing/Secrecy.antt =====
-- What the next writer of the pipeline gets to see.
use buildbeaver.Base.{
  if◌then◌else◌, length, length-append, All, All-map, ◌+◌, ◌≤◌, ◌≡◌, refl, sym, ap, subst, ◌∙◌, ◌⊎◌,
  inl, inr, false, List, [], ◌∷◌, ◌++◌, arith,
}
use buildbeaver.Models.{Text}
use mathlib.Core.List.{append_assoc, append-nil}
use buildbeaver.Runner.Scrubbing.{
  SecretPlaintext, LogEntry, plain, structural, starts_with, longest_secret_len, LogScrubber,
  new_log_scrubber, flush, write_plain, write_open, write_entry, write_entries, text_of,
}
use buildbeaver.Runner.Scrubbing.Masks.{Proper, occurs}
use buildbeaver.Runner.Scrubbing.Stream.{visible}
use buildbeaver.Runner.Scrubbing.Held.{Guarded, write_plain-Guarded, write_plain-length}

text_of-append : (xs ys : List LogEntry) → text_of (xs ++ ys) ≡ text_of xs ++ text_of ys
unfolding text_of
text_of-append [] ys = refl
text_of-append (plain t ∷ xs) ys =
    ap (λ u. t ++ u) (text_of-append xs ys) ∙ sym (append_assoc t (text_of xs) (text_of ys))
text_of-append (structural n ∷ xs) ys = text_of-append xs ys

-- One write to an open scrubber.
Wrote : List SecretPlaintext → Text → LogEntry → LogScrubber → LogScrubber × List LogEntry → Type 0
Wrote ss o e l (l', out) =
    (All (λ p. occurs p ((o ++ text_of out) ++ l'.buf) ≡ false) (visible ss)
      × ((o ++ text_of out ≡ []) ⊎ (longest_secret_len ss ≤ length l'.buf)))
    × (length (text_of out ++ l'.buf) ≡ length l.buf + length (text_of (e ∷ [])))
    × (l'.log_closed ≡ l.log_closed)

write_open-Wrote :
    (ss : List SecretPlaintext) (proper : All Proper (visible ss)) (o : Text) (e : LogEntry)
    (l : LogScrubber)
    → Guarded ss proper o l.buf
    → Wrote ss o e l (write_open ss e l)
unfolding write_open Wrote Guarded text_of
write_open-Wrote [] proper o (plain t) l g =
    unfold visible longest_secret_len in
    ((tt, inr (omega arith)), omega (arith, length-append (t ++ []) l.buf), refl)
write_open-Wrote [] proper o (structural n) l g =
    unfold visible longest_secret_len in ((tt, inr (omega arith)), omega arith, refl)
write_open-Wrote (s ∷ ss) proper o (structural n) l g = (
  subst
      (λ u.
        All (λ p. occurs p (u ++ l.buf) ≡ false) (visible (s ∷ ss))
        × ((u ≡ []) ⊎ (longest_secret_len (s ∷ ss) ≤ length l.buf)))
      (sym (append-nil o)) g,
  omega arith,
  refl,
)
write_open-Wrote (s ∷ ss) proper o (plain t) l g = (
  write_plain-Guarded (s ∷ ss) proper o t l g,
  write_plain-length (s ∷ ss) proper t l ∙ omega (arith, length-append t []),
  unfold write_plain flush in refl,
)

write_entry-Wrote :
    (ss : List SecretPlaintext) (proper : All Proper (visible ss)) (o : Text) (e : LogEntry)
    (l : LogScrubber)
    → l.log_closed ≡ false
    → Guarded ss proper o l.buf
    → Wrote ss o e l (write_entry ss e l)
unfolding write_entry
write_entry-Wrote ss proper o e l c g =
    subst (λ b. Wrote ss o e l (if b then (l, []) else write_open ss e l)) (sym c)
      (write_open-Wrote ss proper o e l g)

write_entries-Guarded :
    (ss : List SecretPlaintext) (proper : All Proper (visible ss)) (es : List LogEntry) (o : Text)
    (l : LogScrubber)
    → l.log_closed ≡ false
    → Guarded ss proper o l.buf
    → let (l', out) = write_entries ss es l in
      Guarded ss proper (o ++ text_of out) l'.buf
      × (length (text_of out ++ l'.buf) ≡ length l.buf + length (text_of es))
unfolding write_entries Guarded Wrote
write_entries-Guarded ss proper [] o l c g =
    unfold text_of in
    (
      subst
          (λ u.
            All (λ p. occurs p (u ++ l.buf) ≡ false) (visible ss)
            × ((u ≡ []) ⊎ (longest_secret_len ss ≤ length l.buf)))
          (sym (append-nil o)) g,
      omega arith,
    )
write_entries-Guarded ss proper (e ∷ es) o l c g =
    let (l₁, out₁) = write_entry ss e l in
    let (l₂, out₂) = write_entries ss es l₁ in
    let (g₁, n₁, c₁) = write_entry-Wrote ss proper o e l c g in
    let (g₂, n₂) = write_entries-Guarded ss proper es (o ++ text_of out₁) l₁ (c₁ ∙ c) g₁ in
    (
      subst
          (λ u.
            All (λ p. occurs p (u ++ l₂.buf) ≡ false) (visible ss)
            × ((u ≡ []) ⊎ (longest_secret_len ss ≤ length l₂.buf)))
          (append_assoc o (text_of out₁) (text_of out₂)
            ∙ ap (λ u. o ++ u) (sym (text_of-append out₁ out₂)))
          g₂,
      omega (
        arith,
        n₁,
        n₂,
        length-append (text_of out₁) l₁.buf,
        length-append (text_of out₂) l₂.buf,
        length-append (text_of (out₁ ++ out₂)) l₂.buf,
        ap length (text_of-append out₁ out₂),
        length-append (text_of out₁) (text_of out₂),
        ap length (text_of-append (e ∷ []) es),
        length-append (text_of (e ∷ [])) (text_of es),
      ),
    )

occurs_in_nothing : (ps : List Text) → All Proper ps → All (λ p. occurs p [] ≡ false) ps
occurs_in_nothing ps h = All-map ps h at_text
  where
    at_text : (p : Text) → Proper p → occurs p [] ≡ false
    at_text [] h = unfold Proper in absurd h
    at_text (c ∷ p) h = unfold occurs starts_with in refl

-- Whatever entries are written to a new scrubber, no secret that is not internal occurs in the text
-- that was passed on, continued by the text that is held back; and this text is as long as what was
-- written. The secrets are not empty and have no stars.
pub write_entries-scrubbed :
    (ss : List SecretPlaintext) (es : List LogEntry)
    → All Proper (visible ss)
    → let (l, out) = write_entries ss es new_log_scrubber in
      All (λ p. occurs p (text_of out ++ l.buf) ≡ false) (visible ss)
      × (length (text_of out ++ l.buf) ≡ length (text_of es))
unfolding Guarded
write_entries-scrubbed ss es proper =
    let (g, n) =
      write_entries-Guarded ss proper es [] new_log_scrubber refl
        (occurs_in_nothing (visible ss) proper, inl refl) in
    (g.0, omega (arith, n))
