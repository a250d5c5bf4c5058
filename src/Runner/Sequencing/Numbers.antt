-- ===== src/Runner/Sequencing/Numbers.antt =====
-- From the numbering of a log on the runner to its reading on the server.
use buildbeaver.Base.{
  if◌then◌else◌, Bool-cases, length, ℕ, ◌+◌, ◌≤◌, ◌<◌, ◌≡◌, refl, sym, ap, ◌∙◌, inl, inr, true,
  false, none, List, [], ◌∷◌, arith,
}
use buildbeaver.Models.{Text}
use buildbeaver.Logs.Reader.{
  Item, decoded, Blobs, new_window_reader, before_start, is_skipped, read_entries, stream,
  deduplicated,
}
use buildbeaver.Runner.Sequencing.{
  SequencedEntry, LogSequencer, new_log_sequencer, set_seq_no, set_line_no, sequence_entry,
  sequence_entries,
}
use buildbeaver.Logs.{Chunk}
use buildbeaver.Logs.Delivery.{read_entries-deduplicated}

-- The entries that are kept, as the server stores them, with their encoding.
unfoldable pub items_of : (SequencedEntry → Text) → List SequencedEntry → List Item
items_of encode [] = []
items_of encode (e ∷ es) =
    let rest = items_of encode es in
    if e.is_persistent then decoded e.seq_no (encode e) ∷ rest else rest

-- The entries that are kept, numbered from a first number.
unfoldable pub numbered : (SequencedEntry → Text) → ℕ → List SequencedEntry → List (ℕ × Text)
numbered encode n [] = []
numbered encode n (e ∷ es) =
    let kept = numbered encode (n + 1) es in
    let rest = numbered encode n es in if e.is_persistent then (n, encode e) ∷ kept else rest

set_line_no-seq_no :
    (l : LogSequencer) (e : SequencedEntry)
    → let (l', e') = set_line_no l e in
      (e'.is_persistent ≡ e.is_persistent)
      × (e'.seq_no ≡ e.seq_no)
      × (l'.next_seq_no ≡ l.next_seq_no)
unfolding set_line_no
set_line_no-seq_no l e = elim (Bool-cases e.is_line) [
  | inl t ↦ rw t (refl, refl, refl)
  | inr f ↦ rw f (refl, refl, refl)
]

-- The number that an entry gets, and the next.
abbrev Counted : ℕ → LogSequencer × SequencedEntry → Type 0
Counted n (l, e) =
    (e.is_persistent ≡ true → (e.seq_no ≡ n) × (l.next_seq_no ≡ (n + 1)))
    × (e.is_persistent ≡ false → l.next_seq_no ≡ n)

set_seq_no-Counted :
    (l : LogSequencer) (e : SequencedEntry) → Counted l.next_seq_no (set_seq_no l e)
unfolding set_seq_no
set_seq_no-Counted l e = elim (Bool-cases e.is_persistent) [
  | inl t ↦ rw t ((λ q. (refl, refl)), λ q. cc)
  | inr f ↦ rw f ((λ q. cc), λ q. refl)
]

sequence_entry-Counted :
    (l : LogSequencer) (e : SequencedEntry) → Counted l.next_seq_no (sequence_entry l e)
unfolding sequence_entry
sequence_entry-Counted l e =
    let (l₁, e₁) = set_seq_no l e in
    let (kept, passed) = set_seq_no-Counted l e in
    let (p, s, n) = set_line_no-seq_no l₁ e₁ in
    ((λ q. let (a, b) = kept (sym p ∙ q) in (s ∙ a, n ∙ b)), λ q. n ∙ passed (sym p ∙ q))

not_skipped : (last n k : ℕ) → last < n → k ≡ n → is_skipped none last k ≡ false
unfolding is_skipped before_start
not_skipped last n k h e = ground arith

Counted-delivered :
    (encode : SequencedEntry → Text) (last n : ℕ) (l : LogSequencer) (e : SequencedEntry)
    (es : List SequencedEntry)
    → last < n
    → Counted n (l, e)
    → ((k : ℕ)
        → k < l.next_seq_no
        → deduplicated none k (items_of encode es) ≡ numbered encode l.next_seq_no es)
    → deduplicated none last (items_of encode (e ∷ es)) ≡ numbered encode n (e ∷ es)
unfolding items_of numbered deduplicated
Counted-delivered encode last n l e es h (kept, passed) ih = elim (Bool-cases e.is_persistent) [
  | inl t ↦
      let (a, b) = kept t in
      ap
        (λ b.
          deduplicated none last
            (if b then decoded e.seq_no (encode e) ∷ items_of encode es else items_of encode es))
        t
      ∙ ap
          (λ b.
            if b
            then deduplicated none last (items_of encode es)
            else (e.seq_no, encode e) ∷ deduplicated none e.seq_no (items_of encode es))
          (not_skipped last n e.seq_no h a)
      ∙ ap (λ u. (e.seq_no, encode e) ∷ u) (ih e.seq_no (omega arith))
      ∙ ap (λ u. (u, encode e) ∷ numbered encode l.next_seq_no es) a
      ∙ ap (λ u. (n, encode e) ∷ numbered encode u es) b
      ∙ ap (λ b. if b then (n, encode e) ∷ numbered encode (n + 1) es else numbered encode n es)
          (sym t)
  | inr f ↦
      let m = passed f in
      ap
        (λ b.
          deduplicated none last
            (if b then decoded e.seq_no (encode e) ∷ items_of encode es else items_of encode es))
        f
      ∙ ih last (omega arith)
      ∙ ap (λ u. numbered encode u es) m
      ∙ ap (λ b. if b then (n, encode e) ∷ numbered encode (n + 1) es else numbered encode n es)
          (sym f)
]

sequence_entries-delivered :
    (encode : SequencedEntry → Text) (last : ℕ) (l : LogSequencer) (es : List SequencedEntry)
    → last < l.next_seq_no
    → deduplicated none last (items_of encode (sequence_entries l es))
      ≡ numbered encode l.next_seq_no (sequence_entries l es)
unfolding sequence_entries items_of numbered deduplicated
sequence_entries-delivered encode last l [] h = refl
sequence_entries-delivered encode last l (e ∷ es) h =
    let (l₁, e₁) = sequence_entry l e in
    Counted-delivered encode last l.next_seq_no l₁ e₁ (sequence_entries l₁ es) h
      (sequence_entry-Counted l e) λ k g. sequence_entries-delivered encode k l₁ es g

-- If the chunks of a window hold, in their order, the persistent entries that a new sequencer passed
-- on, then as many calls of `Next` as there are entries, or more, give each of them once, in their
-- order and numbered 1, 2, 3 and so on.
pub sequenced-delivered :
    (encode : SequencedEntry → Text) (es : List SequencedEntry) (get_blob : Blobs)
    (chunks : List Chunk) (k : ℕ)
    → stream get_blob chunks ≡ items_of encode (sequence_entries new_log_sequencer es)
    → length (stream get_blob chunks) ≤ k
    → read_entries get_blob k (new_window_reader chunks none)
      ≡ numbered encode 1 (sequence_entries new_log_sequencer es)
sequenced-delivered encode es get_blob chunks k e h =
    (read_entries-deduplicated get_blob chunks none k h).0
    ∙ ap (deduplicated none 0) e
    ∙ sequence_entries-delivered encode 0 new_log_sequencer es (omega arith)
