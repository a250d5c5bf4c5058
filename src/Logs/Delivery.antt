-- ===== src/Logs/Delivery.antt =====
-- What the reader of a window delivers.
use buildbeaver.Base.{
  if◌then◌else◌, Bool-cases, length, ℕ, zero, suc, ◌≤◌, ◌<◌, ◌≡◌, refl, sym, ap, subst, ◌∙◌, inl,
  inr, false, Option, none, some, List, [], ◌∷◌, ◌++◌, arith,
}
use buildbeaver.Models.{Text}
use buildbeaver.Logs.{Chunk}
use buildbeaver.Logs.Reader.{
  Item, decoded, not_entry, malformed, Blobs, WindowReader, new_window_reader, is_skipped,
  ItemsRead, found, drained, broken, read_items, Answer, entry, all_done, read_error, fail, deliver,
  read_chunks, next_open, next_entry, read_entries, stream, deduplicated,
}

-- The entries to deliver, by what the loop over the items of a decoder gives.
abbrev after_items : Option ℕ → ℕ → List Item → ItemsRead → List (ℕ × Text)
after_items start last more (found n raw rest) = (n, raw) ∷ deduplicated start n (rest ++ more)
after_items start last more drained = deduplicated start last more
after_items start last more broken = []

deduplicated-append :
    (start : Option ℕ) (last : ℕ) (items more : List Item)
    → deduplicated start last (items ++ more)
      ≡ after_items start last more (read_items start last items)
unfolding deduplicated read_items
deduplicated-append start last [] more = refl
deduplicated-append start last (not_entry ∷ items) more = deduplicated-append start last items more
deduplicated-append start last (malformed ∷ items) more = refl
deduplicated-append start last (decoded n raw ∷ items) more =
    elim (Bool-cases (is_skipped start last n)) [
      | inl t ↦ rw t (deduplicated-append start last items more)
      | inr f ↦ rw f refl
    ]

-- The entries to deliver from a reader.
abbrev to_deliver : Blobs → WindowReader → List (ℕ × Text)
to_deliver get_blob r =
    deduplicated r.start_seq_no r.last_seq_no (r.decoder ++ stream get_blob r.chunks)

-- The entries to deliver go on as the answer of `Next` says.
abbrev Continues : Blobs → List (ℕ × Text) → WindowReader × Answer → Type 0
Continues get_blob xs (r, entry n raw) = (xs ≡ ((n, raw) ∷ to_deliver get_blob r)) × (r.err ≡ false)
Continues get_blob xs (r, all_done) = xs ≡ []
Continues get_blob xs (r, read_error) = xs ≡ []

after_read-Continues :
    (get_blob : Blobs) (r : WindowReader) (xs : List (ℕ × Text))
    (drained_to : WindowReader × Answer) (more : List Item) (x : ItemsRead)
    → r.err ≡ false
    → (stream get_blob r.chunks ≡ more)
    → (deduplicated r.start_seq_no r.last_seq_no more ≡ xs → Continues get_blob xs drained_to)
    → xs ≡ after_items r.start_seq_no r.last_seq_no more x
    → Continues get_blob xs (elim x as (λ _. WindowReader × Answer) [
      | found n raw rest ↦ deliver n raw rest r
      | drained ↦ drained_to
      | broken ↦ fail r
    ])
unfolding deliver fail
after_read-Continues get_blob r xs d more (found n raw rest) f m h e =
    (e ∙ ap (λ u. (n, raw) ∷ deduplicated r.start_seq_no n (rest ++ u)) (sym m), f)
after_read-Continues get_blob r xs d more drained f m h e = h (sym e)
after_read-Continues get_blob r xs d more broken f m h e = e

read_chunks-Continues :
    (get_blob : Blobs) (r : WindowReader) (cs : List Chunk) (xs : List (ℕ × Text))
    → r.err ≡ false
    → xs ≡ deduplicated r.start_seq_no r.last_seq_no (stream get_blob cs)
    → Continues get_blob xs (read_chunks get_blob r cs)
unfolding read_chunks stream deduplicated fail
read_chunks-Continues get_blob r [] xs f e = e
read_chunks-Continues get_blob r (c ∷ cs) xs f e =
    at_blob (get_blob c) (λ q. read_chunks-Continues get_blob r cs xs f (sym q)) e
  where
    at_blob :
        (o : Option (List Item))
        → (deduplicated r.start_seq_no r.last_seq_no (stream get_blob cs) ≡ xs
            → Continues get_blob xs (read_chunks get_blob r cs))
        → xs
          ≡ deduplicated r.start_seq_no r.last_seq_no (
              elim o as (λ _. List Item) [ some items ↦ items | none ↦ malformed ∷ [] ]
              ++ stream get_blob cs)
        → Continues get_blob xs (elim o as (λ _. WindowReader × Answer) [
          | none ↦ fail (record r { chunks = cs })
          | some items ↦
              elim (read_items r.start_seq_no r.last_seq_no items) as (λ _. WindowReader × Answer) [
                | found n raw more ↦ deliver n raw more (record r { chunks = cs })
                | drained ↦ read_chunks get_blob r cs
                | broken ↦ fail (record r { chunks = cs })
              ]
        ])
    at_blob none h q = q
    at_blob (some items) h q =
        after_read-Continues get_blob (record r { chunks = cs }) xs (read_chunks get_blob r cs)
          (stream get_blob cs) (read_items r.start_seq_no r.last_seq_no items) f refl h
          (q ∙ deduplicated-append r.start_seq_no r.last_seq_no items (stream get_blob cs))

next_entry-Continues :
    (get_blob : Blobs) (r : WindowReader)
    → r.err ≡ false
    → Continues get_blob (to_deliver get_blob r) (next_entry get_blob r)
unfolding next_entry next_open
next_entry-Continues get_blob r f =
    subst (Continues get_blob (to_deliver get_blob r))
      (ap (λ b. if b then (r, read_error) else next_open get_blob r) (sym f))
      (after_read-Continues get_blob r (to_deliver get_blob r) (read_chunks get_blob r r.chunks)
        (stream get_blob r.chunks) (read_items r.start_seq_no r.last_seq_no r.decoder) f refl
        (λ q. read_chunks-Continues get_blob r r.chunks (to_deliver get_blob r) f (sym q))
        (deduplicated-append r.start_seq_no r.last_seq_no r.decoder (stream get_blob r.chunks)))

none_left : (xs : List (ℕ × Text)) → length xs ≤ 0 → xs ≡ []
none_left [] h = refl
none_left (x ∷ xs) h = absurd (omega arith)

-- As many calls of `Next` as there are items left, or more, give the entries to deliver.
read_entries-delivers :
    (get_blob : Blobs) (k : ℕ) (r : WindowReader)
    → r.err ≡ false
    → length (to_deliver get_blob r) ≤ k
    → read_entries get_blob k r ≡ to_deliver get_blob r
unfolding read_entries
read_entries-delivers get_blob zero r f h = sym (none_left (to_deliver get_blob r) h)
read_entries-delivers get_blob (suc k) r f h =
    at_answer (next_entry get_blob r) (to_deliver get_blob r) h (read_entries-delivers get_blob k)
      (next_entry-Continues get_blob r f)
  where
    at_answer :
        (p : WindowReader × Answer) (xs : List (ℕ × Text))
        → length xs ≤ suc k
        → ((r' : WindowReader)
            → r'.err ≡ false
            → length (to_deliver get_blob r') ≤ k
            → read_entries get_blob k r' ≡ to_deliver get_blob r')
        → Continues get_blob xs p
        → elim p.1 as (λ _. List (ℕ × Text)) [
          | entry n raw ↦ (n, raw) ∷ read_entries get_blob k p.0
          | all_done ↦ []
          | read_error ↦ []
        ]
          ≡ xs
    at_answer (r', entry n raw) xs l ih (e, g) =
        ap (λ u. (n, raw) ∷ u) (ih r' g (let q = ap length e in omega arith)) ∙ sym e
    at_answer (r', all_done) xs l ih e = sym e
    at_answer (r', read_error) xs l ih e = sym e

deduplicated-length :
    (start : Option ℕ) (last : ℕ) (items : List Item)
    → length (deduplicated start last items) ≤ length items
unfolding deduplicated
deduplicated-length start last [] = omega arith
deduplicated-length start last (not_entry ∷ items) =
    let h = deduplicated-length start last items in omega arith
deduplicated-length start last (malformed ∷ items) = omega arith
deduplicated-length start last (decoded n raw ∷ items) =
    elim (Bool-cases (is_skipped start last n)) [
      | inl t ↦ rw t (let h = deduplicated-length start last items in omega arith)
      | inr e ↦ rw e (let h = deduplicated-length start n items in omega arith)
    ]

-- Sequence numbers that increase, and are above a first one.
pub Ascending : ℕ → List (ℕ × Text) → Type 0
Ascending last [] = Unit
Ascending last ((n, raw) ∷ xs) = (last < n) × Ascending n xs

delivered-above : (start : Option ℕ) (last n : ℕ) → is_skipped start last n ≡ false → last < n
unfolding is_skipped
delivered-above start last n e = ground arith

deduplicated-Ascending :
    (start : Option ℕ) (last : ℕ) (items : List Item)
    → Ascending last (deduplicated start last items)
unfolding deduplicated Ascending
deduplicated-Ascending start last [] = tt
deduplicated-Ascending start last (not_entry ∷ items) = deduplicated-Ascending start last items
deduplicated-Ascending start last (malformed ∷ items) = tt
deduplicated-Ascending start last (decoded n raw ∷ items) =
    elim (Bool-cases (is_skipped start last n)) [
      | inl t ↦ rw t (deduplicated-Ascending start last items)
      | inr f ↦ rw f (delivered-above start last n f, deduplicated-Ascending start n items)
    ]

-- As many calls of `Next` on a new reader as its chunks have items, or more, give the entries of the
-- chunks in their order, without those before the start and those that are no later than an earlier
-- one, until the first chunk or entry that cannot be read; their sequence numbers increase.
pub read_entries-deduplicated :
    (get_blob : Blobs) (chunks : List Chunk) (start : Option ℕ) (k : ℕ)
    → length (stream get_blob chunks) ≤ k
    → (read_entries get_blob k (new_window_reader chunks start)
        ≡ deduplicated start 0 (stream get_blob chunks))
      × Ascending 0 (read_entries get_blob k (new_window_reader chunks start))
read_entries-deduplicated get_blob chunks start k h =
    let l = deduplicated-length start 0 (stream get_blob chunks) in
    let e = read_entries-delivers get_blob k (new_window_reader chunks start) refl (omega arith) in
    (e, subst (Ascending 0) (sym e) (deduplicated-Ascending start 0 (stream get_blob chunks)))
