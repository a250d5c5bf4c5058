-- ===== src/Logs/Coverage.antt =====
-- The sequence numbers that chunks and windows cover.
use buildbeaver.Base.{
  ltb, leb, any, all, ℕ, ◌≡◌, refl, ◌∙◌, Bool, true, ◌&&◌, ◌||◌, List, [], ◌∷◌, ◌++◌, map, arith,
}
use buildbeaver.Logs.{
  Chunk, Window, align_end, align_start, overlaps_start, overlaps_end, subsumes, overlap, visit,
  merge_chunk, new_window, add_chunk, add_chunks, insert_sorted, sort_stable, window_start,
  sort_chunks, merge_into_windows,
}

unfoldable pub in_chunk : ℕ → Chunk → Bool
in_chunk n c = leb c.start_seq_no n && ltb n c.end_seq_no

unfoldable pub in_window : ℕ → Window → Bool
in_window n w = leb w.start_seq_no n && ltb n w.end_seq_no

-- A chunk that ends behind its start, and windows that do.
unfoldable pub is_range : Chunk → Bool
is_range c = ltb c.start_seq_no c.end_seq_no

unfoldable pub is_window : Window → Bool
is_window w = ltb w.start_seq_no w.end_seq_no

-- One window: it stays one, a break is a merge, and it covers the chunk if that was merged.
visit-lem :
    (n : ℕ) (c : Chunk) (w : Window)
    → is_range c ≡ true
    → is_window w ≡ true
    → (is_window (visit c w).window ≡ true)
      × ((visit c w).stop ≡ true → (visit c w).merged ≡ true)
      × (in_window n (visit c w).window ≡ (in_window n w || ((visit c w).merged && in_chunk n c)))
unfolding visit align_end align_start overlap overlaps_start overlaps_end subsumes in_chunk
    in_window is_range is_window
visit-lem n c w r v = ground arith

merge_chunk-lem :
    (n : ℕ) (c : Chunk) (ws : List Window)
    → is_range c ≡ true
    → all is_window ws ≡ true
    → (all is_window (merge_chunk c ws).0 ≡ true)
      × (any (in_window n) (merge_chunk c ws).0
          ≡ (any (in_window n) ws || ((merge_chunk c ws).1 && in_chunk n c)))
unfolding merge_chunk
merge_chunk-lem n c [] r v = (refl, refl)
merge_chunk-lem n c (w ∷ ws) r v = ground (arith, visit-lem n c w, merge_chunk-lem n c ws)

any-append {ℓ} :
    {A : Type ℓ} (p : A → Bool) (xs : List A) (x : A) → any p (xs ++ (x ∷ [])) ≡ (any p xs || p x)
any-append p [] x = ground arith
any-append p (y ∷ ys) x = ground (arith, any-append p ys x)

all-append {ℓ} :
    {A : Type ℓ} (p : A → Bool) (xs : List A) (x : A) → all p (xs ++ (x ∷ [])) ≡ (all p xs && p x)
all-append p [] x = ground arith
all-append p (y ∷ ys) x = ground (arith, all-append p ys x)

add_chunk-lem :
    (n : ℕ) (c : Chunk) (ws : List Window)
    → is_range c ≡ true
    → all is_window ws ≡ true
    → (all is_window (add_chunk c ws) ≡ true)
      × (any (in_window n) (add_chunk c ws) ≡ (any (in_window n) ws || in_chunk n c))
unfolding add_chunk in_window in_chunk is_range is_window
add_chunk-lem n c ws r v = ground (
  arith,
  merge_chunk-lem n c ws,
  any-append (in_window n) (merge_chunk c ws).0 (new_window c),
  all-append is_window (merge_chunk c ws).0 (new_window c),
)

add_chunks-lem :
    (n : ℕ) (cs : List Chunk) (ws : List Window)
    → all is_range cs ≡ true
    → all is_window ws ≡ true
    → any (in_window n) (add_chunks cs ws) ≡ (any (in_window n) ws || any (in_chunk n) cs)
unfolding add_chunks
add_chunks-lem n [] ws r v = ground arith
add_chunks-lem n (c ∷ cs) ws r v =
    ground (arith, add_chunk-lem n c ws, add_chunks-lem n cs (add_chunk c ws))

any-insert_sorted :
    {A : Type 0} (key : A → ℕ) (p : A → Bool) (a : A) (bs : List A)
    → any p (insert_sorted key a bs) ≡ (p a || any p bs)
unfolding insert_sorted
any-insert_sorted key p a [] = refl
any-insert_sorted key p a (b ∷ bs) = ground (arith, any-insert_sorted key p a bs)

any-sort_stable :
    {A : Type 0} (key : A → ℕ) (p : A → Bool) (bs : List A) → any p (sort_stable key bs) ≡ any p bs
unfolding sort_stable
any-sort_stable key p [] = refl
any-sort_stable key p (b ∷ bs) =
    ground (arith, any-insert_sorted key p b (sort_stable key bs), any-sort_stable key p bs)

any-sort_chunks :
    (n : ℕ) (ws : List Window) → any (in_window n) (map sort_chunks ws) ≡ any (in_window n) ws
unfolding sort_chunks in_window
any-sort_chunks n [] = refl
any-sort_chunks n (w ∷ ws) = ground (arith, any-sort_chunks n ws)

-- If every chunk ends behind its start, then the windows cover the same sequence numbers as the
-- chunks: merging loses none, and adds none.
pub merge_into_windows-covers :
    (n : ℕ) (cs : List Chunk)
    → all is_range cs ≡ true
    → any (in_window n) (merge_into_windows cs) ≡ any (in_chunk n) cs
unfolding merge_into_windows
merge_into_windows-covers n cs r =
    any-sort_chunks n (sort_stable window_start (add_chunks cs []))
    ∙ any-sort_stable window_start (in_window n) (add_chunks cs [])
    ∙ add_chunks-lem n cs [] r refl
