-- ===== src/Logs/Overlaps.antt =====
-- Chunks that make windows overlap.
use buildbeaver.Base.{
  if◌then◌else◌, ℕ, ◌≤◌, ◌<◌, ◌≡◌, refl, Bool, true, false, ◌||◌, List, [], ◌∷◌, ◌++◌, map, arith,
}
use buildbeaver.Logs.{
  Chunk, Window, Visit, align_end, align_start, overlaps_start, overlaps_end, subsumes, overlap,
  visit, merge_chunk, new_window, add_chunk,
}

-- The first sequence number of a window, and the first one behind it.
unfoldable pub bounds : Window → ℕ × ℕ
bounds w = (w.start_seq_no, w.end_seq_no)

visit-behind :
    (c : Chunk) (v : Window)
    → v.start_seq_no < v.end_seq_no
    → c.start_seq_no < c.end_seq_no
    → c.start_seq_no ≡ v.end_seq_no
    → ((visit c v).stop ≡ false)
      × ((visit c v).merged ≡ true)
      × (bounds (visit c v).window ≡ (v.start_seq_no, c.end_seq_no))
unfolding visit align_end align_start overlap overlaps_start overlaps_end subsumes bounds
visit-behind c v f h d = ground arith

visit-before :
    (c : Chunk) (w : Window)
    → w.start_seq_no < w.end_seq_no
    → c.start_seq_no < c.end_seq_no
    → c.end_seq_no ≡ w.start_seq_no
    → ((visit c w).stop ≡ true)
      × ((visit c w).merged ≡ true)
      × (bounds (visit c w).window ≡ (c.start_seq_no, w.end_seq_no))
unfolding visit align_end align_start overlap overlaps_start overlaps_end subsumes bounds
visit-before c w g h e = ground arith

-- If two windows and a chunk are not empty, and the chunk fills the gap between the windows, then it is
-- merged into both, and the two windows that are left overlap in the whole of the chunk.
pub filled_gap_overlaps :
    (c : Chunk) (v w : Window)
    → v.start_seq_no < v.end_seq_no
    → w.start_seq_no < w.end_seq_no
    → c.start_seq_no < c.end_seq_no
    → c.start_seq_no ≡ v.end_seq_no
    → c.end_seq_no ≡ w.start_seq_no
    → map bounds (add_chunk c (v ∷ w ∷ []))
      ≡ ((v.start_seq_no, c.end_seq_no) ∷ (c.start_seq_no, w.end_seq_no) ∷ [])
unfolding add_chunk merge_chunk
filled_gap_overlaps c v w f g h d e =
    at_visits (visit c v) (visit c w) (visit-behind c v f h d) (visit-before c w g h e)
  where
    -- The inner loop, on the two visits.
    two : Visit → Visit → List Window × Bool
    two p q =
        let rest : List Window × Bool =
          if q.stop then (q.window ∷ [], true) else (q.window ∷ [], q.merged || false) in
        if p.stop then (p.window ∷ w ∷ [], true) else (p.window ∷ rest.0, p.merged || rest.1)

    at_visits :
        (p q : Visit)
        → (p.stop ≡ false) × (p.merged ≡ true) × (bounds p.window ≡ (v.start_seq_no, c.end_seq_no))
        → (q.stop ≡ true) × (q.merged ≡ true) × (bounds q.window ≡ (c.start_seq_no, w.end_seq_no))
        → map bounds (if (two p q).1 then (two p q).0 else (two p q).0 ++ (new_window c ∷ []))
          ≡ ((v.start_seq_no, c.end_seq_no) ∷ (c.start_seq_no, w.end_seq_no) ∷ [])
    at_visits p q a b = rw (a.0, a.1, b.0, a.2, b.2) refl

-- A chunk that lies inside a window, with a later start and an earlier end, is not merged into it,
-- and becomes a window of its own.
pub inner_chunk_not_merged :
    (c : Chunk) (w : Window)
    → w.start_seq_no < c.start_seq_no
    → c.start_seq_no < c.end_seq_no
    → c.end_seq_no ≤ w.end_seq_no
    → add_chunk c (w ∷ []) ≡ (w ∷ new_window c ∷ [])
unfolding add_chunk merge_chunk visit align_end align_start overlap overlaps_start overlaps_end
    subsumes
inner_chunk_not_merged c w f g h = ground arith
