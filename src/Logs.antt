-- ===== src/Logs.antt =====
-- Logs on the server: backend/server/services/log/window_assembler.go, which merges the chunks of a
-- log into windows of contiguous sequence numbers.
pub mod Coverage
pub mod Overlaps
pub mod Writer
pub mod Storing
pub mod Reader
pub mod Delivery
mod Tests
use buildbeaver.Base.{
  ltb, leb, ◌==◌, if◌then◌else◌, ℕ, Bool, true, false, ◌&&◌, ◌||◌, List, [], ◌∷◌, ◌++◌, map,
}

-- `chunkDescriptor`: the blob is a number.
pub record Chunk : Type 0 where
  pub blob : ℕ
  pub start_seq_no : ℕ
  pub end_seq_no : ℕ

-- `chunkWindow`
pub record Window : Type 0 where
  pub chunks : List Chunk
  pub start_seq_no : ℕ
  pub end_seq_no : ℕ

-- A window on the way through the body of the inner loop of `mergeIntoWindows`; `stop` is a break.
pub record Visit : Type 0 where
  pub window : Window
  pub merged : Bool
  pub stop : Bool

-- The chunk starts where the window ends, or ends where it starts.
unfoldable pub align_end : Chunk → Visit → Visit
align_end c v =
    if c.start_seq_no == v.window.end_seq_no
    then record {
      window = record v.window { end_seq_no = c.end_seq_no; chunks = v.window.chunks ++ (c ∷ []) };
      merged = true;
      stop = false;
    }
    else v

unfoldable pub align_start : Chunk → Visit → Visit
align_start c v =
    if c.end_seq_no == v.window.start_seq_no
    then record {
      window = record v.window {
        start_seq_no = c.start_seq_no;
        chunks = v.window.chunks ++ (c ∷ []);
      };
      merged = true;
      stop = false;
    }
    else v

-- The chunk overlaps the start of the window, or its end, or covers it.
unfoldable pub overlaps_start : Chunk → Window → Bool
overlaps_start c w =
    leb c.start_seq_no w.start_seq_no
    && ltb w.start_seq_no c.end_seq_no
    && ltb c.end_seq_no w.end_seq_no

unfoldable pub overlaps_end : Chunk → Window → Bool
overlaps_end c w =
    leb w.start_seq_no c.start_seq_no
    && ltb c.start_seq_no w.end_seq_no
    && ltb w.end_seq_no c.end_seq_no

unfoldable pub subsumes : Chunk → Window → Bool
subsumes c w = leb c.start_seq_no w.start_seq_no && leb w.end_seq_no c.end_seq_no

unfoldable pub overlap : Chunk → Visit → Visit
overlap c v =
    if overlaps_start c v.window
    then record {
      window = record v.window {
        start_seq_no = c.start_seq_no;
        chunks = v.window.chunks ++ (c ∷ []);
      };
      merged = true;
      stop = true;
    }
    else if overlaps_end c v.window
    then record {
      window = record v.window { end_seq_no = c.end_seq_no; chunks = v.window.chunks ++ (c ∷ []) };
      merged = true;
      stop = true;
    }
    else if subsumes c v.window
    then record {
      window = record { start_seq_no = c.start_seq_no; end_seq_no = c.end_seq_no; chunks = c ∷ [] };
      merged = true;
      stop = true;
    }
    else v

-- The body of the inner loop.
unfoldable pub visit : Chunk → Window → Visit
unfolding align_end align_start overlap
visit c w =
    overlap c (align_start c (align_end c (record { window = w; merged = false; stop = false })))

-- The inner loop: the windows, and whether the chunk was merged into one of them.
unfoldable pub merge_chunk : Chunk → List Window → List Window × Bool
unfolding visit
merge_chunk c [] = ([], false)
merge_chunk c (w ∷ ws) =
    let v = visit c w in
    let rest = merge_chunk c ws in
    if v.stop then (v.window ∷ ws, true) else (v.window ∷ rest.0, v.merged || rest.1)

unfoldable pub new_window : Chunk → Window
new_window c = record { start_seq_no = c.start_seq_no; end_seq_no = c.end_seq_no; chunks = c ∷ [] }

-- A chunk that was not merged becomes a window.
unfoldable pub add_chunk : Chunk → List Window → List Window
unfolding merge_chunk new_window
add_chunk c ws = let m = merge_chunk c ws in if m.1 then m.0 else m.0 ++ (new_window c ∷ [])

unfoldable pub add_chunks : List Chunk → List Window → List Window
add_chunks [] ws = ws
add_chunks (c ∷ cs) ws = add_chunks cs (add_chunk c ws)

-- `sort.SliceStable` by a number.
module _ {A : Type 0} (key : A → ℕ) where
  unfoldable pub insert_sorted : A → List A → List A
  insert_sorted a [] = a ∷ []
  insert_sorted a (b ∷ bs) = if leb (key a) (key b) then a ∷ b ∷ bs else b ∷ insert_sorted a bs

  unfoldable pub sort_stable : List A → List A
  sort_stable [] = []
  sort_stable (a ∷ bs) = insert_sorted a (sort_stable bs)

abbrev pub window_start : Window → ℕ
window_start w = w.start_seq_no

abbrev pub chunk_start : Chunk → ℕ
chunk_start c = c.start_seq_no

unfoldable pub sort_chunks : Window → Window
sort_chunks w = record w { chunks = sort_stable chunk_start w.chunks }

unfoldable pub merge_into_windows : List Chunk → List Window
unfolding sort_chunks
merge_into_windows cs = map sort_chunks (sort_stable window_start (add_chunks cs []))
