-- ===== src/Logs/Tests.antt =====
-- The theorems about windows at concrete chunks.
use buildbeaver.Base.{
  ◌==◌, if◌then◌else◌, any, ℕ, ◌≡◌, refl, true, none, some, List, [], ◌∷◌, ◌++◌, map, arith,
}
use buildbeaver.Logs.{Chunk, merge_into_windows}
use buildbeaver.Logs.Coverage.{in_chunk, in_window, is_range, merge_into_windows-covers}
use buildbeaver.Models.{codes}
use buildbeaver.Logs.Writer.{
  Blob, new_writer, Message, entry_in, flush_request, chunk_expired, handle_message,
  handle_messages, sent, stored,
}
use buildbeaver.Logs.Storing.{flush_request-stored}
use buildbeaver.Logs.Reader.{
  decoded, not_entry, Blobs, new_window_reader, read_entries, stream, deduplicated,
}
use buildbeaver.Logs.Delivery.{Ascending, read_entries-deduplicated}

abbrev chunk : ℕ → ℕ → Chunk
chunk from to = record { blob = from; start_seq_no = from; end_seq_no = to }

-- Sequence number 6 is in the window that the second chunk fills.
merge_into_windows-covers_example :
    any (in_window 6) (merge_into_windows (chunk 0 5 ∷ chunk 10 15 ∷ chunk 5 10 ∷ [])) ≡ true
unfolding is_range in_chunk
merge_into_windows-covers_example =
    merge_into_windows-covers 6 (chunk 0 5 ∷ chunk 10 15 ∷ chunk 5 10 ∷ []) refl

-- With chunks of four bytes, the second entry puts a chunk.
abbrev messages : List Message
messages =
    entry_in (record { seq_no = 1; raw = codes "ab" }) true
    ∷ entry_in (record { seq_no = 2; raw = codes "cde" }) true
    ∷ chunk_expired true
    ∷ entry_in (record { seq_no = 3; raw = codes "f" }) true
    ∷ []

put_chunks : map (λ (b : Blob). b.ends_at) (handle_messages 4 messages new_writer).1 ≡ (3 ∷ [])
unfolding handle_messages
put_chunks = refl

flush_request-stored_example :
    stored (
      (handle_messages 4 messages new_writer).1
      ++ (handle_message 4 (flush_request true) (handle_messages 4 messages new_writer).0).1)
    ≡ sent messages
unfolding handle_messages
flush_request-stored_example = flush_request-stored 4 messages true refl

-- Two chunks that share an entry, and a third that cannot be read.
abbrev blobs : Blobs
blobs c =
    if c.blob == 1
    then some (decoded 1 (codes "a") ∷ decoded 2 (codes "b") ∷ [])
    else if c.blob == 2
    then some (decoded 2 (codes "b") ∷ not_entry ∷ decoded 3 (codes "c") ∷ [])
    else none

read_entries-deduplicated_example :
    (read_entries blobs 9 (new_window_reader (chunk 1 3 ∷ chunk 2 4 ∷ []) (some 2))
      ≡ deduplicated (some 2) 0 (stream blobs (chunk 1 3 ∷ chunk 2 4 ∷ [])))
    × Ascending 0 (read_entries blobs 9 (new_window_reader (chunk 1 3 ∷ chunk 2 4 ∷ []) (some 2)))
unfolding stream
read_entries-deduplicated_example =
    read_entries-deduplicated blobs (chunk 1 3 ∷ chunk 2 4 ∷ []) (some 2) 9 (omega arith)
