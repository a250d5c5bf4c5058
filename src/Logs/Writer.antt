-- ===== src/Logs/Writer.antt =====
-- The server's log writer: backend/server/services/log/writer.go. A message of its loop carries whether
-- the blob store accepts the chunk, in case one is put. The loop handles one message after the other.
-- A chunk that was refused is taken as not stored. Sequence numbers are not negative.
use buildbeaver.Base.{leb, if◌then◌else◌, length, ℕ, ◌+◌, Bool, true, false, List, [], ◌∷◌, ◌++◌}
use buildbeaver.Models.{Text}

pub record EncodedEntry : Type 0 where
  pub seq_no : ℕ
  pub raw : Text

-- `writer.state`, where `write_err` tells whether there is an error.
pub record Writer : Type 0 where
  pub entries : List Text
  pub size : ℕ
  pub start_seq_no : ℕ
  pub end_seq_no : ℕ
  pub write_err : Bool

-- A chunk in the blob store: the numbers of its key, and its entries.
pub record Blob : Type 0 where
  pub starts_at : ℕ
  pub ends_at : ℕ
  pub contents : List Text

abbrev pub new_writer : Writer
new_writer = record { entries = []; size = 0; start_seq_no = 0; end_seq_no = 1; write_err = false }

-- `flush`, with what is assigned to `writeErr` after it.
unfoldable pub flush_chunk : Bool → Writer → Writer × List Blob
flush_chunk ok w = (
  record {
    entries = [];
    size = 0;
    start_seq_no = 0;
    end_seq_no = 0;
    write_err = if ok then false else true;
  },
  if ok
      then record { starts_at = w.start_seq_no; ends_at = w.end_seq_no; contents = w.entries } ∷ []
      else [],
)

-- The part of `writeEntry` before its test of the size.
unfoldable pub buffer_entry : EncodedEntry → Writer → Writer
buffer_entry e w = record w {
  entries = w.entries ++ (e.raw ∷ []);
  size = w.size + length e.raw;
  start_seq_no = if leb w.start_seq_no 0 then e.seq_no else w.start_seq_no;
  end_seq_no = e.seq_no + 1;
}

-- `writeEntry`, for chunks of a size
unfoldable pub write_encoded : ℕ → Bool → EncodedEntry → Writer → Writer × List Blob
unfolding flush_chunk buffer_entry
write_encoded chunk_size ok e w =
    let buffered = buffer_entry e w in
    if leb chunk_size buffered.size then flush_chunk ok buffered else (buffered, [])

-- What wakes the loop: an entry, a request to flush, the end of the time of a chunk or the end of the
-- writer. The loop returns after the last, which the messages of the theorems need not respect.
pub data Message : Type 0 where
  entry_in : EncodedEntry → Bool → Message
  flush_request : Bool → Message
  chunk_expired : Bool → Message
  stopped : Bool → Message

-- The flush of the last three, which is left out if nothing is buffered.
unfoldable pub flush_buffered : Bool → Writer → Writer × List Blob
unfolding flush_chunk
flush_buffered ok w = if leb 1 (length w.entries) then flush_chunk ok w else (w, [])

unfoldable pub handle_open : ℕ → Message → Writer → Writer × List Blob
unfolding write_encoded flush_buffered
handle_open chunk_size (entry_in e ok) w = write_encoded chunk_size ok e w
handle_open chunk_size (flush_request ok) w = flush_buffered ok w
handle_open chunk_size (chunk_expired ok) w = flush_buffered ok w
handle_open chunk_size (stopped ok) w = flush_buffered ok w

-- A round of the loop. The answer to a request to flush is the `write_err` of the result.
unfoldable pub handle_message : ℕ → Message → Writer → Writer × List Blob
unfolding handle_open
handle_message chunk_size m w =
    let handled = handle_open chunk_size m w in if w.write_err then (w, []) else handled

unfoldable pub handle_messages : ℕ → List Message → Writer → Writer × List Blob
unfolding handle_message
handle_messages chunk_size [] w = (w, [])
handle_messages chunk_size (m ∷ ms) w =
    let (w₁, put₁) = handle_message chunk_size m w in
    let (w₂, put₂) = handle_messages chunk_size ms w₁ in (w₂, put₁ ++ put₂)

-- The entries of a message, of messages, and of chunks.
unfoldable pub sent_by : Message → List Text
sent_by (entry_in e ok) = e.raw ∷ []
sent_by (flush_request ok) = []
sent_by (chunk_expired ok) = []
sent_by (stopped ok) = []

unfoldable pub sent : List Message → List Text
unfolding sent_by
sent [] = []
sent (m ∷ ms) = sent_by m ++ sent ms

unfoldable pub stored : List Blob → List Text
stored [] = []
stored (b ∷ bs) = b.contents ++ stored bs
