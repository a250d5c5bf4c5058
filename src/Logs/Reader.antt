-- ===== src/Logs/Reader.antt =====
-- The reader of a window: backend/server/services/log/window_reader.go. The blob store, and the decoding
-- of JSON, are a parameter that gives the items of a chunk.
use buildbeaver.Base.{
  ltb, leb, if◌then◌else◌, ℕ, zero, suc, Bool, true, false, Option, none, some, List, [], ◌∷◌, ◌++◌,
}
use buildbeaver.Models.{Text}
use buildbeaver.Logs.{Chunk}

-- What the decoder finds in a chunk: an entry with its sequence number and its JSON, JSON that is no
-- entry, or no JSON. Sequence numbers that are not positive count as zero.
pub data Item : Type 0 where
  decoded : ℕ → Text → Item
  not_entry : Item
  malformed : Item

-- `GetBlob` and the opening token, which may fail.
abbrev pub Blobs : Type 0
Blobs = Chunk → Option (List Item)

-- `windowReader` and its state; no decoder is one with no more items.
pub record WindowReader : Type 0 where
  pub start_seq_no : Option ℕ
  pub last_seq_no : ℕ
  pub chunks : List Chunk
  pub decoder : List Item
  pub err : Bool

abbrev pub new_window_reader : List Chunk → Option ℕ → WindowReader
new_window_reader chunks start = record {
  start_seq_no = start;
  last_seq_no = 0;
  chunks = chunks;
  decoder = [];
  err = false;
}

-- Whether `startSeqNo` leaves out a sequence number.
unfoldable pub before_start : Option ℕ → ℕ → Bool
before_start none n = false
before_start (some s) n = ltb n s

unfoldable pub is_skipped : Option ℕ → ℕ → ℕ → Bool
unfolding before_start
is_skipped start last n = if leb n last then true else before_start start n

-- The loop of `Next` over the items of a decoder.
pub data ItemsRead : Type 0 where
  found : ℕ → Text → List Item → ItemsRead
  drained : ItemsRead
  broken : ItemsRead

unfoldable pub read_items : Option ℕ → ℕ → List Item → ItemsRead
unfolding is_skipped
read_items start last [] = drained
read_items start last (not_entry ∷ items) = read_items start last items
read_items start last (malformed ∷ items) = broken
read_items start last (decoded n raw ∷ items) =
    let rest = read_items start last items in
    if is_skipped start last n then rest else found n raw items

-- The answer of `Next`: an entry, no more entries, or an error.
pub data Answer : Type 0 where
  entry : ℕ → Text → Answer
  all_done : Answer
  read_error : Answer

-- The reader with an error, and with an entry.
unfoldable pub fail : WindowReader → WindowReader × Answer
fail r = (record r { err = true }, read_error)

unfoldable pub deliver : ℕ → Text → List Item → WindowReader → WindowReader × Answer
deliver n raw items r = (record r { last_seq_no = n; decoder = items }, entry n raw)

-- The loop of `Next` over the chunks, once the decoder is drained.
unfoldable pub read_chunks : Blobs → WindowReader → List Chunk → WindowReader × Answer
unfolding read_items fail deliver
read_chunks get_blob r [] = (record r { chunks = []; decoder = [] }, all_done)
read_chunks get_blob r (c ∷ cs) =
    let rest = read_chunks get_blob r cs in
    elim (get_blob c) [
      | none ↦ fail (record r { chunks = cs })
      | some items ↦ elim (read_items r.start_seq_no r.last_seq_no items) [
        | found n raw more ↦ deliver n raw more (record r { chunks = cs })
        | drained ↦ rest
        | broken ↦ fail (record r { chunks = cs })
      ]
    ]

unfoldable pub next_open : Blobs → WindowReader → WindowReader × Answer
unfolding read_chunks
next_open get_blob r = elim (read_items r.start_seq_no r.last_seq_no r.decoder) [
  | found n raw more ↦ deliver n raw more r
  | drained ↦ read_chunks get_blob r r.chunks
  | broken ↦ fail r
]

-- `Next`
unfoldable pub next_entry : Blobs → WindowReader → WindowReader × Answer
unfolding next_open
next_entry get_blob r = if r.err then (r, read_error) else next_open get_blob r

-- The entries of so many calls of `Next`, until it gives none.
unfoldable pub read_entries : Blobs → ℕ → WindowReader → List (ℕ × Text)
unfolding next_entry
read_entries get_blob zero r = []
read_entries get_blob (suc k) r =
    let (r', answer) = next_entry get_blob r in
    elim answer [
      | entry n raw ↦ (n, raw) ∷ read_entries get_blob k r'
      | all_done ↦ []
      | read_error ↦ []
    ]

-- An independent description: the items of all chunks, where a chunk that cannot be read is a malformed
-- item, and the entries to deliver among items.
unfoldable pub stream : Blobs → List Chunk → List Item
stream get_blob [] = []
stream get_blob (c ∷ cs) =
    elim (get_blob c) [ some items ↦ items | none ↦ malformed ∷ [] ] ++ stream get_blob cs

unfoldable pub deduplicated : Option ℕ → ℕ → List Item → List (ℕ × Text)
unfolding is_skipped
deduplicated start last [] = []
deduplicated start last (not_entry ∷ items) = deduplicated start last items
deduplicated start last (malformed ∷ items) = []
deduplicated start last (decoded n raw ∷ items) =
    let skipped = deduplicated start last items in
    let delivered = deduplicated start n items in
    if is_skipped start last n then skipped else (n, raw) ∷ delivered
