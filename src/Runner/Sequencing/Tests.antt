-- ===== src/Runner/Sequencing/Tests.antt =====
-- The numbering of a short log.
use buildbeaver.Base.{◌≡◌, refl, Bool, true, false, none, some, List, [], ◌∷◌, arith}
use buildbeaver.Models.{Text, codes}
use buildbeaver.Logs.{Chunk}
use buildbeaver.Logs.Reader.{decoded, Blobs, new_window_reader, read_entries, stream}
use buildbeaver.Runner.Sequencing.{SequencedEntry, new_log_sequencer, sequence_entries}
use buildbeaver.Runner.Sequencing.Numbers.{items_of, numbered, sequenced-delivered}

abbrev line : Bool → Text → SequencedEntry
line b t = record { is_persistent = b; is_line = b; seq_no = 0; line_no = 0; text = t }

abbrev written : List SequencedEntry
written = line true (codes "a") ∷ line false (codes "end") ∷ line true (codes "b") ∷ []

-- One chunk holds the whole log.
abbrev whole : Chunk
whole = record { blob = 1; start_seq_no = 1; end_seq_no = 3 }

abbrev blobs : Blobs
blobs c = some (decoded 1 (codes "a") ∷ decoded 2 (codes "b") ∷ [])

sequenced-delivered_example :
    read_entries blobs 2 (new_window_reader (whole ∷ []) none)
    ≡ numbered (λ e. e.text) 1 (sequence_entries new_log_sequencer written)
unfolding stream items_of sequence_entries
sequenced-delivered_example =
    sequenced-delivered (λ e. e.text) written blobs (whole ∷ []) 2 refl (omega arith)
