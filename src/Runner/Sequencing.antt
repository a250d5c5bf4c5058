-- ===== src/Runner/Sequencing.antt =====
-- The numbering of log entries: backend/runner/logging/log_sequencer.go. What the next writer of the
-- pipeline is given is a result of each operation, and the lock makes each write one step.
pub mod Numbers
mod Tests
use buildbeaver.Base.{if◌then◌else◌, ℕ, ◌+◌, Bool, List, [], ◌∷◌}
use buildbeaver.Models.{Text}

-- A log entry, with what `Write` looks at: whether it is a `PersistentLogEntry` and a `LogEntryLine`.
-- The rest of it is a text.
pub record SequencedEntry : Type 0 where
  pub is_persistent : Bool
  pub is_line : Bool
  pub seq_no : ℕ
  pub line_no : ℕ
  pub text : Text

pub record LogSequencer : Type 0 where
  pub next_seq_no : ℕ
  pub next_line_no : ℕ

abbrev pub new_log_sequencer : LogSequencer
new_log_sequencer = record { next_seq_no = 1; next_line_no = 1 }

unfoldable pub set_seq_no : LogSequencer → SequencedEntry → LogSequencer × SequencedEntry
set_seq_no l e =
    if e.is_persistent
    then (record l { next_seq_no = l.next_seq_no + 1 }, record e { seq_no = l.next_seq_no })
    else (l, e)

unfoldable pub set_line_no : LogSequencer → SequencedEntry → LogSequencer × SequencedEntry
set_line_no l e =
    if e.is_line
    then (record l { next_line_no = l.next_line_no + 1 }, record e { line_no = l.next_line_no })
    else (l, e)

-- `Write`
unfoldable pub sequence_entry : LogSequencer → SequencedEntry → LogSequencer × SequencedEntry
unfolding set_seq_no set_line_no
sequence_entry l e = let (l₁, e₁) = set_seq_no l e in set_line_no l₁ e₁

unfoldable pub sequence_entries : LogSequencer → List SequencedEntry → List SequencedEntry
unfolding sequence_entry
sequence_entries l [] = []
sequence_entries l (e ∷ es) = let (l₁, e₁) = sequence_entry l e in e₁ ∷ sequence_entries l₁ es
