-- ===== src/Runner/Scrubbing.antt =====
-- The scrubbing of secrets from a log: backend/runner/logging/log_scrubber.go. What the next writer of
-- the pipeline is given is a result of each operation. `fillerMap` is keyed by the IDs of secrets,
-- which differ, so that a secret finds its own filler.
pub mod Masks
pub mod Stream
pub mod Held
pub mod Secrecy
mod Tests
use buildbeaver.Base.{
  ltb, ◌==◌, if◌then◌else◌, length, take, drop, ℕ, zero, suc, ◌-◌, Bool, true, false, ◌&&◌, List,
  [], ◌∷◌, ◌++◌,
}
use buildbeaver.Models.{Text, is_empty}

-- `SecretPlaintext`, with the fields that are used here.
pub record SecretPlaintext : Type 0 where
  pub key : Text
  pub value : Text
  pub is_internal : Bool

-- A log entry: a plain text entry, or one of the other kinds.
pub data LogEntry : Type 0 where
  plain : Text → LogEntry
  structural : ℕ → LogEntry

-- `makeFiller`, for the filler "*".
unfoldable pub make_filler : ℕ → Text
make_filler zero = []
make_filler (suc n) = b'*' ∷ make_filler n

unfoldable pub starts_with : Text → Text → Bool
starts_with [] t = true
starts_with (c ∷ p) [] = false
starts_with (c ∷ p) (d ∷ t) = c == d && starts_with p t

-- `bytes.ReplaceAll` of a non-empty text: matches from left to right, which do not overlap. `skip`
-- bytes belong to the last match.
unfoldable pub replace_from : Text → Text → ℕ → Text → Text
unfolding starts_with
replace_from old new skip [] = []
replace_from old new (suc skip) (c ∷ t) = replace_from old new skip t
replace_from old new zero (c ∷ t) =
    let matched = replace_from old new (length old - 1) t in
    let rest = replace_from old new zero t in
    if starts_with old (c ∷ t) then new ++ matched else c ∷ rest

-- An empty secret has an empty filler, and replacing nothing by nothing changes nothing.
unfoldable pub replace_all : Text → Text → Text → Text
unfolding replace_from
replace_all old new t = if is_empty old then t else replace_from old new 0 t

-- The loop over the secrets in `Write`.
unfoldable pub scrub : List SecretPlaintext → Text → Text
unfolding replace_all make_filler
scrub [] t = t
scrub (s ∷ ss) t =
    if s.is_internal
    then scrub ss t
    else scrub ss (replace_all s.value (make_filler (length s.value)) t)

-- `longestSecretLen`
unfoldable pub longest_secret_len : List SecretPlaintext → ℕ
longest_secret_len [] = 0
longest_secret_len (s ∷ ss) =
    let n = longest_secret_len ss in
    if s.is_internal then n else if ltb n (length s.value) then length s.value else n

-- The texts of the held entries are those that were written; only their lengths are used.
pub record LogScrubber : Type 0 where
  pub entries : List Text
  pub buf : Text
  pub log_closed : Bool

abbrev pub new_log_scrubber : LogScrubber
new_log_scrubber = record { entries = []; buf = []; log_closed = false }

-- `flush`: whole entries are passed on, while at most `n` bytes are.
pub record Flushed : Type 0 where
  pub out : List LogEntry
  pub buf : Text
  pub entries : List Text

unfoldable pub flush_entries : ℕ → Text → List Text → Flushed
flush_entries n buf [] = record { out = []; buf = buf; entries = [] }
flush_entries n buf (e ∷ es) =
    let rest = flush_entries (n - length e) (drop (length e) buf) es in
    if ltb n (length e)
    then record { out = []; buf = buf; entries = e ∷ es }
    else record rest { out = plain (take (length e) buf) ∷ rest.out }

unfoldable pub flush : ℕ → LogScrubber → LogScrubber × List LogEntry
unfolding flush_entries
flush n l =
    let f = flush_entries n l.buf l.entries in
    (record l { buf = f.buf; entries = f.entries }, f.out)

-- `Write`, the entry given by its text, to an open scrubber.
unfoldable pub write_plain : List SecretPlaintext → Text → LogScrubber → LogScrubber × List LogEntry
unfolding scrub longest_secret_len flush
write_plain secrets t l =
    let buf = scrub secrets (l.buf ++ t) in
    flush (length buf - longest_secret_len secrets)
      (record l { entries = l.entries ++ (t ∷ []); buf = buf })

-- `Write`
unfoldable pub write_open :
    List SecretPlaintext → LogEntry → LogScrubber → LogScrubber × List LogEntry
unfolding write_plain
write_open [] entry l = (l, entry ∷ [])
write_open (s ∷ ss) (structural n) l = (l, structural n ∷ [])
write_open (s ∷ ss) (plain t) l = write_plain (s ∷ ss) t l

unfoldable pub write_entry :
    List SecretPlaintext → LogEntry → LogScrubber → LogScrubber × List LogEntry
unfolding write_open
write_entry secrets entry l = if l.log_closed then (l, []) else write_open secrets entry l

-- `Flush` and `Close`, without those of the next writer.
unfoldable pub flush_log : LogScrubber → LogScrubber × List LogEntry
unfolding flush
flush_log l = if l.log_closed then (l, []) else flush (length l.buf) l

unfoldable pub close : LogScrubber → LogScrubber
close l = record l { log_closed = true }

-- The writes of a log, and all that the next writer was given.
unfoldable pub write_entries :
    List SecretPlaintext → List LogEntry → LogScrubber → LogScrubber × List LogEntry
unfolding write_entry
write_entries secrets [] l = (l, [])
write_entries secrets (e ∷ es) l =
    let (l₁, out₁) = write_entry secrets e l in
    let (l₂, out₂) = write_entries secrets es l₁ in (l₂, out₁ ++ out₂)

-- The text of entries.
unfoldable pub text_of : List LogEntry → Text
text_of [] = []
text_of (plain t ∷ es) = t ++ text_of es
text_of (structural n ∷ es) = text_of es
