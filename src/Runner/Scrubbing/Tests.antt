-- ===== src/Runner/Scrubbing/Tests.antt =====
-- A log with one secret.
use buildbeaver.Base.{length, All, ◌≡◌, refl, false, List, [], ◌∷◌, ◌++◌, arith}
use buildbeaver.Models.{codes, is_empty}
use buildbeaver.Runner.Scrubbing.{
  SecretPlaintext, LogEntry, plain, new_log_scrubber, write_entries, text_of,
}
use buildbeaver.Runner.Scrubbing.Masks.{Proper, occurs}
use buildbeaver.Runner.Scrubbing.Stream.{visible}
use buildbeaver.Runner.Scrubbing.Secrecy.{write_entries-scrubbed}

abbrev token : List SecretPlaintext
token = record { key = codes "token"; value = codes "key"; is_internal = false } ∷ []

-- The secret is cut in two by the entries.
abbrev lines : List LogEntry
lines = plain (codes "the ke") ∷ plain (codes "y is here") ∷ []

scrubbed : (write_entries token lines new_log_scrubber).1 ≡ plain (codes "the **") ∷ []
unfolding write_entries is_empty
scrubbed = refl

-- What is held back at the end is lost if the log is closed without a flush.
held_back : (write_entries token lines new_log_scrubber).0.buf ≡ codes "* is here"
unfolding write_entries is_empty
held_back = refl

token-Proper : All Proper (visible token)
unfolding visible Proper
token-Proper = ((λ e. omega (arith, e), (λ e. omega (arith, e), (λ e. omega (arith, e), tt))), tt)

write_entries-scrubbed_example :
    let (l, out) = write_entries token lines new_log_scrubber in
    All (λ p. occurs p (text_of out ++ l.buf) ≡ false) (visible token)
    × (length (text_of out ++ l.buf) ≡ length (text_of lines))
write_entries-scrubbed_example = write_entries-scrubbed token lines token-Proper
