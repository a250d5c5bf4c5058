-- ===== src/Runner/Fingerprints.antt =====
-- The fingerprint of a job: backend/runner/fingerprint_hasher.go and `fingerprintJob` of
-- backend/runner/executor.go. A `hash.Hash` is the bytes that were written to it, and `digest` is the
-- SHA-1 sum of bytes in hexadecimal digits.
pub mod Parts
pub mod Order
mod Tests
use buildbeaver.Base.{
  ltb, leb, ◌==◌, if◌then◌else◌, length, Bool, true, false, ◌&&◌, ◌||◌, Option, none, some, List,
  [], ◌∷◌, ◌++◌,
}
use buildbeaver.Models.{Text, codes, is_empty, Job}

pub record FingerprintHasher : Type 0 where
  pub written : Text
  pub current : Text
  pub current_name : Text
  pub intermediate : List (Text × Text)

-- `NewFingerprintHasher`
abbrev pub new_hasher : FingerprintHasher
new_hasher = record { written = []; current = []; current_name = []; intermediate = [] }

-- `Reset`, which keeps the name and the report.
unfoldable pub reset : FingerprintHasher → FingerprintHasher
reset h = record h { written = []; current = [] }

-- `Write`
unfoldable pub write : Text → FingerprintHasher → FingerprintHasher
write p h = record h { current = h.current ++ p }

unfoldable pub write_all : List Text → FingerprintHasher → FingerprintHasher
unfolding write
write_all [] h = h
write_all (p ∷ ps) h = write_all ps (write p h)

-- A job that the job depends on, as the server lists it.
pub record DependencyJob : Type 0 where
  pub name : Text
  pub fingerprint : Text

-- Go's `<` on strings.
unfoldable pub text_lt : Text → Text → Bool
text_lt s [] = false
text_lt [] (b ∷ t) = true
text_lt (a ∷ s) (b ∷ t) = ltb a b || a == b && text_lt s t

-- `sort.SliceStable` by name.
unfoldable pub insert : DependencyJob → List DependencyJob → List DependencyJob
insert x [] = x ∷ []
insert x (y ∷ ys) = if text_lt y.name x.name then y ∷ insert x ys else x ∷ y ∷ ys

unfoldable pub sort : List DependencyJob → List DependencyJob
unfolding insert
sort [] = []
sort (x ∷ xs) = insert x (sort xs)

-- What `fingerprintJob` has when it calls the server.
pub data Fingerprinting : Type 0 where
  disabled commands_failed : Fingerprinting
  fingerprinted : Text → Fingerprinting

module _ (digest : Text → Text) where
  -- `Prepare`: the report, which is only logged, is kept in the order of its parts.
  unfoldable pub finish_part : FingerprintHasher → FingerprintHasher
  finish_part h = if is_empty h.current_name then h else record h {
    written = h.written ++ digest h.current;
    current = [];
    intermediate = (h.current_name, digest h.current) ∷ h.intermediate;
  }

  unfoldable pub prepare : Text → FingerprintHasher → FingerprintHasher
  unfolding finish_part
  prepare name h = record (finish_part h) { current_name = name }

  -- `Append`
  unfoldable pub append : Text → Text → FingerprintHasher → FingerprintHasher
  unfolding prepare
  append name hash h =
      let h' = prepare [] h in
      record h' { written = h'.written ++ hash; intermediate = (name, hash) ∷ h'.intermediate }

  -- `Finalize`
  unfoldable pub finalize : FingerprintHasher → Text
  unfolding prepare
  finalize h = digest (prepare [] h).written

  unfoldable pub append_jobs : List DependencyJob → FingerprintHasher → FingerprintHasher
  unfolding append
  append_jobs [] h = h
  append_jobs (j ∷ js) h = append_jobs js (append (j.name ++ codes " fingerprint") j.fingerprint h)

  -- The hash that `fingerprintJob` makes of the hash of the job's definition, the jobs that the job
  -- depends on, and the pieces of output of the fingerprint commands.
  unfoldable pub job_fingerprint : Text → List DependencyJob → List Text → Text
  unfolding prepare append_jobs finalize
  job_fingerprint definition jobs output =
      let defined = write definition (prepare (codes "Job configuration") new_hasher) in
      let depended = append_jobs (sort jobs) defined in
      finalize (write_all output (prepare (codes "Command(s) stdout") depended))

  -- `fingerprintJob` up to the call of the server: without commands there is no fingerprint, and
  -- `none` is the output of commands that failed.
  unfoldable pub fingerprint_job : Job → List DependencyJob → Option (List Text) → Fingerprinting
  unfolding job_fingerprint
  fingerprint_job job jobs output =
      if leb (length job.fingerprint_commands) 0 then disabled else elim output [
        | none ↦ commands_failed
        | some pieces ↦ fingerprinted (job_fingerprint job.definition_data_hash jobs pieces)
      ]
