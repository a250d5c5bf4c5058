-- ===== src/Parser/Patterns.antt =====
-- The regular expressions of parser.go and parser_v0.2.go. They have the flags for any case and for
-- lines, so that each matches the first line that has its form; no part of them matches a dot or the
-- end of a line, but for the dots that they name.
use buildbeaver.Base.{
  leb, ◌==◌, if◌then◌else◌, all, ℕ, ◌+◌, Bool, not, ◌&&◌, ◌||◌, Option, none, some, List, [], ◌∷◌,
  map,
}
use buildbeaver.Models.{Text, codes, text_eq, is_empty, name_char}

unfoldable pub add_first : ℕ → List Text → List Text
add_first c [] = (c ∷ []) ∷ []
add_first c (w ∷ ws) = (c ∷ w) ∷ ws

-- The parts of a text between the occurrences of a character.
unfoldable pub split_on : ℕ → Text → List Text
unfolding add_first
split_on d [] = [] ∷ []
split_on d (c ∷ s) = let rest = split_on d s in if c == d then [] ∷ rest else add_first c rest

-- A literal, in any case.
unfoldable pub lower : Text → Text
lower = map λ c. if leb b'A' c && leb c b'Z' then c + 32 else c

unfoldable pub is_word : Text → Text → Bool
unfolding lower text_eq
is_word word s = text_eq (lower s) word

-- [a-zA-Z0-9_-]+ and [a-zA-Z0-9_*-]+
unfoldable pub is_name : Text → Bool
unfolding name_char is_empty
is_name s = not (is_empty s) && all name_char s

unfoldable pub is_starred : Text → Bool
unfolding name_char is_empty
is_starred s = not (is_empty s) && all (λ c. name_char c || c == b'*') s

-- What a match captures: the workflow, empty if there is none, and the job; and an artifact.
abbrev pub Captured : Type 0
Captured = Text × Text

abbrev pub only_if {ℓ} : {A : Type ℓ} → Bool → A → Option A
only_if b a = if b then some a else none

-- `jobNameRegex` and `jobDependsOnJobShorthandRegex`
unfoldable pub job_name_parts : List Text → Option Captured
unfolding is_name is_starred
job_name_parts (j ∷ []) = only_if (is_starred j) ([], j)
job_name_parts (w ∷ j ∷ []) = only_if (is_name w && is_starred j) (w, j)
job_name_parts _ = none

-- `jobDependsOnOneArtifactFromJobRegex`
unfoldable pub one_artifact_parts : List Text → Option (Captured × Text)
unfolding is_name is_starred is_word
one_artifact_parts (k ∷ j ∷ l ∷ a ∷ []) =
    only_if (is_word (codes "jobs") k && is_starred j && is_word (codes "artifacts") l && is_name a)
      (([], j), a)
one_artifact_parts (p ∷ w ∷ k ∷ j ∷ l ∷ a ∷ []) =
    only_if
      (is_word (codes "workflow") p
        && is_name w
        && is_word (codes "jobs") k
        && is_starred j
        && is_word (codes "artifacts") l
        && is_name a)
      ((w, j), a)
one_artifact_parts _ = none

-- `jobDependsOnAllArtifactsFromJobRegex`
unfoldable pub all_artifacts_parts : List Text → Option Captured
unfolding is_name is_starred is_word
all_artifacts_parts (k ∷ j ∷ l ∷ []) =
    only_if (is_word (codes "jobs") k && is_starred j && is_word (codes "artifacts") l) ([], j)
all_artifacts_parts (p ∷ w ∷ k ∷ j ∷ l ∷ []) =
    only_if
      (is_word (codes "workflow") p
        && is_name w
        && is_word (codes "jobs") k
        && is_starred j
        && is_word (codes "artifacts") l)
      (w, j)
all_artifacts_parts _ = none

-- `jobDependsOnJobRegex`
unfoldable pub job_parts : List Text → Option Captured
unfolding is_name is_starred is_word
job_parts (k ∷ j ∷ []) = only_if (is_word (codes "jobs") k && is_starred j) ([], j)
job_parts (p ∷ w ∷ k ∷ j ∷ []) =
    only_if (is_word (codes "workflow") p && is_name w && is_word (codes "jobs") k && is_starred j)
      (w, j)
job_parts _ = none

-- `jobDependsOnAllArtifactsFromJobShorthandRegex`
unfoldable pub all_artifacts_short_parts : List Text → Option Captured
unfolding is_name is_starred is_word
all_artifacts_short_parts (j ∷ l ∷ []) =
    only_if (is_starred j && is_word (codes "artifacts") l) ([], j)
all_artifacts_short_parts (w ∷ j ∷ l ∷ []) =
    only_if (is_name w && is_starred j && is_word (codes "artifacts") l) (w, j)
all_artifacts_short_parts _ = none

unfoldable pub first_line {ℓ} : {A : Type ℓ} → (List Text → Option A) → List Text → Option A
unfolding split_on
first_line f [] = none
first_line f (l ∷ ls) =
    let rest = first_line f ls in elim (f (split_on b'.' l)) [ some a ↦ some a | none ↦ rest ]

-- `FindStringSubmatch`
unfoldable pub find_submatch {ℓ} : {A : Type ℓ} → (List Text → Option A) → Text → Option A
unfolding first_line
find_submatch f s = first_line f (split_on 10 s)
