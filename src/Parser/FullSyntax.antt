-- ===== src/Parser/FullSyntax.antt =====
-- Dependencies in the full syntax are read as they are written.
use mathlib.Core.Option
use buildbeaver.Base.{
  ◌==◌, all, All, ℕ, ◌≡◌, refl, ap, ◌∙◌, true, not, ◌||◌, Option, none, some, List, [], ◌∷◌, ◌++◌,
  arith,
}
use buildbeaver.Models.{Text, codes, text_eq, name_char}
use buildbeaver.Parser.Patterns.{
  add_first, split_on, is_name, is_starred, job_name_parts, one_artifact_parts, all_artifacts_parts,
  job_parts, all_artifacts_short_parts, first_line, find_submatch,
}
use buildbeaver.Parser.References.{Reference, job_only, with_artifact, ◌else_try◌, parse_reference}

-- A text without a character, and one that is a name, so has neither a dot nor the end of a line.
abbrev Lacks : ℕ → Text → Type 0
Lacks d s = all (λ c. not (c == d)) s ≡ true

split_on-part :
    (d : ℕ) (s rest : Text) → Lacks d s → split_on d (s ++ (d ∷ rest)) ≡ (s ∷ split_on d rest)
unfolding split_on add_first
split_on-part d [] rest h = ground arith
split_on-part d (c ∷ s) rest h = ground (arith, split_on-part d s rest)

split_on-last : (d : ℕ) (s : Text) → Lacks d s → split_on d s ≡ (s ∷ [])
unfolding split_on add_first
split_on-last d [] h = refl
split_on-last d (c ∷ s) h = ground (arith, split_on-last d s)

Lacks-append : (d : ℕ) (s t : Text) → Lacks d s → Lacks d t → Lacks d (s ++ t)
Lacks-append d [] t h k = k
Lacks-append d (c ∷ s) t h k = ground (arith, Lacks-append d s t)

name-Lacks_dot : (s : Text) → all name_char s ≡ true → Lacks b'.' s
unfolding name_char
name-Lacks_dot [] h = refl
name-Lacks_dot (c ∷ s) h = ground (arith, name-Lacks_dot s)

name-Lacks_line : (s : Text) → all name_char s ≡ true → Lacks 10 s
unfolding name_char
name-Lacks_line [] h = refl
name-Lacks_line (c ∷ s) h = ground (arith, name-Lacks_line s)

-- A text without line ends is matched as a whole.
find_submatch-line {ℓ} :
    {A : Type ℓ} (f : List Text → Option A) (s : Text)
    → Lacks 10 s
    → find_submatch f s ≡ f (split_on b'.' s)
unfolding find_submatch first_line
find_submatch-line {A} f s h = rw (split_on-last 10 s h) (only (f (split_on b'.' s)))
  where
    only : (o : Option A) → elim o as (λ _. Option A) [ some a ↦ some a | none ↦ none ] ≡ o
    only none = refl
    only (some a) = refl

-- Parts that are joined by dots.
abbrev pub join : List Text → Text
join [] = []
join (s ∷ []) = s
join (s ∷ t ∷ ss) = s ++ (b'.' ∷ join (t ∷ ss))

abbrev AreNames : List Text → Type 0
AreNames = All λ s. all name_char s ≡ true

split_on-join :
    (s : Text) (ss : List Text) → AreNames (s ∷ ss) → split_on b'.' (join (s ∷ ss)) ≡ (s ∷ ss)
split_on-join s [] h = split_on-last b'.' s (name-Lacks_dot s h.0)
split_on-join s (t ∷ ss) h =
    split_on-part b'.' s (join (t ∷ ss)) (name-Lacks_dot s h.0)
    ∙ ap (λ u. s ∷ u) (split_on-join t ss h.1)

join-Lacks_line : (ss : List Text) → AreNames ss → Lacks 10 (join ss)
join-Lacks_line [] h = refl
join-Lacks_line (s ∷ []) h = name-Lacks_line s h.0
join-Lacks_line (s ∷ t ∷ ss) h =
    Lacks-append 10 s (b'.' ∷ join (t ∷ ss)) (name-Lacks_line s h.0) (join-Lacks_line (t ∷ ss) h.1)

find_submatch-join {ℓ} :
    {A : Type ℓ} (f : List Text → Option A) (s : Text) (ss : List Text)
    → AreNames (s ∷ ss)
    → find_submatch f (join (s ∷ ss)) ≡ f (s ∷ ss)
find_submatch-join f s ss h =
    find_submatch-line f (join (s ∷ ss)) (join-Lacks_line (s ∷ ss) h) ∙ ap f (split_on-join s ss h)

-- What is read of a line's parts.
abbrev read_parts : List Text → Option Reference
read_parts ss =
    Option.map (λ (c, a). with_artifact a c) (one_artifact_parts ss)
    else_try Option.map (with_artifact []) (all_artifacts_parts ss)
    else_try Option.map (with_artifact []) (all_artifacts_short_parts ss)
    else_try Option.map job_only (job_parts ss)
    else_try Option.map job_only (job_name_parts ss)

parse_reference-join :
    (s : Text) (ss : List Text)
    → AreNames (s ∷ ss)
    → parse_reference (join (s ∷ ss)) ≡ read_parts (s ∷ ss)
unfolding parse_reference
parse_reference-join s ss h = rw (
  find_submatch-join one_artifact_parts s ss h,
  find_submatch-join all_artifacts_parts s ss h,
  find_submatch-join all_artifacts_short_parts s ss h,
  find_submatch-join job_parts s ss h,
  find_submatch-join job_name_parts s ss h,
)

-- What a dependency on a job is for: the job, all its artifacts, or one.
pub data Wanted : Type 0 where
  the_job all_artifacts : Wanted
  artifact : Text → Wanted

unfoldable pub wanted_parts : Wanted → List Text
wanted_parts the_job = []
wanted_parts all_artifacts = codes "artifacts" ∷ []
wanted_parts (artifact a) = codes "artifacts" ∷ a ∷ []

abbrev pub wanted_reference : Text → Text → Wanted → Reference
wanted_reference w j the_job = job_only (w, j)
wanted_reference w j all_artifacts = with_artifact [] (w, j)
wanted_reference w j (artifact a) = with_artifact a (w, j)

abbrev pub IsNameOf : Wanted → Type 0
IsNameOf (artifact a) = is_name a ≡ true
IsNameOf w = Unit

is_name-chars : (s : Text) → is_name s ≡ true → all name_char s ≡ true
unfolding is_name
is_name-chars s h = ground arith

starred_chars : (s : Text) → all name_char s ≡ true → all (λ c. name_char c || c == b'*') s ≡ true
starred_chars [] h = refl
starred_chars (c ∷ s) h = ground (arith, starred_chars s)

is_name-is_starred : (s : Text) → is_name s ≡ true → is_starred s ≡ true
unfolding is_name is_starred
is_name-is_starred s h = ground (arith, starred_chars s)

-- A dependency that is written in the full syntax with a workflow, on a job, all its artifacts or one of
-- them, is read as that.
pub parse_reference-full :
    (w j : Text) (wanted : Wanted)
    → is_name w ≡ true
    → is_name j ≡ true
    → IsNameOf wanted
    → parse_reference (join (codes "workflow" ∷ w ∷ codes "jobs" ∷ j ∷ wanted_parts wanted))
      ≡ some (wanted_reference w j wanted)
unfolding wanted_parts one_artifact_parts all_artifacts_parts all_artifacts_short_parts job_parts
    text_eq
parse_reference-full w j the_job h k t =
    parse_reference-join (codes "workflow") (w ∷ codes "jobs" ∷ j ∷ [])
      (refl, (is_name-chars w h, (refl, (is_name-chars j k, tt))))
    ∙ rw (h, is_name-is_starred j k)
parse_reference-full w j all_artifacts h k t =
    parse_reference-join (codes "workflow") (w ∷ codes "jobs" ∷ j ∷ codes "artifacts" ∷ [])
      (refl, (is_name-chars w h, (refl, (is_name-chars j k, (refl, tt)))))
    ∙ rw (h, is_name-is_starred j k)
parse_reference-full w j (artifact a) h k t =
    parse_reference-join (codes "workflow") (w ∷ codes "jobs" ∷ j ∷ codes "artifacts" ∷ a ∷ [])
      (refl, (is_name-chars w h, (refl, (is_name-chars j k, (refl, (is_name-chars a t, tt))))))
    ∙ rw (h, is_name-is_starred j k, t)
