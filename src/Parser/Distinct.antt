-- ===== src/Parser/Distinct.antt =====
-- The dependencies of a parsed job have different names of jobs.
use buildbeaver.Base.{
  Bool-cases, OnSome, any, ◌≡◌, refl, inl, inr, true, false, List, [], ◌∷◌, map, arith,
}
use buildbeaver.Base.Options.{OnSome->>=, OnSome-any}
use buildbeaver.Models.{Text, text_eq, distinct}
use buildbeaver.Parser.Raw.{Raw, as_text}
use buildbeaver.Parser.References.{
  Reference, parse_reference, record_job_dependency, record_all, text_or_array,
  parse_job_dependencies,
}
use buildbeaver.Parser.Version2.{parse_reference_02, record_all_02, parse_job_dependencies_02}

abbrev pub names : List Reference → List Text
names = map λ r. r.job_name

-- The check of `Job.Validate`.
abbrev pub DistinctNames : List Reference → Type 0
DistinctNames ds = distinct (names ds) ≡ true

record_job_dependency-any :
    (s : Text) (r : Reference) (ds : List Reference)
    → text_eq s r.job_name ≡ false
    → any (text_eq s) (names ds) ≡ false
    → any (text_eq s) (names (record_job_dependency r ds)) ≡ false
unfolding record_job_dependency
record_job_dependency-any s r [] e h = ground arith
record_job_dependency-any s r (d ∷ ds) e h = elim (Bool-cases (text_eq d.job_name r.job_name)) [
  | inl t ↦ rw t h
  | inr f ↦ rw f (ground (arith, record_job_dependency-any s r ds e))
]

record_job_dependency-DistinctNames :
    (r : Reference) (ds : List Reference)
    → DistinctNames ds
    → DistinctNames (record_job_dependency r ds)
unfolding record_job_dependency distinct
record_job_dependency-DistinctNames r [] h = refl
record_job_dependency-DistinctNames r (d ∷ ds) h =
    elim (Bool-cases (text_eq d.job_name r.job_name)) [
      | inl t ↦ rw t h
      | inr f ↦ rw f (
          ground (
            arith,
            record_job_dependency-any d.job_name r ds f,
            record_job_dependency-DistinctNames r ds,
          ))
    ]

record_all-DistinctNames :
    (raws : List Raw) (ds : List Reference)
    → DistinctNames ds
    → OnSome (record_all raws ds) DistinctNames
unfolding record_all
record_all-DistinctNames [] ds h = h
record_all-DistinctNames (raw ∷ raws) ds h = OnSome->>= _ (as_text raw) _ (OnSome-any _) λ s _.
    OnSome->>= _ (parse_reference s) _ (OnSome-any _) λ r _.
      record_all-DistinctNames raws (record_job_dependency r ds)
        (record_job_dependency-DistinctNames r ds h)

record_all_02-DistinctNames :
    (raws : List Raw) (ds : List Reference)
    → DistinctNames ds
    → OnSome (record_all_02 raws ds) DistinctNames
unfolding record_all_02
record_all_02-DistinctNames [] ds h = h
record_all_02-DistinctNames (raw ∷ raws) ds h = OnSome->>= _ (as_text raw) _ (OnSome-any _) λ s _.
    OnSome->>= _ (parse_reference_02 s) _ (OnSome-any _) λ r _.
      record_all_02-DistinctNames raws (record_job_dependency r ds)
        (record_job_dependency-DistinctNames r ds h)

pub parse_job_dependencies-DistinctNames :
    (raw : Raw) → OnSome (parse_job_dependencies raw) DistinctNames
unfolding parse_job_dependencies
parse_job_dependencies-DistinctNames raw =
    OnSome->>= _ (text_or_array raw) _ (OnSome-any _)
      λ raws _. record_all-DistinctNames raws [] (unfold distinct in refl)

pub parse_job_dependencies_02-DistinctNames :
    (raw : Raw) → OnSome (parse_job_dependencies_02 raw) DistinctNames
unfolding parse_job_dependencies_02
parse_job_dependencies_02-DistinctNames raw =
    OnSome->>= _ (text_or_array raw) _ (OnSome-any _)
      λ raws _. record_all_02-DistinctNames raws [] (unfold distinct in refl)
