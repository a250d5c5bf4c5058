-- ===== src/Runner/Fingerprints/Tests.antt =====
-- Fingerprints of concrete jobs, with the text itself as its digest.
use buildbeaver.Base.{String, ◌≡◌, refl, false, [], ◌∷◌, ◌++◌, map}
use buildbeaver.Models.{Text, codes, text_eq, is_empty, distinct}
use mathlib.Core.List.Permᴰ
use buildbeaver.Runner.Fingerprints.{
  write, write_all, DependencyJob, text_lt, sort, job_fingerprint,
}
use buildbeaver.Runner.Fingerprints.Parts.{concat, job_fingerprint-digest}
use buildbeaver.Runner.Fingerprints.Order.{job_fingerprint-Permᴰ}

abbrev mark : Text → Text
mark t = b'#' ∷ t

abbrev on : String → String → DependencyJob
on name fingerprint = record { name = codes name; fingerprint = codes fingerprint }

job_fingerprint_example :
    job_fingerprint mark (codes "d") (on "b" "2" ∷ on "a" "1" ∷ []) (codes "o" ∷ codes "k" ∷ [])
    ≡ codes "##d12#ok"
unfolding job_fingerprint sort write_all write is_empty text_lt
job_fingerprint_example = refl

-- Two jobs of one name, which are in different workflows: the order of the list matters.
same_names_example :
    text_eq
      (job_fingerprint mark [] (on "a" "2" ∷ on "a" "1" ∷ []) [])
      (job_fingerprint mark [] (on "a" "1" ∷ on "a" "2" ∷ []) [])
    ≡ false
unfolding job_fingerprint sort write_all write is_empty text_lt text_eq
same_names_example = refl

job_fingerprint-digest_example :
    job_fingerprint mark (codes "d") (on "b" "2" ∷ on "a" "1" ∷ []) (codes "o" ∷ codes "k" ∷ [])
    ≡ mark (
        (mark (codes "d")
          ++ concat
              (map (λ (j : DependencyJob). j.fingerprint) (sort (on "b" "2" ∷ on "a" "1" ∷ []))))
        ++ mark (concat (codes "o" ∷ codes "k" ∷ [])))
job_fingerprint-digest_example =
    job_fingerprint-digest mark (codes "d") (on "b" "2" ∷ on "a" "1" ∷ [])
      (codes "o" ∷ codes "k" ∷ [])

job_fingerprint-Permᴰ_example :
    job_fingerprint mark (codes "d") (on "b" "2" ∷ on "a" "1" ∷ []) []
    ≡ job_fingerprint mark (codes "d") (on "a" "1" ∷ on "b" "2" ∷ []) []
unfolding distinct text_eq
job_fingerprint-Permᴰ_example =
    job_fingerprint-Permᴰ mark (codes "d") [] (Permᴰ.swap refl refl) refl
