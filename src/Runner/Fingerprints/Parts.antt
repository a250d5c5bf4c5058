-- ===== src/Runner/Fingerprints/Parts.antt =====
-- What a fingerprint is made of.
use buildbeaver.Base.{◌≡◌, sym, ap, ◌∙◌, List, [], ◌∷◌, ◌++◌, map}
use buildbeaver.Models.{Text, codes, is_empty}
use mathlib.Core.List.{append-nil, append_assoc}
use buildbeaver.Runner.Fingerprints.{
  FingerprintHasher, new_hasher, write, write_all, DependencyJob, sort, prepare, finalize,
  append_jobs, job_fingerprint,
}

unfoldable pub concat : List Text → Text
concat [] = []
concat (t ∷ ts) = t ++ concat ts

write_all-current :
    (ps : List Text) (h : FingerprintHasher)
    → write_all ps h ≡ record h { current = h.current ++ concat ps }
unfolding write_all concat
write_all-current [] h = ap (λ c. record h { current = c }) (sym (append-nil h.current))
write_all-current (p ∷ ps) h =
    write_all-current ps (write p h)
    ∙ ap (λ c. record h { current = c }) (append_assoc h.current p (concat ps))

-- A hasher between its parts.
abbrev closed : Text → List (Text × Text) → FingerprintHasher
closed written report = record {
  written = written;
  current = [];
  current_name = [];
  intermediate = report;
}

module _ (digest : Text → Text) where
  append_jobs-written :
      (js : List DependencyJob) (w : Text) (report : List (Text × Text))
      → (report' : List (Text × Text)) × (append_jobs digest js (closed w report)
          ≡ closed (w ++ concat (map (λ (j : DependencyJob). j.fingerprint) js)) report')
  unfolding append_jobs concat is_empty
  append_jobs-written [] w report = (report, ap (λ v. closed v report) (sym (append-nil w)))
  append_jobs-written (j ∷ js) w report =
      let (report', e) =
        append_jobs-written js (w ++ j.fingerprint)
          ((j.name ++ codes " fingerprint", j.fingerprint) ∷ report) in
      (
        report',
        e
            ∙ ap (λ v. closed v report')
                (append_assoc w j.fingerprint
                  (concat (map (λ (j : DependencyJob). j.fingerprint) js))),
      )

  abbrev fingerprints : List DependencyJob → Text
  fingerprints js = concat (map (λ (j : DependencyJob). j.fingerprint) js)

  -- The hasher before the output of the commands is written to it.
  abbrev before_output : Text → List DependencyJob → List (Text × Text) → FingerprintHasher
  before_output definition js report = record {
    written = digest definition ++ fingerprints js;
    current = [];
    current_name = codes "Command(s) stdout";
    intermediate = report;
  }

  prepare-append_jobs :
      (definition : Text) (js : List DependencyJob)
      → (report : List (Text × Text)) × (prepare digest (codes "Command(s) stdout") (
            append_jobs digest js
              (write definition (prepare digest (codes "Job configuration") new_hasher)))
          ≡ before_output definition js report)
  unfolding append_jobs write concat is_empty
  prepare-append_jobs definition [] = (
    (codes "Job configuration", digest definition) ∷ [],
    ap
        (λ w. record {
          written = w;
          current = [];
          current_name = codes "Command(s) stdout";
          intermediate = (codes "Job configuration", digest definition) ∷ [];
        })
        (sym (append-nil (digest definition))),
  )
  prepare-append_jobs definition (j ∷ js) =
      let (report, e) = append_jobs-written js (digest definition ++ j.fingerprint) (
        (j.name ++ codes " fingerprint", j.fingerprint)
        ∷ (codes "Job configuration", digest definition)
        ∷ []) in
      (
        report,
        ap (prepare digest (codes "Command(s) stdout")) e
            ∙ ap
                (λ w. record {
                  written = w;
                  current = [];
                  current_name = codes "Command(s) stdout";
                  intermediate = report;
                })
                (append_assoc (digest definition) j.fingerprint (fingerprints js)),
      )

  finalize-output :
      (definition : Text) (js : List DependencyJob) (report : List (Text × Text)) (out : List Text)
      → finalize digest (write_all out (before_output definition js report))
        ≡ digest ((digest definition ++ fingerprints js) ++ digest (concat out))
  unfolding finalize is_empty
  finalize-output definition js report out =
      ap (finalize digest) (write_all-current out (before_output definition js report))

  -- The fingerprint of a job is the digest of the digest of its definition, the fingerprints of the
  -- jobs that it depends on in the order of their names, and the digest of all that the fingerprint
  -- commands printed, however the output was cut into pieces.
  pub job_fingerprint-digest :
      (definition : Text) (js : List DependencyJob) (out : List Text)
      → job_fingerprint digest definition js out
        ≡ digest (
            (digest definition ++ concat (map (λ (j : DependencyJob). j.fingerprint) (sort js)))
            ++ digest (concat out))
  unfolding job_fingerprint
  job_fingerprint-digest definition js out =
      let (report, e) = prepare-append_jobs definition (sort js) in
      ap (λ h. finalize digest (write_all out h)) e
      ∙ finalize-output definition (sort js) report out
