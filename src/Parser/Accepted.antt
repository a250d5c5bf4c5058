-- ===== src/Parser/Accepted.antt =====
-- What holds of every job that a definition is parsed to.
use buildbeaver.Base.{if◌then◌else◌, OnSome, All, ℕ, refl, ◌||◌, none, []}
use buildbeaver.Base.Options.{OnSome->>=, OnSome-any}
use buildbeaver.Models.{Text, codes, text_eq, other_type, distinct}
use buildbeaver.Parser.Raw.{Object, as_text, as_array, as_object, field, if_set}
use buildbeaver.Parser.Jobs.{
  JobData, scan_step_execution, scan_job_type, or_nil, parse_job_name, parse_workflow, no_docker,
  parse_docker, parse_services, parse_steps_field, parse_job, is_job_kind, parse_job_element,
  parse_jobs, parse_v03,
}
use buildbeaver.Parser.Version2.{
  parse_job_dependencies_02, no_steps, parse_steps_field_02, parse_job_02, parse_job_element_02,
  parse_jobs_02, parse_v02,
}
use buildbeaver.Parser.Versions.{Readers, unmarshal, parse_version, parse}
use buildbeaver.Parser.Outcomes.{OnSome-require, OnSome-if_set, OnSome-each, OnSome-if}
use buildbeaver.Parser.Passwords.{
  HidesPasswords, parse_services-HidesPasswords, parse_docker-HidesPasswords,
}
use buildbeaver.Parser.Sequences.{Sequenced, steps_field-Sequenced, steps_field_02-Sequenced}
use buildbeaver.Parser.Distinct.{
  DistinctNames, parse_job_dependencies-DistinctNames, parse_job_dependencies_02-DistinctNames,
}
use buildbeaver.Parser.References.{parse_job_dependencies}
use buildbeaver.Parser.Fields.{parse_environment, parse_artifacts, parse_runs_on, parse_fingerprint}

-- The steps of a sequential job form a chain, and are no more than the limit, if there is one; the jobs
-- that it depends on have different names; and passwords come from secrets.
abbrev pub Accepted : ℕ → JobData → Type 0
Accepted limit j =
    Sequenced limit j.step_execution j.steps
    × DistinctNames j.depends
    × HidesPasswords j.docker_auth
    × All (λ s. HidesPasswords s.auth) j.services

parse_job-Accepted : (limit : ℕ) (raw : Object) → OnSome (parse_job limit raw) (Accepted limit)
unfolding parse_job
parse_job-Accepted limit raw =
    OnSome->>= _ (if_set (field (codes "name") raw) ([], []) parse_job_name) _ (OnSome-any _)
      λ full_name _.
        OnSome->>= _
          (if_set (field (codes "workflow") raw) full_name.0 (parse_workflow full_name.0)) _
          (OnSome-any _)
          λ workflow _.
            OnSome->>= _ (if_set (field (codes "description") raw) [] as_text) _ (OnSome-any _)
              λ description _.
                OnSome->>= _ (if_set (field (codes "runs_on") raw) [] parse_runs_on) _
                  (OnSome-any _)
                  λ runs_on _.
                    OnSome->>= _ (if_set (field (codes "depends") raw) [] parse_job_dependencies) _
                      (OnSome-if_set DistinctNames (field (codes "depends") raw) []
                        parse_job_dependencies (unfold distinct in refl)
                        parse_job_dependencies-DistinctNames)
                      λ depends h.
                        OnSome->>= _ (if_set (field (codes "type") raw) other_type scan_job_type) _
                          (OnSome-any _)
                          λ type _.
                            OnSome->>= _
                              (if_set (field (codes "docker") raw) (no_docker type)
                                (parse_docker type))
                              _
                              (OnSome-if_set (λ d. HidesPasswords d.auth)
                                (field (codes "docker") raw) (no_docker type) (parse_docker type) tt
                                (parse_docker-HidesPasswords type))
                              λ d p.
                                OnSome->>= _
                                  (scan_step_execution
                                    (or_nil (field (codes "step_execution") raw)))
                                  _ (OnSome-any _)
                                  λ execution _.
                                    OnSome->>= _
                                      (if_set (field (codes "services") raw) [] parse_services) _
                                      (OnSome-if_set (All λ s. HidesPasswords s.auth)
                                        (field (codes "services") raw) [] parse_services tt
                                        parse_services-HidesPasswords)
                                      λ services q.
                                        OnSome->>= _
                                          (if_set (field (codes "fingerprint") raw) []
                                            parse_fingerprint)
                                          _ (OnSome-any _)
                                          λ fingerprint _.
                                            OnSome->>= _
                                              (if_set (field (codes "artifacts") raw) []
                                                parse_artifacts)
                                              _ (OnSome-any _)
                                              λ artifacts _.
                                                OnSome->>= _
                                                  (if_set (field (codes "environment") raw) []
                                                    parse_environment)
                                                  _ (OnSome-any _)
                                                  λ environment _.
                                                    OnSome->>= _
                                                      (if_set (field (codes "steps") raw) []
                                                        (parse_steps_field limit execution))
                                                      _
                                                      (steps_field-Sequenced limit execution
                                                        (field (codes "steps") raw))
                                                      λ steps s. (s, h, p, q)

parse_job_02-Accepted :
    (limit : ℕ) (raw : Object) → OnSome (parse_job_02 limit raw) (Accepted limit)
unfolding parse_job_02
parse_job_02-Accepted limit raw =
    OnSome->>= _ (if_set (field (codes "name") raw) [] as_text) _ (OnSome-any _) λ name _.
      OnSome->>= _ (if_set (field (codes "description") raw) [] as_text) _ (OnSome-any _)
        λ description _.
          OnSome->>= _ (if_set (field (codes "runs_on") raw) [] parse_runs_on) _ (OnSome-any _)
            λ runs_on _.
              OnSome->>= _ (if_set (field (codes "depends") raw) [] parse_job_dependencies_02) _
                (OnSome-if_set DistinctNames (field (codes "depends") raw) []
                  parse_job_dependencies_02 (unfold distinct in refl)
                  parse_job_dependencies_02-DistinctNames)
                λ depends h.
                  OnSome->>= _ (if_set (field (codes "type") raw) other_type scan_job_type) _
                    (OnSome-any _)
                    λ type _.
                      OnSome->>= _
                        (if_set (field (codes "docker") raw) (no_docker type) (parse_docker type)) _
                        (OnSome-if_set (λ d. HidesPasswords d.auth) (field (codes "docker") raw)
                          (no_docker type) (parse_docker type) tt
                          (parse_docker-HidesPasswords type))
                        λ d p.
                          OnSome->>= _
                            (scan_step_execution (or_nil (field (codes "step_execution") raw))) _
                            (OnSome-any _)
                            λ execution _.
                              OnSome->>= _ (if_set (field (codes "services") raw) [] parse_services)
                                _
                                (OnSome-if_set (All λ s. HidesPasswords s.auth)
                                  (field (codes "services") raw) [] parse_services tt
                                  parse_services-HidesPasswords)
                                λ services q.
                                  OnSome->>= _
                                    (if_set (field (codes "fingerprint") raw) [] parse_fingerprint)
                                    _ (OnSome-any _)
                                    λ fingerprint _.
                                      OnSome->>= _
                                        (if_set (field (codes "artifacts") raw) [] parse_artifacts)
                                        _ (OnSome-any _)
                                        λ artifacts _.
                                          OnSome->>= _
                                            (if_set (field (codes "steps") raw) no_steps
                                              (parse_steps_field_02 limit execution))
                                            _
                                            (steps_field_02-Sequenced limit execution
                                              (field (codes "steps") raw))
                                            λ p2 s. (s, h, p, q)

parse_v03-Accepted :
    (limit : ℕ) (element : Object) → OnSome (parse_v03 limit element) (All (Accepted limit))
unfolding parse_v03 parse_jobs parse_job_element
parse_v03-Accepted limit element =
    OnSome->>= _ (field (codes "jobs") element) _ (OnSome-any _) λ jobs _.
      OnSome->>= _ (as_array jobs) _ (OnSome-any _) λ values _.
        OnSome-each _ (parse_job_element limit) values λ raw.
          OnSome->>= _ (as_object raw) _ (OnSome-any _) λ job _.
            OnSome-require _ (is_job_kind (field (codes "kind") job)) _
              λ _. parse_job-Accepted limit job

parse_v02-Accepted :
    (limit : ℕ) (element : Object) → OnSome (parse_v02 limit element) (All (Accepted limit))
unfolding parse_v02 parse_jobs_02 parse_job_element_02
parse_v02-Accepted limit element =
    OnSome->>= _ (field (codes "jobs") element) _ (OnSome-any _) λ jobs _.
      OnSome->>= _ (as_array jobs) _ (OnSome-any _) λ values _.
        OnSome-each _ (parse_job_element_02 limit) values λ raw.
          OnSome->>= _ (as_object raw) _ (OnSome-any _) λ job _.
            OnSome-require _ (is_job_kind (field (codes "kind") job)) _
              λ _. parse_job_02-Accepted limit job

parse_version-Accepted :
    (limit : ℕ) (version : Text) (element : Object)
    → OnSome (parse_version limit version element) (All (Accepted limit))
unfolding parse_version
parse_version-Accepted limit version element =
    OnSome-if (All (Accepted limit))
      (text_eq version (codes "0.2") || text_eq version (codes "DEFAULT_VERSION"))
      (parse_v02 limit element)
      (if text_eq version (codes "0.3") then parse_v03 limit element else none)
      (parse_v02-Accepted limit element)
      (OnSome-if (All (Accepted limit)) (text_eq version (codes "0.3")) (parse_v03 limit element)
        none (parse_v03-Accepted limit element) tt)

-- In every job that a build definition is parsed to, whatever its format and its version, the steps of
-- a sequential job each depend on the one before; there are no more of them than the limit, if there is
-- one; no two dependencies name a job of one name; and the passwords for registries of Docker, also
-- those of services, are names of secrets and not given in the definition.
pub parse-Accepted :
    (readers : Readers) (limit : ℕ) (config config_type : Text)
    → OnSome (parse readers limit config config_type) (All (Accepted limit))
unfolding parse
parse-Accepted readers limit config config_type =
    OnSome->>= _ (unmarshal readers config_type config) _ (OnSome-any _) λ raw _.
      OnSome->>= _ (as_object raw) _ (OnSome-any _) λ element _.
        OnSome->>= _ (if_set (field (codes "version") element) (codes "DEFAULT_VERSION") as_text) _
          (OnSome-any _) λ version _. parse_version-Accepted limit version element
