-- ===== src/Runner/Secrets/Tests.antt =====
-- Secrets and variables of concrete jobs.
use buildbeaver.Base.{OnSome, All, ◌≡◌, refl, ◌⊎◌, true, false, none, some, List, [], ◌∷◌}
use mathlib.Core.List.{Memᴰ}
use buildbeaver.Models.{codes, text_eq, is_empty}
use buildbeaver.Runner.Scrubbing.{SecretPlaintext}
use buildbeaver.Runner.Secrets.{
  init_secrets, get_all_secrets, ExecutorState, make_workflow_list, RunnableDoc,
  add_standard_global_env_vars, EnvVar, env_value, make_env_mappings, BasicAuth, get_docker_auth,
}
use buildbeaver.Runner.Secrets.Visibility.{
  init_secrets-Kept, environment-visible, get_docker_auth-visible,
}
use buildbeaver.Runner.Scrubbing.Stream.{visible}

abbrev secrets : List SecretPlaintext
secrets =
    record { key = codes "key"; value = codes "inner"; is_internal = true }
    ∷ record { key = codes "key"; value = codes "outer"; is_internal = false }
    ∷ []

abbrev job : RunnableDoc
job = record {
  jwt = codes "jwt";
  build_id = codes "build:1";
  ref = codes "refs/heads/main";
  workflows_to_run = codes "build" ∷ codes "test" ∷ [];
  sha = codes "beef";
  author_name = codes "Ann";
  author_email = codes "ann@example.com";
  committer_name = codes "Bob";
  committer_email = codes "bob@example.com";
  repo_name = codes "repo";
  ssh_url = codes "ssh";
  http_url = codes "http";
  job_id = codes "job:1";
  job_name = codes "job";
  fingerprint = [];
}

abbrev variables : List EnvVar
variables =
    record { name = codes "plain"; value = codes "text"; value_from_secret = [] }
    ∷ record { name = codes "token"; value = []; value_from_secret = codes "key" }
    ∷ []

abbrev empty_state : ExecutorState
empty_state = record {
  global_env_vars = [];
  global_env_vars_by_name = [];
  secret_store = init_secrets secrets;
}

mappings :
    make_env_mappings empty_state variables ≡ some (codes "PLAIN=text" ∷ codes "TOKEN=outer" ∷ [])
unfolding make_env_mappings init_secrets is_empty text_eq
mappings = refl

workflows : make_workflow_list [] job.workflows_to_run ≡ codes "build,test"
unfolding make_workflow_list
workflows = refl

abbrev basic : BasicAuth
basic = record {
  username = record { value = codes "ann"; from_secret = [] };
  password = record { value = []; from_secret = codes "key" };
}

environment-visible_example :
    let st = add_standard_global_env_vars job (codes "http://localhost") empty_state in
    Memᴰ (codes "jwt") (visible (get_all_secrets st.secret_store))
    × All
        (λ e.
          (is_empty e.value_from_secret ≡ true)
          ⊎ OnSome
              (env_value st.secret_store e)
              λ v. Memᴰ v (visible (get_all_secrets st.secret_store)))
        variables
environment-visible_example =
    environment-visible secrets [] [] job (codes "http://localhost") variables

get_docker_auth-visible_example :
    OnSome (get_docker_auth (init_secrets secrets) (some basic) none) λ d.
      OnSome d.basic (λ (_, p). Memᴰ p (visible (get_all_secrets (init_secrets secrets))))
      × OnSome d.aws λ (_, _, k). Memᴰ k (visible (get_all_secrets (init_secrets secrets)))
get_docker_auth-visible_example =
    get_docker_auth-visible (init_secrets secrets) (some basic) none (init_secrets-Kept secrets)
