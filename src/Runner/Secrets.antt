-- ===== src/Runner/Secrets.antt =====
-- Secrets and environment variables of a job: backend/runner/secret_store.go, and the parts of
-- backend/runner/executor.go that prepare variables and the authentication of Docker. Maps are lists
-- of pairs, the newest first.
pub mod Visibility
mod Tests
use buildbeaver.Base.{
  leb, if◌then◌else◌, length, ◌-◌, Bool, true, false, ◌&&◌, Option, none, some, List, [], ◌∷◌, ◌++◌,
  map,
}
use buildbeaver.Base.Options.{◌>>=◌}
use buildbeaver.Models.{Text, codes, text_eq, is_empty}
use buildbeaver.Runner.Scrubbing.{SecretPlaintext}

pub record SecretStore : Type 0 where
  pub secrets_plaintext : List SecretPlaintext
  pub by_key : List (Text × SecretPlaintext)

-- `makeSecretKey`
unfoldable pub make_secret_key : Text → Bool → Text
make_secret_key name true = name ++ codes ":true"
make_secret_key name false = name ++ codes ":false"

unfoldable pub lookup {ℓ} : {A : Type ℓ} → Text → List (Text × A) → Option A
lookup key [] = none
lookup key ((k, a) ∷ rest) = let found = lookup key rest in if text_eq k key then some a else found

-- The loop of `Init`.
unfoldable pub index_secrets :
    List SecretPlaintext → List (Text × SecretPlaintext) → List (Text × SecretPlaintext)
unfolding make_secret_key
index_secrets [] m = m
index_secrets (s ∷ ss) m = index_secrets ss ((make_secret_key s.key s.is_internal, s) ∷ m)

-- `Init`, given what the server answers.
unfoldable pub init_secrets : List SecretPlaintext → SecretStore
unfolding index_secrets
init_secrets secrets = record { secrets_plaintext = secrets; by_key = index_secrets secrets [] }

unfoldable pub add_secret : SecretPlaintext → SecretStore → SecretStore
unfolding make_secret_key
add_secret s store = record {
  secrets_plaintext = store.secrets_plaintext ++ (s ∷ []);
  by_key = (make_secret_key s.key s.is_internal, s) ∷ store.by_key;
}

unfoldable pub get_secret : Text → Bool → SecretStore → Option SecretPlaintext
unfolding lookup
get_secret name internal store = lookup (make_secret_key name internal) store.by_key

unfoldable pub get_all_secrets : SecretStore → List SecretPlaintext
get_all_secrets store = store.secrets_plaintext

-- The variables of `Executor.state`, and its secret store.
pub record ExecutorState : Type 0 where
  pub global_env_vars : List Text
  pub global_env_vars_by_name : List (Text × Text)
  pub secret_store : SecretStore

-- `fmt.Sprintf("%s=%s", name, value)`
unfoldable pub assignment : Text → Text → Text
assignment name value = name ++ (b'=' ∷ value)

-- `addGlobalEnvVar`
unfoldable pub add_global_env_var : Text → Text → Bool → ExecutorState → ExecutorState
unfolding assignment add_secret
add_global_env_var name value is_secret st = record {
  global_env_vars = st.global_env_vars ++ (assignment name value ∷ []);
  global_env_vars_by_name = (name, value) ∷ st.global_env_vars_by_name;
  secret_store =
      if is_secret
      then add_secret (record { key = name; value = value; is_internal = false }) st.secret_store
      else st.secret_store;
}

-- `makeWorkflowList`
unfoldable pub append_workflow : Text → Text → Text
append_workflow list workflow =
    if leb 1 (length list) then (list ++ codes ",") ++ workflow else list ++ workflow

unfoldable pub make_workflow_list : Text → List Text → Text
unfolding append_workflow
make_workflow_list list [] = list
make_workflow_list list (w ∷ ws) = make_workflow_list (append_workflow list w) ws

-- The fields of `documents.RunnableJob` that variables are made of, IDs as texts.
pub record RunnableDoc : Type 0 where
  pub jwt : Text
  pub build_id : Text
  pub ref : Text
  pub workflows_to_run : List Text
  pub sha : Text
  pub author_name : Text
  pub author_email : Text
  pub committer_name : Text
  pub committer_email : Text
  pub repo_name : Text
  pub ssh_url : Text
  pub http_url : Text
  pub job_id : Text
  pub job_name : Text
  pub fingerprint : Text

-- A call of the setter in `AddStandardGlobalEnvVars`: the name, the value, and whether it is secret.
abbrev pub Variable : Type 0
Variable = Text × Text × Bool

unfoldable pub standard_variables : RunnableDoc → Text → List Variable
unfolding make_workflow_list
standard_variables r endpoint =
    (codes "BB_DYNAMIC_BUILD_API", endpoint, false)
    ∷ (codes "BB_BUILD_ACCESS_TOKEN", r.jwt, true)
    ∷ (codes "BB_BUILD_ID", r.build_id, false)
    ∷ (codes "BB_BUILD_NAME", codes "no-build-name-available", false)
    ∷ (codes "BB_BUILD_OWNER_NAME", [], false)
    ∷ (codes "BB_BUILD_REF", r.ref, false)
    ∷ (codes "BB_WORKFLOWS_TO_RUN", make_workflow_list [] r.workflows_to_run, false)
    ∷ (codes "BB_COMMIT_SHA", r.sha, false)
    ∷ (codes "BB_COMMIT_AUTHOR_NAME", r.author_name, false)
    ∷ (codes "BB_COMMIT_AUTHOR_EMAIL", r.author_name, false)
    ∷ (codes "BB_COMMIT_COMMITTER_NAME", r.committer_name, false)
    ∷ (codes "BB_COMMIT_COMMITTER_EMAIL", r.committer_email, false)
    ∷ (codes "BB_REPO_NAME", r.repo_name, false)
    ∷ (codes "BB_REPO_SSH_URL", r.ssh_url, false)
    ∷ (codes "BB_REPO_LINK", r.http_url, false)
    ∷ (codes "BB_CONTROLLER_JOB_ID", r.job_id, false)
    ∷ (codes "BB_CONTROLLER_JOB_NAME", r.job_name, false)
    ∷ (codes "BB_JOB_FINGERPRINT", r.fingerprint, false)
    ∷ []

unfoldable pub set_variables : List Variable → ExecutorState → ExecutorState
unfolding add_global_env_var
set_variables [] st = st
set_variables ((name, value, is_secret) ∷ vs) st =
    set_variables vs (add_global_env_var name value is_secret st)

-- `AddStandardGlobalEnvVars`
unfoldable pub add_standard_global_env_vars : RunnableDoc → Text → ExecutorState → ExecutorState
unfolding standard_variables set_variables
add_standard_global_env_vars r endpoint = set_variables (standard_variables r endpoint)

-- `strings.ToUpper`, of ASCII texts.
unfoldable pub to_upper : Text → Text
to_upper = map λ c. if leb b'a' c && leb c b'z' then c - 32 else c

-- `documents.EnvVar`
pub record EnvVar : Type 0 where
  pub name : Text
  pub value : Text
  pub value_from_secret : Text

-- The value that `makeEnvMappings` gives a variable.
unfoldable pub env_value : SecretStore → EnvVar → Option Text
unfolding get_secret
env_value store e =
    if is_empty e.value_from_secret
    then some e.value
    else elim (get_secret e.value_from_secret false store) [ some s ↦ some s.value | none ↦ none ]

unfoldable pub map_variables : SecretStore → List EnvVar → Option (List Text)
unfolding env_value assignment to_upper
map_variables store [] = some []
map_variables store (e ∷ es) =
    let rest = map_variables store es in
    elim (env_value store e) [
      | none ↦ none
      | some v ↦ elim rest [ some ms ↦ some (assignment (to_upper e.name) v ∷ ms) | none ↦ none ]
    ]

unfoldable pub make_env_mappings : ExecutorState → List EnvVar → Option (List Text)
unfolding map_variables
make_env_mappings st es = elim (map_variables st.secret_store es) [
  | some ms ↦ some (st.global_env_vars ++ ms)
  | none ↦ none
]

-- A field of `documents.DockerConfig` that is given directly or by the name of a secret.
pub record SecretString : Type 0 where
  pub value : Text
  pub from_secret : Text

-- The name of a user may be given directly, a password may not.
unfoldable pub direct_or_secret : SecretStore → SecretString → Option Text
unfolding get_secret
direct_or_secret store s =
    if is_empty s.from_secret
    then some s.value
    else elim (get_secret s.from_secret false store) [ some x ↦ some x.value | none ↦ none ]

unfoldable pub only_secret : SecretStore → SecretString → Option Text
unfolding get_secret
only_secret store s =
    if is_empty s.from_secret
    then none
    else elim (get_secret s.from_secret false store) [ some x ↦ some x.value | none ↦ none ]

pub record BasicAuth : Type 0 where
  pub username : SecretString
  pub password : SecretString

pub record AwsAuth : Type 0 where
  pub region : Text
  pub access_key_id : SecretString
  pub secret_access_key : SecretString

-- `docker.Auth`
pub record DockerAuth : Type 0 where
  pub basic : Option (Text × Text)
  pub aws : Option (Text × Text × Text)

unfoldable pub basic_auth : SecretStore → Option BasicAuth → Option (Option (Text × Text))
unfolding direct_or_secret only_secret
basic_auth store none = some none
basic_auth store (some b) = do
  username ← direct_or_secret store b.username
  password ← only_secret store b.password
  some (some (username, password))

unfoldable pub aws_auth : SecretStore → Option AwsAuth → Option (Option (Text × Text × Text))
unfolding direct_or_secret only_secret
aws_auth store none = some none
aws_auth store (some a) = do
  id ← direct_or_secret store a.access_key_id
  secret ← only_secret store a.secret_access_key
  some (some (a.region, id, secret))

-- `getDockerAuth`
unfoldable pub get_docker_auth : SecretStore → Option BasicAuth → Option AwsAuth → Option DockerAuth
unfolding basic_auth aws_auth
get_docker_auth store basic aws = do
  b ← basic_auth store basic
  a ← aws_auth store aws
  some (record { basic = b; aws = a })
