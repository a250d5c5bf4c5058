-- ===== src/Parser/Fields.antt =====
-- The parts of jobs, steps and services: parser_v0.3.go, with the types of backend/common/models.
use mathlib.Core.Option
use buildbeaver.Base.{Bool, true, false, not, ◌&&◌, Option, none, some, List, [], ◌∷◌}
use buildbeaver.Models.{Text, codes, is_empty, ArtifactDefinition}
use buildbeaver.Parser.Raw.{
  Raw, nil_value, text, integer, boolean, array, object, Object, elements, members, as_text,
  as_array, as_object, field, if_set, each, ◌>>=◌, ◌>>◌, require,
}

-- `SecretString`
pub record SecretValue : Type 0 where
  pub value : Text
  pub value_from_secret : Text

abbrev pub literal : Text → SecretValue
literal s = record { value = s; value_from_secret = [] }

abbrev pub secret_named : Text → SecretValue
secret_named s = record { value = []; value_from_secret = s }

pub record JobEnvVar : Type 0 where
  pub name : Text
  pub value : SecretValue

pub record DockerBasicAuth : Type 0 where
  pub username : SecretValue
  pub password : SecretValue

pub record DockerAwsAuth : Type 0 where
  pub aws_region : Text
  pub aws_access_key_id : SecretValue
  pub aws_secret_access_key : SecretValue

pub record RegistryAuth : Type 0 where
  pub basic : Option DockerBasicAuth
  pub aws : Option DockerAwsAuth

pub record JobService : Type 0 where
  pub name : Text
  pub docker_image : Text
  pub auth : Option RegistryAuth
  pub environment : List JobEnvVar

-- `parseCommands` and `parseLabels`
unfoldable pub parse_commands : List Raw → Option (List Text)
unfolding each as_text
parse_commands = each as_text

unfoldable pub parse_labels : List Raw → Option (List Text)
unfolding each as_text
parse_labels = each as_text

-- The switch over the type of an element in `parseStringArray`; a `float64` is refused.
unfoldable pub printed : Raw → Option Text
printed (text s) = some s
printed (integer digits) = some digits
printed (boolean true) = some (codes "true")
printed (boolean false) = some (codes "false")
printed _ = none

unfoldable pub parse_string_array : List Raw → Option (List Text)
unfolding each printed
parse_string_array = each printed

-- The case of an object in `parseSecretString`.
unfoldable pub parse_value_object : Object → Option SecretValue
unfolding field as_text
parse_value_object value = elim (field (codes "from_secret") value) [
  | some secret ↦ elim (field (codes "value") value) [
    | some v ↦ none
    | none ↦ Option.map secret_named (as_text secret)
  ]
  | none ↦ elim (field (codes "value") value) [
    | some v ↦ Option.map literal (as_text v)
    | none ↦ none
  ]
]

unfoldable pub parse_secret_string : Raw → Option SecretValue
unfolding parse_value_object members
parse_secret_string (text s) = some (literal s)
parse_secret_string (object ms) = parse_value_object (members ms)
parse_secret_string _ = none

-- What must hold of a password, and of a user name and a password in the end.
abbrev pub is_from_secret : SecretValue → Bool
is_from_secret s = not (is_empty s.value_from_secret) && is_empty s.value

abbrev pub has_value : SecretValue → Bool
has_value s = not (is_empty s.value && is_empty s.value_from_secret)

unfoldable pub parse_password : Raw → Option SecretValue
unfolding parse_secret_string is_empty
parse_password raw = do s ← parse_secret_string raw; require (is_from_secret s); some s

unfoldable pub parse_basic_auth : Raw → Option (Option DockerBasicAuth)
unfolding as_object field parse_secret_string parse_password is_empty
parse_basic_auth raw = do
  value ← as_object raw
  username ← if_set (field (codes "username") value) (literal []) parse_secret_string
  password ← if_set (field (codes "password") value) (literal []) parse_password
  require (has_value username)
  require (has_value password)
  some (some (record { username = username; password = password }))

unfoldable pub parse_aws_auth : Raw → Option (Option DockerAwsAuth)
unfolding as_object as_text field parse_secret_string parse_password is_empty
parse_aws_auth raw = do
  value ← as_object raw
  region ← if_set (field (codes "aws_region") value) [] as_text
  id ← if_set (field (codes "aws_access_key_id") value) (literal []) parse_secret_string
  secret ← if_set (field (codes "aws_secret_access_key") value) (literal []) parse_password
  require (has_value id)
  require (has_value secret)
  some (
      some (record { aws_region = region; aws_access_key_id = id; aws_secret_access_key = secret }))

abbrev pub auth_of : Option DockerBasicAuth → Option DockerAwsAuth → Option RegistryAuth
auth_of none none = none
auth_of (some b) aws = some (record { basic = some b; aws = aws })
auth_of none (some a) = some (record { basic = none; aws = some a })

unfoldable pub parse_docker_auth_or_nil : Object → Option (Option RegistryAuth)
unfolding field parse_basic_auth parse_aws_auth
parse_docker_auth_or_nil config = do
  basic ← if_set (field (codes "basic_auth") config) none parse_basic_auth
  aws ← if_set (field (codes "aws_auth") config) none parse_aws_auth
  some (auth_of basic aws)

unfoldable pub parse_env_var : Text × Raw → Option JobEnvVar
unfolding parse_secret_string
parse_env_var (key, raw) =
    Option.map (λ s. record { name = key; value = s }) (parse_secret_string raw)

unfoldable pub parse_environment : Raw → Option (List JobEnvVar)
unfolding as_object each parse_env_var
parse_environment raw = do values ← as_object raw; each parse_env_var values

-- `parseArtifactDefinitionStrings`
unfoldable pub parse_artifact_strings : List Raw → Option (List ArtifactDefinition)
unfolding each as_text
parse_artifact_strings raws = do
  paths ← each as_text raws
  some (record { group_name = codes "default"; paths = paths } ∷ [])

-- The field `paths` of an artifact.
unfoldable pub parse_paths : Raw → Option (List Text)
unfolding elements parse_string_array
parse_paths (text s) = some (s ∷ [])
parse_paths (array rs) = parse_string_array (elements rs)
parse_paths _ = none

unfoldable pub parse_artifact_object : Raw → Option ArtifactDefinition
unfolding as_object as_text field parse_paths
parse_artifact_object raw = do
  value ← as_object raw
  name ← if_set (field (codes "name") value) [] as_text
  paths ← if_set (field (codes "paths") value) [] parse_paths
  some (record { group_name = name; paths = paths })

-- `parseArtifactDefinitionObjects`
unfoldable pub parse_artifact_objects : List Raw → Option (List ArtifactDefinition)
unfolding each parse_artifact_object
parse_artifact_objects = each parse_artifact_object

-- The field `artifacts` of a job: the type of the first element decides.
unfoldable pub parse_artifact_values : List Raw → Option (List ArtifactDefinition)
unfolding parse_artifact_strings parse_artifact_objects
parse_artifact_values [] = some []
parse_artifact_values (nil_value ∷ vs) = none
parse_artifact_values (text s ∷ vs) = parse_artifact_strings (text s ∷ vs)
parse_artifact_values (v ∷ vs) = parse_artifact_objects (v ∷ vs)

unfoldable pub parse_artifacts : Raw → Option (List ArtifactDefinition)
unfolding as_array parse_artifact_values
parse_artifacts raw = do values ← as_array raw; parse_artifact_values values

unfoldable pub parse_service : Raw → Option JobService
unfolding as_object as_text field parse_docker_auth_or_nil parse_environment
parse_service raw = do
  value ← as_object raw
  name ← if_set (field (codes "name") value) [] as_text
  image ← if_set (field (codes "image") value) [] as_text
  auth ← parse_docker_auth_or_nil value
  environment ← if_set (field (codes "environment") value) [] parse_environment
  some (record { name = name; docker_image = image; auth = auth; environment = environment })

-- A field of labels, of fingerprint commands or of commands: one text, or many.
unfoldable pub parse_runs_on : Raw → Option (List Text)
unfolding elements parse_labels
parse_runs_on (text s) = some (s ∷ [])
parse_runs_on (array rs) = parse_labels (elements rs)
parse_runs_on _ = none

unfoldable pub parse_fingerprint : Raw → Option (List Text)
unfolding elements parse_commands
parse_fingerprint (text s) = some (s ∷ [])
parse_fingerprint (array rs) = parse_commands (elements rs)
parse_fingerprint _ = none

unfoldable pub parse_step_commands : Raw → Option (List Text)
unfolding elements parse_commands
parse_step_commands (text s) = some (s ∷ [])
parse_step_commands (array rs) = parse_commands (elements rs)
parse_step_commands _ = none
