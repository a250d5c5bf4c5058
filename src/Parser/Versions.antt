-- ===== src/Parser/Versions.antt =====
-- The choice of a version and the normalisation of YAML: parser.go. The libraries that read YAML, JSON
-- and Jsonnet are the parameters of `Readers`.
use buildbeaver.Base.{if◌then◌else◌, ℕ, ◌||◌, Option, none, List, map}
use mathlib.Core.Option
use buildbeaver.Models.{Text, codes, text_eq, JobDependency, Service}
use buildbeaver.Parser.Raw.{
  Raw, text, array, object, Items, no_items, item, Members, no_members, member, Object, as_text,
  as_object, field, if_set, ◌>>=◌,
}
use buildbeaver.Parser.Jobs.{StepData, JobData, parse_v03}
use buildbeaver.Parser.Version2.{parse_v02}
use buildbeaver.Parser.References.{Reference}
use buildbeaver.Parser.Fields.{JobService}
use buildbeaver.Queue.Enqueue.Graphs.{StepDefinition, JobDefinition, Definitions}

-- What the YAML library gives: a scalar, printed by `%v`, a sequence, or a mapping with printed keys.
mutual
  pub data Yaml : Type 0 where
    scalar : Text → Yaml
    sequence : YamlItems → Yaml
    mapping : YamlPairs → Yaml

  pub data YamlItems : Type 0 where
    no_nodes : YamlItems
    node : Yaml → YamlItems → YamlItems

  pub data YamlPairs : Type 0 where
    no_pairs : YamlPairs
    pair : Text → Yaml → YamlPairs → YamlPairs

-- A write to a map.
unfoldable pub set_member : Text → Raw → Members → Members
set_member k r no_members = member k r no_members
set_member k r (member j x ms) =
    let rest = set_member k r ms in if text_eq j k then member k r ms else member j x rest

-- `normalizeMapValues`, `normalizeInterfaceArray` and `cleanupInterfaceMap`
unfoldable mutual
  unfolding set_member

  pub normalize_map_values : Yaml → Raw
  normalize_map_values (scalar s) = text s
  normalize_map_values (sequence ys) = array (normalize_array ys)
  normalize_map_values (mapping ps) = object (cleanup_map ps no_members)

  pub normalize_array : YamlItems → Items
  normalize_array no_nodes = no_items
  normalize_array (node y ys) = item (normalize_map_values y) (normalize_array ys)

  pub cleanup_map : YamlPairs → Members → Members
  cleanup_map no_pairs res = res
  cleanup_map (pair k y ps) res = cleanup_map ps (set_member k (normalize_map_values y) res)

pub record Readers : Type 0 where
  pub yaml : Text → Option Yaml
  pub json : Text → Option Raw
  pub jsonnet : Text → Option Text

-- The first switch of `Parse`, with `parseFromYAML`, `parseFromJSON` and `parseFromJSONNET`.
unfoldable pub unmarshal : Readers → Text → Text → Option Raw
unfolding normalize_map_values text_eq
unmarshal readers config_type config =
    if text_eq config_type (codes "yaml")
    then Option.map normalize_map_values (readers.yaml config)
    else if text_eq config_type (codes "json")
    then readers.json config
    else if text_eq config_type (codes "jsonnet")
    then readers.jsonnet config >>= readers.json
    else none

-- The second switch.
unfoldable pub parse_version : ℕ → Text → Object → Option (List JobData)
unfolding text_eq parse_v02 parse_v03
parse_version limit version element =
    if text_eq version (codes "0.2") || text_eq version (codes "DEFAULT_VERSION")
    then parse_v02 limit element
    else if text_eq version (codes "0.3")
    then parse_v03 limit element
    else none

-- `Parse`
unfoldable pub parse : Readers → ℕ → Text → Text → Option (List JobData)
unfolding unmarshal as_object as_text field parse_version
parse readers limit config config_type = do
  raw ← unmarshal readers config_type config
  element ← as_object raw
  version ← if_set (field (codes "version") element) (codes "DEFAULT_VERSION") as_text
  parse_version limit version element

-- The fields of a parsed job that the queue's model of `JobDefinition` has.
abbrev dependency_of : Reference → JobDependency
dependency_of r = record { workflow = r.workflow; job_name = r.job_name }

abbrev service_of : JobService → Service
service_of s = record { name = s.name; docker_image = s.docker_image }

abbrev step_of : StepData → StepDefinition
step_of s = record { name = s.name; commands = s.commands; depends = s.depends }

unfoldable pub job_definition_of : JobData → JobDefinition
job_definition_of j = record {
  name = j.name;
  workflow = j.workflow;
  depends = map dependency_of j.depends;
  services = map service_of j.services;
  type = j.type;
  runs_on = j.runs_on;
  docker_image = j.docker_image;
  docker_pull = j.docker_pull;
  fingerprint_commands = j.fingerprint_commands;
  artifact_definitions = j.artifact_definitions;
  environment = map (λ v. v.name) j.environment;
  steps = map step_of j.steps;
}

-- The parser as the queue calls it.
unfoldable pub parser_definitions : Readers → (JobDefinition → Option Text) → Definitions
unfolding parse job_definition_of
parser_definitions readers hash = record {
  hash = hash;
  parse = λ limit config config_type.
      Option.map (map job_definition_of) (parse readers limit config config_type);
}
