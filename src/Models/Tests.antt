-- ===== src/Models/Tests.antt =====
-- The laws of the models at concrete inputs.
use buildbeaver.Base.{◌≡◌, refl, some}
use buildbeaver.Models.Strings.{codes, is_empty}
use buildbeaver.Models.Names.{name_char, matches_name, NodeFqn, fqn_string, fqn_scan, fqn_valid}
use buildbeaver.Models.NodeFqns.{fqn_scan-fqn_string}

abbrev build_step : NodeFqn
build_step = record {
  workflow_name = codes "release";
  job_name = codes "build";
  step_name = codes "compile";
}

fqn_scan-fqn_string_example : fqn_scan (fqn_string build_step) ≡ some build_step
unfolding fqn_valid matches_name name_char is_empty
fqn_scan-fqn_string_example = fqn_scan-fqn_string build_step refl
