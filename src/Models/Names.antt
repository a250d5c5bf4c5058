-- ===== src/Models/Names.antt =====
-- backend/common/models/resource_name.go, labels.go and node_fqn.go.
use buildbeaver.Base.{
  leb, ◌==◌, if◌then◌else◌, length, all, ℕ, Bool, not, ◌&&◌, ◌||◌, Option, none, some, List, [],
  ◌∷◌, ◌++◌,
}
use buildbeaver.Models.Strings.{Text, text_eq, is_empty}

abbrev pub resource_name_max_length : ℕ
resource_name_max_length = 100

-- The characters of `ResourceNameRegex`.
unfoldable pub name_char : ℕ → Bool
name_char c =
    (leb b'a' c && leb c b'z')
    || (leb b'A' c && leb c b'Z')
    || (leb b'0' c && leb c b'9')
    || c == b'_'
    || c == b'-'

-- `ResourceNameRegex.MatchString`: the pattern is ^[a-zA-Z0-9_-]{1,100}$.
unfoldable pub matches_name : Text → Bool
unfolding name_char
matches_name s = all name_char s && leb 1 (length s) && leb (length s) 100

-- `ResourceName.Validate` and `Label.Validate`.
unfoldable pub name_valid : Text → Bool
unfolding is_empty matches_name
name_valid s = not (is_empty s) && leb (length s) resource_name_max_length && matches_name s

pub record NodeFqn : Type 0 where
  pub workflow_name : Text
  pub job_name : Text
  pub step_name : Text

unfoldable pub new_node_fqn : Text → Text → Text → NodeFqn
new_node_fqn workflow job step = record {
  workflow_name = workflow;
  job_name = job;
  step_name = step;
}

unfoldable pub new_node_fqn_for_job : Text → Text → NodeFqn
new_node_fqn_for_job workflow job = record {
  workflow_name = workflow;
  job_name = job;
  step_name = [];
}

-- Go's `==` on the struct, by which maps find an FQN.
unfoldable pub fqn_eq : NodeFqn → NodeFqn → Bool
unfolding text_eq
fqn_eq a b =
    text_eq a.workflow_name b.workflow_name
    && text_eq a.job_name b.job_name
    && text_eq a.step_name b.step_name

-- `String`
unfoldable pub fqn_string : NodeFqn → Text
fqn_string s =
    if is_empty s.job_name && is_empty s.step_name
    then s.workflow_name
    else if is_empty s.step_name
    then s.workflow_name ++ (b'.' ∷ s.job_name)
    else s.workflow_name ++ (b'.' ∷ (s.job_name ++ (b'.' ∷ s.step_name)))

-- `Equal`
unfoldable pub fqn_equal : NodeFqn → NodeFqn → Bool
unfolding fqn_string text_eq
fqn_equal a b = text_eq (fqn_string a) (fqn_string b)

-- The text before the first dot, and the text behind it if there is one.
unfoldable pub cut : Text → Text × Option Text
cut [] = ([], none)
cut (c ∷ s) = let (before, after) = cut s in if c == b'.' then ([], some s) else (c ∷ before, after)

-- `strings.SplitN(str, ".", 3)`: at most three parts, the last one unsplit.
unfoldable pub split3 : Text → List Text
split3 s =
    let (first, rest) = cut s in
    elim rest [
      | none ↦ first ∷ []
      | some r ↦
          let (second, last) = cut r in
          elim last [ none ↦ first ∷ second ∷ [] | some t ↦ first ∷ second ∷ t ∷ [] ]
    ]

-- `Scan` of a string value; `none` is its error, which `split3` never leads to.
unfoldable pub fqn_of_parts : List Text → Option NodeFqn
fqn_of_parts (w ∷ []) = some (record { workflow_name = w; job_name = []; step_name = [] })
fqn_of_parts (w ∷ j ∷ []) = some (record { workflow_name = w; job_name = j; step_name = [] })
fqn_of_parts (w ∷ j ∷ t ∷ []) = some (record { workflow_name = w; job_name = j; step_name = t })
fqn_of_parts _ = none

unfoldable pub fqn_scan : Text → Option NodeFqn
unfolding fqn_of_parts
fqn_scan s = fqn_of_parts (split3 s)

-- `ScanWorkflowOnly`
unfoldable pub workflow_of_parts : List Text → Option NodeFqn
workflow_of_parts (w ∷ []) = some (record { workflow_name = w; job_name = []; step_name = [] })
workflow_of_parts _ = none

unfoldable pub fqn_scan_workflow_only : Text → Option NodeFqn
unfolding workflow_of_parts
fqn_scan_workflow_only s = workflow_of_parts (split3 s)

-- `Validate`
unfoldable pub fqn_valid : NodeFqn → Bool
fqn_valid s =
    (not (is_empty s.workflow_name) && matches_name s.workflow_name)
    && not (is_empty s.job_name && not (is_empty s.step_name))
    && (is_empty s.job_name || matches_name s.job_name)
    && (is_empty s.step_name || matches_name s.step_name)
