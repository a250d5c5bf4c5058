-- ===== src/Graph/Trimming.antt =====
-- `Trim` of a job and of a build: backend/server/dto/job.go and build.go.
use buildbeaver.Base.{
  leb, ◌==◌, if◌then◌else◌, length, any, ℕ, suc, Bool, true, false, ◌||◌, Option, none, some, List,
  [], ◌∷◌, ◌++◌, map,
}
use buildbeaver.Models.{
  Text, text_eq, is_empty, NodeFqn, new_node_fqn_for_job, fqn_eq, job_fqn, Step,
}
use buildbeaver.Graph.{
  Vertex, DagLib, Dag, new_dag, at_vertices, JobGraph, BuildGraph, step_node, build_dag,
}

abbrev pub vertex_eq : Vertex → Vertex → Bool
vertex_eq none none = true
vertex_eq (some a) (some b) = a == b
vertex_eq _ _ = false

-- `Set.Add`
unfoldable pub set_add : Vertex → List Vertex → List Vertex
set_add v set = if any (vertex_eq v) set then set else set ++ (v ∷ [])

unfoldable pub add_all : List Vertex → List Vertex → List Vertex
unfolding set_add
add_all [] set = set
add_all (v ∷ vs) set = add_all vs (set_add v set)

-- The loop that fills `keeping`, over the elements that are kept by name and their positions.
unfoldable pub keep_vertices {ℓ} :
    {A : Type ℓ} → DagLib → Dag → (A → Bool) → ℕ → List A → List Vertex → Option (List Vertex)
unfolding add_all
keep_vertices lib d p i [] keeping = some keeping
keep_vertices lib d p i (x ∷ xs) keeping =
    let skip = keep_vertices lib d p (suc i) xs keeping in
    let kept : Option (List Vertex) = elim (lib.descendents d.size d.edges (some i)) [
      | none ↦ none
      | some set ↦ keep_vertices lib d p (suc i) xs (add_all set (set_add (some i) keeping))
    ] in
    if p x then kept else skip

-- `JobGraph.Trim`
unfoldable pub trim_job : DagLib → List Text → JobGraph → Option JobGraph
unfolding keep_vertices
trim_job lib [] g = none
trim_job lib (k ∷ ks) g = elim (new_dag lib (map step_node g.steps)) [
  | none ↦ none
  | some d ↦ elim (keep_vertices lib d (λ (s : Step). any (text_eq s.name) (k ∷ ks)) 0 g.steps []) [
    | none ↦ none
    | some keeping ↦ some (record g { steps = at_vertices g.steps (lib.set_list keeping) })
  ]
]

-- An entry of `stepsToKeepByJobFQN`.
unfoldable pub steps_to_keep : NodeFqn → List NodeFqn → List Text
steps_to_keep job [] = []
steps_to_keep job (k ∷ ks) =
    let rest = steps_to_keep job ks in
    if fqn_eq (new_node_fqn_for_job k.workflow_name k.job_name) job
    then k.step_name ∷ rest
    else rest

-- The body of the loop over the jobs that are kept; a node without a step keeps all steps.
unfoldable pub trim_kept : DagLib → List NodeFqn → JobGraph → Option JobGraph
unfolding steps_to_keep trim_job
trim_kept lib keep g =
    let steps = steps_to_keep (job_fqn g.job) keep in
    if leb (length steps) 0 || any is_empty steps then some g else trim_job lib steps g

unfoldable pub trim_all : DagLib → List NodeFqn → List JobGraph → Option (List JobGraph)
unfolding trim_kept
trim_all lib keep [] = some []
trim_all lib keep (g ∷ gs) =
    let rest = trim_all lib keep gs in
    elim (trim_kept lib keep g) [
      | none ↦ none
      | some g' ↦ elim rest [ some gs' ↦ some (g' ∷ gs') | none ↦ none ]
    ]

unfoldable pub keeps_job : List NodeFqn → JobGraph → Bool
keeps_job keep g =
    any (λ k. fqn_eq (new_node_fqn_for_job k.workflow_name k.job_name) (job_fqn g.job)) keep

-- `BuildGraph.Trim`
unfoldable pub trim_build : DagLib → List NodeFqn → BuildGraph → Option BuildGraph
unfolding keep_vertices keeps_job trim_all
trim_build lib [] g = none
trim_build lib (k ∷ ks) g = elim (build_dag lib g) [
  | none ↦ none
  | some d ↦ elim (keep_vertices lib d (keeps_job (k ∷ ks)) 0 g.jobs []) [
    | none ↦ none
    | some keeping ↦ elim (trim_all lib (k ∷ ks) (at_vertices g.jobs (lib.set_list keeping))) [
      | none ↦ none
      | some jobs ↦ some (record g { jobs = jobs })
    ]
  ]
]
