-- ===== src/Graph.antt =====
-- The graphs of backend/server/dto: build.go, job.go and dag.go. A vertex is the position of a job or
-- step in its list, where the source has a pointer to it, and `none` is `RootNode`. The library
-- below backend/server/dto/dag is a copy of another project's, and enters as `DagLib`.
pub mod Validation
pub mod Trimming
mod Tests
use buildbeaver.Base.{
  leb, if◌then◌else◌, length, any, all, ℕ, zero, suc, Bool, true, false, not, ◌&&◌, ◌||◌, Option,
  none, some, List, [], ◌∷◌, ◌++◌, map,
}
use buildbeaver.Models.{
  text_eq, is_empty, NodeFqn, new_node_fqn, new_node_fqn_for_job, fqn_eq, JobDependency, Job,
  job_fqn, dependency_fqn, job_fqn_dependencies, job_valid, Step, step_valid, Build, build_valid,
}

-- `GraphNode`
pub record GraphNode : Type 0 where
  pub fqn : NodeFqn
  pub depends : List NodeFqn

abbrev pub Vertex : Type 0
Vertex = Option ℕ

-- `dag.BasicEdge`, from its source to its target.
abbrev pub Edge : Type 0
Edge = Vertex × Vertex

-- What the library computes of so many vertices and their edges: whether `Validate` accepts them, the
-- order in which a serial walk visits them, the result of `Descendents`, and the order of a set's
-- elements.
pub record DagLib : Type 0 where
  pub validate : ℕ → List Edge → Bool
  pub walk : ℕ → List Edge → List Vertex
  pub descendents : ℕ → List Edge → Vertex → Option (List Vertex)
  pub set_list : List Vertex → List Vertex

-- `verticesByName`, where the last of several nodes with one name is found.
unfoldable pub vertex_by_name : NodeFqn → ℕ → List GraphNode → Option ℕ
vertex_by_name name i [] = none
vertex_by_name name i (n ∷ ns) =
    let rest = vertex_by_name name (suc i) ns in
    elim rest [ some k ↦ some k | none ↦ if fqn_eq n.fqn name then some i else none ]

-- The loop over a vertex's dependencies; `none` is the error of an unknown vertex.
unfoldable pub connect : List GraphNode → NodeFqn → Option ℕ → List NodeFqn → Option (List Edge)
connect nodes fqn target [] = some []
connect nodes fqn target (d ∷ ds) =
    let rest = connect nodes fqn target ds in
    elim (vertex_by_name d 0 nodes) [
      | some k ↦ elim rest [ some es ↦ some ((some k, target) ∷ es) | none ↦ none ]
      | none ↦ if text_eq fqn.workflow_name d.workflow_name then none else rest
    ]

-- A vertex without edges is connected to the root.
unfoldable pub or_root : Option ℕ → List Edge → List Edge
or_root target [] = (none, target) ∷ []
or_root target es = es

-- The second pass of `NewDAG`.
unfoldable pub connect_all : List GraphNode → List GraphNode → Option (List Edge)
unfolding connect or_root
connect_all nodes [] = some []
connect_all nodes (n ∷ ns) =
    let rest = connect_all nodes ns in
    let target = vertex_by_name n.fqn 0 nodes in
    elim (connect nodes n.fqn target n.depends) [
      | none ↦ none
      | some es ↦ elim rest [ some fs ↦ some (or_root target es ++ fs) | none ↦ none ]
    ]

-- A `DAG`: the number of its vertices, and its edges.
pub record Dag : Type 0 where
  pub size : ℕ
  pub edges : List Edge

unfoldable pub new_dag : DagLib → List GraphNode → Option Dag
unfolding connect_all
new_dag lib nodes = elim (connect_all nodes nodes) [
  | none ↦ none
  | some es ↦
      if lib.validate (length nodes) es
      then some (record { size = length nodes; edges = es })
      else none
]

-- The element at a vertex.
unfoldable pub at_vertex {ℓ} : {A : Type ℓ} → List A → Vertex → Option A
at_vertex xs none = none
at_vertex [] (some i) = none
at_vertex (x ∷ xs) (some zero) = some x
at_vertex (x ∷ xs) (some (suc i)) = at_vertex xs (some i)

unfoldable pub at_vertices {ℓ} : {A : Type ℓ} → List A → List Vertex → List A
at_vertices xs [] = []
at_vertices xs (v ∷ vs) = elim (at_vertex xs v) [
  | some x ↦ x ∷ at_vertices xs vs
  | none ↦ at_vertices xs vs
]

-- `DAG.Walk` in series: what the callback is called with, in this order.
unfoldable pub walk {ℓ} : {A : Type ℓ} → DagLib → List A → Dag → List A
unfolding at_vertices
walk lib xs d = at_vertices xs (lib.walk d.size d.edges)

pub record JobGraph : Type 0 where
  pub job : Job
  pub steps : List Step

pub record BuildGraph : Type 0 where
  pub build : Build
  pub jobs : List JobGraph

-- `GetFQN` and `GetFQNDependencies` of a step, which leave out the workflow and the job.
unfoldable pub step_node : Step → GraphNode
unfolding new_node_fqn
step_node s = record {
  fqn = new_node_fqn [] [] s.name;
  depends = map (new_node_fqn [] []) s.depends;
}

unfoldable pub job_node : JobGraph → GraphNode
job_node g = record { fqn = job_fqn g.job; depends = job_fqn_dependencies g.job }

abbrev pub is_some {ℓ} : {A : Type ℓ} → Option A → Bool
is_some none = false
is_some (some a) = true

-- `JobGraph.Validate`
unfoldable pub job_graph_valid : DagLib → JobGraph → Bool
unfolding step_node new_dag
job_graph_valid lib g =
    leb 1 (length g.steps)
    && all step_valid g.steps
    && is_some (new_dag lib (map step_node g.steps))
    && job_valid g.job

-- Whether a lookup in `jobsByFQN` or `stepsByFQN` finds the name.
unfoldable pub has_fqn : NodeFqn → List NodeFqn → Bool
has_fqn q names = any (λ n. fqn_eq n q) names

unfoldable pub distinct_fqns : List NodeFqn → Bool
unfolding has_fqn
distinct_fqns [] = true
distinct_fqns (q ∷ qs) = not (has_fqn q qs) && distinct_fqns qs

abbrev pub job_fqns : List JobGraph → List NodeFqn
job_fqns = map λ g. job_fqn g.job

unfoldable pub own_step_fqns : JobGraph → List NodeFqn
own_step_fqns g = map (λ (s : Step). new_node_fqn g.job.workflow g.job.name s.name) g.steps

unfoldable pub step_fqns : List JobGraph → List NodeFqn
unfolding own_step_fqns
step_fqns [] = []
step_fqns (g ∷ gs) = own_step_fqns g ++ step_fqns gs

-- The two loops over dependencies. A job of another workflow may not exist yet.
unfoldable pub job_dependency_exists : List NodeFqn → Job → JobDependency → Bool
job_dependency_exists names job d =
    has_fqn (dependency_fqn d) names || not (text_eq d.workflow job.workflow)

unfoldable pub job_dependencies_exist : List JobGraph → Bool
unfolding job_dependency_exists
job_dependencies_exist gs =
    all (λ g. all (job_dependency_exists (job_fqns gs) g.job) g.job.depends) gs

unfoldable pub step_dependencies_exist : List JobGraph → Bool
unfolding step_fqns
step_dependencies_exist gs =
    all
      (λ g.
        all
          (λ (s : Step).
            all (λ d. has_fqn (new_node_fqn g.job.workflow g.job.name d) (step_fqns gs)) s.depends)
          g.steps)
      gs

-- The loop over `NodesToRun`.
unfoldable pub node_to_run_exists : List JobGraph → NodeFqn → Bool
unfolding step_fqns new_node_fqn_for_job
node_to_run_exists gs q =
    (is_empty q.job_name || has_fqn (new_node_fqn_for_job q.workflow_name q.job_name) (job_fqns gs))
    && (is_empty q.step_name || has_fqn q (step_fqns gs))

-- `BuildGraph.dag`
unfoldable pub build_dag : DagLib → BuildGraph → Option Dag
unfolding job_node new_dag
build_dag lib g = new_dag lib (map job_node g.jobs)

-- `BuildGraph.Validate`. Only the first of several steps with one name has its dependencies looked
-- up; but then the graph is not valid anyway.
unfoldable pub build_graph_valid : DagLib → BuildGraph → Bool
unfolding job_graph_valid distinct_fqns job_dependencies_exist step_dependencies_exist
    node_to_run_exists build_dag
build_graph_valid lib g =
    build_valid g.build
    && leb 1 (length g.jobs)
    && all (job_graph_valid lib) g.jobs
    && distinct_fqns (job_fqns g.jobs)
    && distinct_fqns (step_fqns g.jobs)
    && job_dependencies_exist g.jobs
    && step_dependencies_exist g.jobs
    && is_some (build_dag lib g)
    && all (node_to_run_exists g.jobs) g.build.opts.nodes_to_run
