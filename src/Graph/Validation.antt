-- ===== src/Graph/Validation.antt =====
-- The dependencies that `Validate` and `NewDAG` look up.
use buildbeaver.Base.{
  all, ℕ, suc, ◌≡◌, refl, ap, ◌∙◌, Bool, not, ◌||◌, Option, List, [], ◌∷◌, map, arith,
}
use buildbeaver.Models.{
  Text, text_eq, NodeFqn, JobDependency, Job, job_fqn, dependency_fqn, job_fqn_dependencies,
}
use buildbeaver.Graph.{
  GraphNode, vertex_by_name, connect, connect_all, JobGraph, job_node, is_some, has_fqn, job_fqns,
  job_dependency_exists, job_dependencies_exist,
}

vertex_by_name-has_fqn :
    (q : NodeFqn) (i : ℕ) (nodes : List GraphNode)
    → is_some (vertex_by_name q i nodes) ≡ has_fqn q (map (λ n. n.fqn) nodes)
unfolding vertex_by_name has_fqn
vertex_by_name-has_fqn q i [] = refl
vertex_by_name-has_fqn q i (n ∷ ns) = ground (arith, vertex_by_name-has_fqn q (suc i) ns)

text_eq_comm : (s t : Text) → text_eq s t ≡ text_eq t s
unfolding text_eq
text_eq_comm [] [] = refl
text_eq_comm [] (c ∷ t) = refl
text_eq_comm (c ∷ s) [] = refl
text_eq_comm (c ∷ s) (d ∷ t) = ground (arith, text_eq_comm s t)

-- Whether the dependency of a vertex is known, or need not be.
unfoldable dependency_known : List GraphNode → NodeFqn → NodeFqn → Bool
dependency_known nodes fqn d =
    has_fqn d (map (λ n. n.fqn) nodes) || not (text_eq fqn.workflow_name d.workflow_name)

connect-dependency_known :
    (nodes : List GraphNode) (fqn : NodeFqn) (target : Option ℕ) (ds : List NodeFqn)
    → is_some (connect nodes fqn target ds) ≡ all (dependency_known nodes fqn) ds
unfolding connect dependency_known
connect-dependency_known nodes fqn target [] = refl
connect-dependency_known nodes fqn target (d ∷ ds) =
    ground (arith, connect-dependency_known nodes fqn target ds, vertex_by_name-has_fqn d 0 nodes)

connect_all-dependency_known :
    (nodes ns : List GraphNode)
    → is_some (connect_all nodes ns) ≡ all (λ n. all (dependency_known nodes n.fqn) n.depends) ns
unfolding connect_all
connect_all-dependency_known nodes [] = refl
connect_all-dependency_known nodes (n ∷ ns) = ground (
  arith,
  connect_all-dependency_known nodes ns,
  connect-dependency_known nodes n.fqn (vertex_by_name n.fqn 0 nodes) n.depends,
)

all-map {ℓ κ} :
    {A : Type ℓ} {B : Type κ} (f : A → B) (p : B → Bool) (q : A → Bool) (xs : List A)
    → ((x : A) → p (f x) ≡ q x)
    → all p (map f xs) ≡ all q xs
all-map f p q [] h = refl
all-map f p q (x ∷ xs) h = ground (arith, h x, all-map f p q xs h)

map_fqn : (gs : List JobGraph) → map (λ (n : GraphNode). n.fqn) (map job_node gs) ≡ job_fqns gs
unfolding job_node
map_fqn [] = refl
map_fqn (g ∷ gs) = ap (λ qs. job_fqn g.job ∷ qs) (map_fqn gs)

known-exists :
    (gs : List JobGraph) (j : Job) (d : JobDependency)
    → dependency_known (map job_node gs) (job_fqn j) (dependency_fqn d)
      ≡ job_dependency_exists (job_fqns gs) j d
unfolding dependency_known job_dependency_exists job_fqn dependency_fqn
known-exists gs j d = ground (arith, map_fqn gs, text_eq_comm j.workflow d.workflow)

-- `NewDAG` meets no unknown vertex exactly when the loop over the jobs' dependencies in `Validate`
-- finds each of them or sees that it is in another workflow.
pub connect_all-job_dependencies_exist :
    (gs : List JobGraph)
    → is_some (connect_all (map job_node gs) (map job_node gs)) ≡ job_dependencies_exist gs
unfolding job_dependencies_exist
connect_all-job_dependencies_exist gs =
    connect_all-dependency_known (map job_node gs) (map job_node gs)
    ∙ all-map job_node (λ n. all (dependency_known (map job_node gs) n.fqn) n.depends)
        (λ g. all (job_dependency_exists (job_fqns gs) g.job) g.job.depends) gs
        λ g.
          unfold job_node job_fqn_dependencies in
          all-map dependency_fqn (dependency_known (map job_node gs) (job_fqn g.job))
            (job_dependency_exists (job_fqns gs) g.job) g.job.depends (known-exists gs g.job)
