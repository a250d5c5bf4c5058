-- ===== src/Graph/Tests.antt =====
-- Graphs at concrete jobs.
use buildbeaver.Base.{◌≡◌, refl, none, some, List, [], ◌∷◌}
use buildbeaver.Models.{codes, new_node_fqn, fqn_eq}
use buildbeaver.Graph.{GraphNode, vertex_by_name, connect_all}

-- Two nodes, where the second depends on the first.
abbrev nodes : List GraphNode
nodes =
    record { fqn = new_node_fqn [] (codes "a") []; depends = [] }
    ∷ record { fqn = new_node_fqn [] (codes "b") []; depends = new_node_fqn [] (codes "a") [] ∷ [] }
    ∷ []

edges_example : connect_all nodes nodes ≡ some ((none, some 0) ∷ (some 0, some 1) ∷ [])
unfolding connect_all vertex_by_name fqn_eq new_node_fqn
edges_example = refl
