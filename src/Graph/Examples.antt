-- ===== src/Graph/Examples.antt =====
-- Runs of the graph of Taskfiles, and its theorems at a concrete graph.
use task_rs.Base.{◌≡◌, refl, true, none, some, [], ◌∷◌, ℕ, codes, ◌=ₜ◌, insert, lookup}
use task_rs.Graph.{
  TaskfileGraph, add_edge, push_edge, reaches, reaches_loop, out_edges, push_targets,
}
use task_rs.Graph.Reaches.{Reaches, Decides, reaches-Decides}
use task_rs.Graph.Acyclic.{IsAcyclic, Added, add_edge-Added}

abbrev empty : TaskfileGraph ℕ ℕ
empty = record { vertices = []; edges = []; order = [] }

abbrev two_includes : TaskfileGraph ℕ ℕ
two_includes = push_edge (codes "a") (codes "b") [] (push_edge (codes "b") (codes "c") [] empty)

reaches_grandchild : reaches two_includes (codes "a") (codes "c") ≡ some true
unfolding reaches ◌=ₜ◌ reaches_loop push_edge insert out_edges lookup push_targets
reaches_grandchild = refl

refuses_cycle : add_edge (codes "c") (codes "a") [] two_includes ≡ none
unfolding add_edge reaches ◌=ₜ◌ reaches_loop push_edge insert out_edges lookup push_targets
refuses_cycle = refl

reaches-Decides_example :
    Decides
      (Reaches two_includes (codes "c") (codes "a"))
      (reaches two_includes (codes "c") (codes "a"))
reaches-Decides_example = reaches-Decides two_includes (codes "c") (codes "a")

empty-IsAcyclic : IsAcyclic empty
unfolding out_edges lookup
empty-IsAcyclic a b e = absurd e

add_edge-Added_example :
    Added empty (codes "a") (codes "b") (1 ∷ []) (add_edge (codes "a") (codes "b") (1 ∷ []) empty)
add_edge-Added_example = add_edge-Added empty (codes "a") (codes "b") (1 ∷ []) empty-IsAcyclic
