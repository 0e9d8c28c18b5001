-- ===== src/Graph.antt =====
-- crates/taskcore/src/ast/graph.rs: the graph of a Taskfile and its includes. A vertex's Taskfile
-- (`A`) and an include directive (`I`) are opaque here; the maps are in order of insertion, of which
-- the hash maps of the code promise nothing.
pub mod Reaches
pub mod Acyclic
mod Examples
use task_rs.Base.{
  ℕ, zero, suc, ◌+◌, Bool, true, false, Option, none, some, List, [], ◌∷◌, ◌++◌, if◌then◌else◌,
  Text, ◌=ₜ◌, Map, lookup, insert, length, any,
}

pub record Edge (I : Type 0) : Type 0 where
  pub source : Text
  pub target : Text
  pub includes : List I

pub record TaskfileGraph (A I : Type 0) : Type 0 where
  pub vertices : Map A
  pub edges : Map (List (Edge I))
  pub order : List Text

abbrev pub targets : {I : Type 0} → List (Edge I) → List Text
targets [] = []
targets (e ∷ es) = e.target ∷ targets es

abbrev pub or_empty : {A : Type 0} → Option (List A) → List A
or_empty none = []
or_empty (some xs) = xs

abbrev pub mem_text : Text → List Text → Bool
mem_text k ks = any (λ j. j =ₜ k) ks

-- The inner loop of `reaches`: `none` is its `return true`.
pub push_targets : Text → List Text → List Text → Option (List Text)
push_targets to [] stack = some stack
push_targets to (t ∷ ts) stack = if t =ₜ to then none else push_targets to ts (t ∷ stack)

abbrev pub edge_count : {I : Type 0} → Map (List (Edge I)) → ℕ
edge_count [] = 0
edge_count ((k, es) ∷ m) = length es + edge_count m

module _ {A I : Type 0} where
  -- `HashMap::insert` answers `none` for a new key: only that is appended to the order.
  pub add_vertex : Text → A → TaskfileGraph A I → TaskfileGraph A I
  add_vertex uri taskfile g = record g {
    vertices = insert uri taskfile g.vertices;
    order = elim (lookup uri g.vertices) [ none ↦ g.order ++ uri ∷ [] | some _ ↦ g.order ];
  }

  -- `self.edges.get(node)`, with no edge for a missing key
  pub out_edges : TaskfileGraph A I → Text → List (Edge I)
  out_edges g node = or_empty (lookup node g.edges)

  -- The outer loop, on fuel: the head of the list is the top of the stack.
  pub reaches_loop : ℕ → TaskfileGraph A I → Text → List Text → List Text → Option Bool
  reaches_loop zero g to stack seen = none
  reaches_loop (suc f) g to [] seen = some false
  reaches_loop (suc f) g to (node ∷ stack) seen =
      let again = reaches_loop f g to stack seen in
      let fresh : Option Bool = elim (push_targets to (targets (out_edges g node)) stack) [
        | none ↦ some true
        | some stack' ↦ reaches_loop f g to stack' (node ∷ seen)
      ] in
      if mem_text node seen then again else fresh

  pub reaches : TaskfileGraph A I → Text → Text → Option Bool
  reaches g from to =
      let searched = reaches_loop (edge_count g.edges + 2) g to (from ∷ []) [] in
      if from =ₜ to then some true else searched

  -- `entry(source).or_default().push(edge)`
  pub push_edge : Text → Text → List I → TaskfileGraph A I → TaskfileGraph A I
  push_edge source target includes g = record g {
    edges =
        insert source
          (out_edges g source
            ++ record { source = source; target = target; includes = includes } ∷ [])
          g.edges;
  }

  -- `none` is the error "would create a cycle".
  pub add_edge : Text → Text → List I → TaskfileGraph A I → Option (TaskfileGraph A I)
  add_edge source target includes g = elim (reaches g target source) [
    | some false ↦ some (push_edge source target includes g)
    | some true ↦ none
    | none ↦ none
  ]
