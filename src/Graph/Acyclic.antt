-- ===== src/Graph/Acyclic.antt =====
-- `add_edge` keeps the graph acyclic, and refuses only the edges that would not.
use task_rs.Base.{
  ◌≡◌, refl, sym, subst, ◌↔◌, ◌⊎◌, inl, inr, Bool, true, false, Option, none, some, List, [], ◌∷◌,
  ◌++◌, if◌then◌else◌, Text, ◌=ₜ◌, =ₜ_iff, lookup-insert, In, Bool-cases,
}
use task_rs.Graph.{Edge, TaskfileGraph, targets, out_edges, reaches, push_edge, add_edge}
use task_rs.Graph.Reaches.{HasEdge, Reaches, here, step, Reaches-trans, Decides, reaches-Decides}

In-snoc :
    {I : Type 0} (es : List (Edge I)) (e : Edge I) (x : Text)
    → In x (targets (es ++ e ∷ [])) ↔ (In x (targets es) ⊎ (x ≡ e.target))
In-snoc [] e x = (
  λ i. elim i [ inl a ↦ inr a | inr b ↦ absurd b ],
  λ i. elim i [ inl a ↦ absurd a | inr b ↦ inl b ],
)
In-snoc (d ∷ es) e x = (
  λ i. elim i [
    | inl a ↦ inl (inl a)
    | inr b ↦ elim ((In-snoc es e x).0 b) [ inl c ↦ inl (inr c) | inr c ↦ inr c ]
  ],
  λ i. elim i [
    | inl (inl a) ↦ inl a
    | inl (inr b) ↦ inr ((In-snoc es e x).1 (inl b))
    | inr c ↦ inr ((In-snoc es e x).1 (inr c))
  ],
)

module _ {A I : Type 0} (g : TaskfileGraph A I) where
  -- No edge closes a cycle, loops included.
  abbrev pub IsAcyclic : Type 0
  IsAcyclic = (a b : Text) → HasEdge g a b → ¬ Reaches g b a

module _ {A I : Type 0} (g : TaskfileGraph A I) (source target : Text) (includes : List I) where
  abbrev after : TaskfileGraph A I
  after = push_edge source target includes g

  added : Edge I
  added = record { source = source; target = target; includes = includes }

  out_edges-push_edge :
      (a : Text)
      → out_edges after a
        ≡ (if source =ₜ a then out_edges g source ++ added ∷ [] else out_edges g a)
  unfolding push_edge out_edges added
  out_edges-push_edge a =
      rw lookup-insert (elim (Bool-cases (source =ₜ a)) [ inl e ↦ rw e refl | inr e ↦ rw e refl ])

  -- The edges after one more.
  HasEdge-push_edge :
      (a b : Text) → HasEdge after a b ↔ (HasEdge g a b ⊎ ((a ≡ source) × (b ≡ target)))
  HasEdge-push_edge a b = elim (Bool-cases (source =ₜ a)) [
    | inl e ↦
        let same : source ≡ a = (=ₜ_iff source a).0 e in
        rw out_edges-push_edge (
          rw e (
            unfold added in
            (
              λ i. elim ((In-snoc (out_edges g source) _ b).0 i) [
                | inl old ↦ inl (subst (λ (t : Text). HasEdge g t b) same old)
                | inr new ↦ inr (sym same, new)
              ],
              λ i. (In-snoc (out_edges g source) _ b).1 (elim i [
                | inl old ↦ inl (subst (λ (t : Text). HasEdge g t b) (sym same) old)
                | inr new ↦ inr new.1
              ]),
            )))
    | inr e ↦ rw out_edges-push_edge (
        rw e (
          λ i. inl i,
          λ i. elim i [ inl old ↦ old | inr new ↦ cc (e, (=ₜ_iff source a).1 (sym new.0)) ],
        ))
  ]

  Reaches-push_edge :
      {a b : Text} → Reaches after a b → Reaches g a b ⊎ (Reaches g a source × Reaches g target b)
  Reaches-push_edge here = inl here
  Reaches-push_edge {b} (step e r) = elim ((HasEdge-push_edge _ _).0 e) [
    | inl old ↦ elim (Reaches-push_edge r) [
      | inl p ↦ inl (step old p)
      | inr p ↦ inr (step old p.0, p.1)
    ]
    | inr new ↦ elim (Reaches-push_edge r) [
      | inl p ↦ inr (subst (Reaches g _) new.0 here, subst (λ (t : Text). Reaches g t b) new.1 p)
      | inr p ↦ inr (subst (Reaches g _) new.0 here, p.1)
    ]
  ]

  IsAcyclic-push_edge : ¬ Reaches g target source → IsAcyclic g → IsAcyclic after
  IsAcyclic-push_edge n acyclic a b e r = elim ((HasEdge-push_edge a b).0 e) [
    | inl old ↦ elim (Reaches-push_edge r) [
      | inl p ↦ acyclic a b old p
      | inr p ↦ n (Reaches-trans g p.1 (step old p.0))
    ]
    | inr new ↦ elim (Reaches-push_edge r) [
      | inl p ↦ n (subst (λ (t : Text). Reaches g t source) new.1 (subst (Reaches g b) new.0 p))
      | inr p ↦ n (subst (λ (t : Text). Reaches g t source) new.1 p.0)
    ]
  ]

  Reaches-push_edge_old : {a b : Text} → Reaches g a b → Reaches after a b
  Reaches-push_edge_old here = here
  Reaches-push_edge_old (step e r) =
      step ((HasEdge-push_edge _ _).1 (inl e)) (Reaches-push_edge_old r)

  cycle-push_edge : Reaches g target source → ¬ IsAcyclic after
  cycle-push_edge r acyclic =
      acyclic source target ((HasEdge-push_edge source target).1 (inr (refl, refl)))
        (Reaches-push_edge_old r)

-- What `add_edge` promises: a graph with the edge, or a refusal of an edge that would close a cycle.
abbrev pub Added :
    {A I : Type 0} → TaskfileGraph A I → Text → Text → List I → Option (TaskfileGraph A I) → Type 0
Added g source target includes none = ¬ IsAcyclic (push_edge source target includes g)
Added g source target includes (some g') =
    IsAcyclic g' × ((a b : Text) → HasEdge g' a b ↔ (HasEdge g a b ⊎ ((a ≡ source) × (b ≡ target))))

-- From an acyclic graph, `add_edge` returns an acyclic graph with exactly the one edge more, and
-- fails only where that edge would close a cycle.
pub add_edge-Added :
    {A I : Type 0} (g : TaskfileGraph A I) (source target : Text) (includes : List I)
    → IsAcyclic g
    → Added g source target includes (add_edge source target includes g)
unfolding add_edge
add_edge-Added g source target includes acyclic =
    answer (reaches g target source) (reaches-Decides g target source)
  where
    answer :
        (r : Option Bool)
        → Decides (Reaches g target source) r
        → Added g source target includes (elim r [
          | some false ↦ some (push_edge source target includes g)
          | some true ↦ none
          | none ↦ none
        ])
    answer none d = absurd d
    answer (some true) d = cycle-push_edge g source target includes d
    answer (some false) d = (
      IsAcyclic-push_edge g source target includes d acyclic,
      HasEdge-push_edge g source target includes,
    )
