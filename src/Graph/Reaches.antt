-- ===== src/Graph/Reaches.antt =====
-- `reaches` decides reachability along the edges, and stops within its fuel.
use task_rs.Base.{
  ℕ, zero, suc, ◌+◌, ◌≤◌, ◌<◌, ◌≡◌, refl, ap, sym, subst, ◌↔◌, ◌⊎◌, inl, inr, Bool, true, false,
  Option, none, some, List, [], ◌∷◌, arith, if◌then◌else◌, Text, ◌=ₜ◌, =ₜ_iff, Map, lookup, length,
  In, Bool-cases,
}
use task_rs.Graph.{
  Edge, TaskfileGraph, targets, or_empty, mem_text, push_targets, edge_count, out_edges,
  reaches_loop, reaches,
}

pub mem_text_iff : (k : Text) (ks : List Text) → (mem_text k ks ≡ true) ↔ In k ks
mem_text_iff k [] = (λ h. cc, λ h. absurd h)
mem_text_iff k (j ∷ ks) = (
  λ h. elim (Bool-cases (j =ₜ k)) [
    | inl e ↦ inl (sym ((=ₜ_iff j k).0 e))
    | inr e ↦ inr ((mem_text_iff k ks).0 (ground arith))
  ],
  λ h. elim h [
    | inl e ↦ rw ((=ₜ_iff j k).1 (sym e)) refl
    | inr i ↦ ground (arith, (mem_text_iff k ks).1 i)
  ],
)

module _ {A I : Type 0} (g : TaskfileGraph A I) where
  abbrev pub HasEdge : Text → Text → Type 0
  HasEdge a b = In b (targets (out_edges g a))

  -- Following edges, none included.
  pub data Reaches : Text → Text → Type 0 where
    here : {a : Text} → Reaches a a
    step : {a b c : Text} → HasEdge a b → Reaches b c → Reaches a c

  pub Reaches-trans : {a b c : Text} → Reaches a b → Reaches b c → Reaches a c
  Reaches-trans here r = r
  Reaches-trans (step e q) r = step e (Reaches-trans q r)

  pub Reaches-snoc : {a b c : Text} → Reaches a b → HasEdge b c → Reaches a c
  Reaches-snoc r e = Reaches-trans r (step e here)

-- What the inner loop answers: the target is among the edges, or the stack with all of them on it.
abbrev Pushed : Text → List Text → List Text → Option (List Text) → Type 0
Pushed to ts stack none = In to ts
Pushed to ts stack (some stack') =
    (¬ In to ts)
    × ((x : Text) → In x stack' → In x ts ⊎ In x stack)
    × ((x : Text) → In x ts ⊎ In x stack → In x stack')
    × (length stack' ≡ length ts + length stack)

push_targets-Pushed :
    (to : Text) (ts stack : List Text) → Pushed to ts stack (push_targets to ts stack)
unfolding push_targets
push_targets-Pushed to [] stack =
    (λ i. i, λ x i. inr i, λ x i. elim i [ inl a ↦ absurd a | inr b ↦ b ], omega arith)
push_targets-Pushed to (t ∷ ts) stack = elim (Bool-cases (t =ₜ to)) [
  | inl e ↦ rw e (inl (sym ((=ₜ_iff t to).0 e)))
  | inr e ↦ rw e (more e (push_targets to ts (t ∷ stack)) (push_targets-Pushed to ts (t ∷ stack)))
]
  where
    more :
        (t =ₜ to) ≡ false
        → (r : Option (List Text)) → Pushed to ts (t ∷ stack) r
        → Pushed to (t ∷ ts) stack r
    more e none h = inr h
    more e (some stack') h = (
      λ i. elim i [ inl a ↦ cc (e, (=ₜ_iff t to).1 (sym a)) | inr b ↦ h.0 b ],
      λ x i. elim (h.1 x i) [
        | inl a ↦ inl (inr a)
        | inr (inl b) ↦ inl (inl b)
        | inr (inr b) ↦ inr b
      ],
      λ x i. elim i [
        | inl (inl a) ↦ h.2 x (inr (inl a))
        | inl (inr a) ↦ h.2 x (inl a)
        | inr b ↦ h.2 x (inr (inr b))
      ],
      omega (arith, h.3),
    )

-- The edges of the nodes that are not seen yet.
weight : {I : Type 0} → Map (List (Edge I)) → List Text → ℕ
weight [] seen = 0
weight ((k, es) ∷ m) seen = (if mem_text k seen then 0 else length es) + weight m seen

weight-le : {I : Type 0} (m : Map (List (Edge I))) → weight m [] ≤ edge_count m
unfolding weight
weight-le [] = omega arith
weight-le ((k, es) ∷ m) = omega (arith, weight-le m)

weight_mono :
    {I : Type 0} (m : Map (List (Edge I))) (node : Text) (seen : List Text)
    → weight m (node ∷ seen) ≤ weight m seen
unfolding weight
weight_mono [] node seen = omega arith
weight_mono ((k, es) ∷ m) node seen = ground (arith, weight_mono m node seen)

length-targets : {I : Type 0} (es : List (Edge I)) → length (targets es) ≡ length es
length-targets [] = refl
length-targets (e ∷ es) = ap suc (length-targets es)

-- A node that is seen for the first time takes its own edges out of the weight.
weight-seen :
    {I : Type 0} (m : Map (List (Edge I))) (node : Text) (seen : List Text)
    → mem_text node seen ≡ false
    → weight m (node ∷ seen) + length (or_empty (lookup node m)) ≤ weight m seen
unfolding weight lookup
weight-seen [] node seen h = omega arith
weight-seen ((k, es) ∷ m) node seen h = elim (Bool-cases (k =ₜ node)) [
  | inl e ↦
      let same : k ≡ node = (=ₜ_iff k node).0 e in
      let other : (node =ₜ k) ≡ true = (=ₜ_iff node k).1 (sym same) in
      let unseen : mem_text k seen ≡ false =
        subst (λ (t : Text). mem_text t seen ≡ false) (sym same) h in
      rw e (rw other (rw unseen (omega (arith, weight_mono m node seen))))
  | inr e ↦ rw e (ground (arith, weight-seen m node seen h))
]

-- The run ended, and its answer is right about `G`.
abbrev pub Decides : Type 0 → Option Bool → Type 0
Decides G (some true) = G
Decides G (some false) = ¬ G
Decides G none = ⊥

module _ {A I : Type 0} (g : TaskfileGraph A I) (from to : Text) where
  record Inv (f : ℕ) (stack seen : List Text) : Type 0 where
    fuel : length stack + weight g.edges seen < f
    sound : (x : Text) → In x stack → Reaches g from x
    closed : (x y : Text) → In x seen → HasEdge g x y → In y seen ⊎ In y stack
    start : In from seen ⊎ In from stack
    not_seen : ¬ In to seen
    not_stacked : ¬ In to stack

  -- Nothing leads out of the nodes that are seen once the stack is empty.
  unreached :
      {f : ℕ} {seen : List Text} {x z : Text} → Inv f [] seen → Reaches g x z → z ≡ to → ¬ In x seen
  unreached {seen} i here e = λ m. i.not_seen (subst (λ (t : Text). In t seen) e m)
  unreached i (step h r) e =
      λ m. elim (i.closed _ _ m h) [ inl a ↦ unreached i r e a | inr b ↦ absurd b ]

  Inv-skip :
      {f : ℕ} {node : Text} {stack seen : List Text}
      → Inv (suc f) (node ∷ stack) seen
      → In node seen
      → Inv f stack seen
  Inv-skip {f} {node} {stack} {seen} i m = record {
    fuel = omega (arith, i.fuel);
    sound = λ x h. i.sound x (inr h);
    closed = λ x y h e. elim (i.closed x y h e) [
      | inl a ↦ inl a
      | inr (inl b) ↦ inl (subst (λ (t : Text). In t seen) (sym b) m)
      | inr (inr b) ↦ inr b
    ];
    start = elim i.start [
      | inl a ↦ inl a
      | inr (inl b) ↦ inl (subst (λ (t : Text). In t seen) (sym b) m)
      | inr (inr b) ↦ inr b
    ];
    not_seen = i.not_seen;
    not_stacked = λ h. i.not_stacked (inr h);
  }

  out_edges_lem :
      (node : Text) → length (out_edges g node) ≡ length (or_empty (lookup node g.edges))
  unfolding out_edges
  out_edges_lem node = refl

  Inv-push :
      {f : ℕ} {node : Text} {stack seen stack' : List Text}
      → Inv (suc f) (node ∷ stack) seen
      → mem_text node seen ≡ false
      → Pushed to (targets (out_edges g node)) stack (some stack')
      → Inv f stack' (node ∷ seen)
  Inv-push {node} {stack} {seen} {stack'} i m p = record {
    fuel = omega (
      arith,
      i.fuel,
      p.3,
      weight-seen g.edges node seen m,
      length-targets (out_edges g node),
      out_edges_lem node,
    );
    sound = λ x h. elim (p.1 x h) [
      | inl a ↦ Reaches-snoc g (i.sound node (inl refl)) a
      | inr b ↦ i.sound x (inr b)
    ];
    closed = λ x y h e. elim h [
      | inl a ↦ inr (p.2 y (inl (subst (λ (t : Text). HasEdge g t y) a e)))
      | inr b ↦ elim (i.closed x y b e) [
        | inl c ↦ inl (inr c)
        | inr (inl c) ↦ inl (inl c)
        | inr (inr c) ↦ inr (p.2 y (inr c))
      ]
    ];
    start = elim i.start [
      | inl a ↦ inl (inr a)
      | inr (inl b) ↦ inl (inl b)
      | inr (inr b) ↦ inr (p.2 from (inr b))
    ];
    not_seen = λ h. elim h [ inl a ↦ i.not_stacked (inl a) | inr b ↦ i.not_seen b ];
    not_stacked = λ h. elim (p.1 to h) [ inl a ↦ p.0 a | inr b ↦ i.not_stacked (inr b) ];
  }

  reaches_loop-Decides :
      (f : ℕ) (stack seen : List Text)
      → Inv f stack seen
      → Decides (Reaches g from to) (reaches_loop f g to stack seen)
  unfolding reaches_loop
  reaches_loop-Decides zero stack seen i = absurd (omega (arith, i.fuel))
  reaches_loop-Decides (suc f) [] seen i =
      λ r. elim i.start [ inl a ↦ unreached i r refl a | inr b ↦ b ]
  reaches_loop-Decides (suc f) (node ∷ stack) seen i = elim (Bool-cases (mem_text node seen)) [
    | inl m ↦ rw m (reaches_loop-Decides f stack seen (Inv-skip i ((mem_text_iff node seen).0 m)))
    | inr m ↦ rw m (
        after (push_targets to (targets (out_edges g node)) stack)
          (push_targets-Pushed to (targets (out_edges g node)) stack)
          (λ st k. reaches_loop-Decides f st (node ∷ seen) (Inv-push i m k)))
  ]
    where
      after :
          (r : Option (List Text))
          → Pushed to (targets (out_edges g node)) stack r
          → ((st : List Text)
              → Pushed to (targets (out_edges g node)) stack (some st)
              → Decides (Reaches g from to) (reaches_loop f g to st (node ∷ seen)))
          → Decides
              (Reaches g from to)
              (elim r [ none ↦ some true | some st ↦ reaches_loop f g to st (node ∷ seen) ])
      after none p k = Reaches-snoc g (i.sound node (inl refl)) p
      after (some st) p k = k st p

  -- `reaches` stops, and answers whether the one vertex leads to the other.
  pub reaches-Decides : Decides (Reaches g from to) (reaches g from to)
  unfolding reaches
  reaches-Decides = elim (Bool-cases (from =ₜ to)) [
    | inl e ↦ rw e (subst (Reaches g from) ((=ₜ_iff from to).0 e) here)
    | inr e ↦ rw e (
        reaches_loop-Decides (edge_count g.edges + 2) (from ∷ []) [] (record {
          fuel = omega (arith, weight-le g.edges);
          sound = λ x h. elim h [ inl a ↦ subst (Reaches g from) (sym a) here | inr b ↦ absurd b ];
          closed = λ x y h k. absurd h;
          start = inr (inl refl);
          not_seen = λ h. h;
          not_stacked = λ h. elim h [ inl a ↦ cc (e, (=ₜ_iff from to).1 (sym a)) | inr b ↦ b ];
        }))
  ]
