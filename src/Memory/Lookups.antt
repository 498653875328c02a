-- ===== src/Memory/Lookups.antt =====
-- src/cland/internal/memory/graph.go, `Merge`: the maps that its loops fill, read at one key.
use minti.Base.{
  String, Bool, true, false, List, [], ◌∷◌, Option, none, some, ◌==◌, map, ◌≡◌, ◌⊎◌, inl, inr, refl,
  sym, arith, eq_iff, eq_refl, if◌then◌else◌, lookup, insert, is_some, find, In, IsDistinct,
  Bool-cases, Option-cases, str_lt-asym, str_lt-weak, lookup-insert, IsStrict, keys_iff, IsKeyed,
  insert-IsKeyed, subst,
}
use minti.Memory.{Node, Edge, Graph, Encoding}
use minti.Memory.GraphMerge.{
  node_wins, edge_key, add_local_nodes, add_remote_nodes, beats, add_edges,
}

abbrev pub node_id : Node → String
node_id n = n.id

abbrev pub node_at : (id : String) → Graph → Option Node
node_at id g = find node_id id g.nodes

abbrev pub edge_at : (key : String) → Graph → Option Edge
edge_at key g = find edge_key key g.edges

-- No id stands twice in a graph.
abbrev pub HasDistinctIds : Graph → Type 0
HasDistinctIds g = IsDistinct (map node_id g.nodes)

-- The node that is kept of a local and a remote one.
unfoldable pub winner : Encoding → Option Node → Option Node → Option Node
winner c none r = r
winner c (some a) none = some a
winner c (some a) (some b) = if node_wins c b a then some b else some a

-- The local edge if there is one.
abbrev pub or_else {ℓ} : {A : Type ℓ} → Option A → Option A → Option A
or_else none r = r
or_else (some a) r = some a

pub node_wins-IsStrict : (c : Encoding) → IsStrict (node_wins c)
unfolding node_wins
node_wins-IsStrict c = record {
  asym = λ a b h. ground (
    arith,
    str_lt-asym (c.sha256 (c.canonical_node_bytes a)) (c.sha256 (c.canonical_node_bytes b)),
    str_lt-asym (c.sha256 (c.canonical_node_bytes b)) (c.sha256 (c.canonical_node_bytes a)),
  );
  weak = λ a b d h. ground (
    arith,
    str_lt-weak (c.sha256 (c.canonical_node_bytes d)) (c.sha256 (c.canonical_node_bytes b))
        (c.sha256 (c.canonical_node_bytes a)),
  );
}

winner-none : (c : Encoding) (o : Option Node) → winner c o none ≡ o
unfolding winner
winner-none c none = refl
winner-none c (some a) = refl

pub winner_assoc :
    (c : Encoding) (x y z : Option Node) → winner c (winner c x y) z ≡ winner c x (winner c y z)
unfolding winner
winner_assoc c none y z = refl
winner_assoc c (some a) none z = refl
winner_assoc c (some a) (some b) none = ground arith
winner_assoc c (some a) (some b) (some d) =
    let s = node_wins-IsStrict c in
    ground (
      arith,
      s.asym a b,
      s.weak d a b,
      s.weak d b a,
      s.asym d b,
      s.asym b d,
      s.weak b d a,
      s.weak d b a,
    )

-- The id of the first node does not come again.
absent :
    (id : String) (n : Node) (ns : List Node)
    → IsDistinct (map node_id (n ∷ ns))
    → (n.id == id) ≡ true
    → find node_id id ns ≡ none
absent id n ns h e = elim (Option-cases (find node_id id ns)) [
  | inl f ↦ f
  | inr (a, f) ↦
      let there : In id (map node_id ns) = (keys_iff node_id id ns).1 (λ p. ground arith) in
      absurd (h.0 (subst (λ w. In w (map node_id ns)) (sym ((eq_iff n.id id).0 e)) there))
]

pub lookup-add_local_nodes :
    (id : String) (ns : List Node) (d : List (String × Node))
    → IsDistinct (map node_id ns)
    → lookup id (add_local_nodes ns d) ≡ or_else (find node_id id ns) (lookup id d)
unfolding add_local_nodes find
lookup-add_local_nodes id [] d h = refl
lookup-add_local_nodes id (n ∷ ns) d h =
    rw (lookup-add_local_nodes id ns (insert n.id n d) h.1, lookup-insert n.id id n d)
      (elim (Bool-cases (n.id == id)) [
        | inl e ↦ rw (e, absent id n ns h e) refl
        | inr e ↦ rw e refl
      ])

lookup_own :
    (c : Encoding) (n : Node) (d : List (String × Node))
    → lookup n.id (if beats c n (lookup n.id d) then insert n.id n d else d)
      ≡ winner c (lookup n.id d) (some n)
unfolding beats winner
lookup_own c n d = elim (Option-cases (lookup n.id d)) [
  | inl e ↦ rw (e, lookup-insert n.id n.id n d, eq_refl n.id) refl
  | inr (cur, e) ↦ elim (Bool-cases (node_wins c n cur)) [
    | inl f ↦ rw (e, f, lookup-insert n.id n.id n d, eq_refl n.id) refl
    | inr f ↦ rw (e, f, e) refl
  ]
]

lookup_step :
    (c : Encoding) (id : String) (n : Node) (d : List (String × Node))
    → lookup id (if beats c n (lookup n.id d) then insert n.id n d else d)
      ≡ (if n.id == id then winner c (lookup id d) (some n) else lookup id d)
lookup_step c id n d = elim (Bool-cases (n.id == id)) [
  | inl e ↦ rw e (
      subst
        (λ w.
          lookup w (if beats c n (lookup n.id d) then insert n.id n d else d)
          ≡ winner c (lookup w d) (some n))
        ((eq_iff n.id id).0 e) (lookup_own c n d))
  | inr e ↦ rw e (elim (Bool-cases (beats c n (lookup n.id d))) [
    | inl f ↦ rw (f, lookup-insert n.id id n d, e) refl
    | inr f ↦ rw f refl
  ])
]

pub lookup-add_remote_nodes :
    (c : Encoding) (id : String) (ns : List Node) (d : List (String × Node))
    → IsDistinct (map node_id ns)
    → lookup id (add_remote_nodes c ns d) ≡ winner c (lookup id d) (find node_id id ns)
unfolding add_remote_nodes find
lookup-add_remote_nodes c id [] d h = sym (winner-none c (lookup id d))
lookup-add_remote_nodes c id (n ∷ ns) d h =
    rw (lookup-add_remote_nodes c id ns _ h.1, lookup_step c id n d)
      (elim (Bool-cases (n.id == id)) [
        | inl e ↦ rw (e, absent id n ns h e) (winner-none c _)
        | inr e ↦ rw e refl
      ])

pub local-IsKeyed :
    (ns : List Node) (d : List (String × Node))
    → IsKeyed node_id d
    → IsKeyed node_id (add_local_nodes ns d)
unfolding add_local_nodes
local-IsKeyed [] d h = h
local-IsKeyed (n ∷ ns) d h = local-IsKeyed ns (insert n.id n d) (insert-IsKeyed node_id n d h)

-- Inserting an item under its key or not leaves the items under their keys.
may_insert-IsKeyed :
    {A : Type 0} (key : A → String) (test : Bool) (x : A) (d : List (String × A))
    → IsKeyed key d
    → IsKeyed key (if test then insert (key x) x d else d)
may_insert-IsKeyed key true x d h = insert-IsKeyed key x d h
may_insert-IsKeyed key false x d h = h

pub remote-IsKeyed :
    (c : Encoding) (ns : List Node) (d : List (String × Node))
    → IsKeyed node_id d
    → IsKeyed node_id (add_remote_nodes c ns d)
unfolding add_remote_nodes
remote-IsKeyed c [] d h = h
remote-IsKeyed c (n ∷ ns) d h =
    remote-IsKeyed c ns _ (may_insert-IsKeyed node_id (beats c n (lookup n.id d)) n d h)

pub edges-IsKeyed :
    (es : List Edge) (d : List (String × Edge))
    → IsKeyed edge_key d
    → IsKeyed edge_key (add_edges es d)
unfolding add_edges
edges-IsKeyed [] d h = h
edges-IsKeyed (e ∷ es) d h =
    edges-IsKeyed es _ (kept (Bool-cases (is_some (lookup (edge_key e) d))))
  where
    kept :
        (is_some (lookup (edge_key e) d) ≡ true) ⊎ (is_some (lookup (edge_key e) d) ≡ false)
        → IsKeyed edge_key (if is_some (lookup (edge_key e) d) then d else insert (edge_key e) e d)
    kept (inl t) = rw t h
    kept (inr t) = rw t (insert-IsKeyed edge_key e d h)

lookup_edge_step :
    (key : String) (e : Edge) (d : List (String × Edge))
    → lookup key (if is_some (lookup (edge_key e) d) then d else insert (edge_key e) e d)
      ≡ (if edge_key e == key then or_else (lookup key d) (some e) else lookup key d)
lookup_edge_step key e d = elim (Bool-cases (edge_key e == key)) [
  | inl p ↦ rw p (
      subst
        (λ w.
          lookup w (if is_some (lookup (edge_key e) d) then d else insert (edge_key e) e d)
          ≡ or_else (lookup w d) (some e))
        ((eq_iff (edge_key e) key).0 p) own)
  | inr p ↦ rw p (elim (Bool-cases (is_some (lookup (edge_key e) d))) [
    | inl f ↦ rw f refl
    | inr f ↦ rw (f, lookup-insert (edge_key e) key e d, p) refl
  ])
]
  where
    own :
        lookup (edge_key e) (if is_some (lookup (edge_key e) d) then d else insert (edge_key e) e d)
        ≡ or_else (lookup (edge_key e) d) (some e)
    own = elim (Option-cases (lookup (edge_key e) d)) [
      | inl f ↦ rw (f, lookup-insert (edge_key e) (edge_key e) e d, eq_refl (edge_key e)) refl
      | inr (x, f) ↦ rw (f, f) refl
    ]

pub lookup-add_edges :
    (key : String) (es : List Edge) (d : List (String × Edge))
    → lookup key (add_edges es d) ≡ or_else (lookup key d) (find edge_key key es)
unfolding add_edges find
lookup-add_edges key [] d = ground arith
lookup-add_edges key (e ∷ es) d =
    rw (lookup-add_edges key es _, lookup_edge_step key e d)
      (elim (Bool-cases (edge_key e == key)) [ inl p ↦ rw p (ground arith) | inr p ↦ rw p refl ])

pub or_else-none : {A : Type 0} (o : Option A) → or_else o none ≡ o
or_else-none none = refl
or_else-none (some a) = refl
