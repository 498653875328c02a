-- ===== src/Memory/Merging.antt =====
-- src/cland/internal/memory/graph.go, `Merge`: which node of an id and which edge of a key a merge
-- keeps, and that the order of merges does not matter for nodes.
use minti.Base.{
  String, false, [], Option, none, some, ◌≡◌, inl, inr, refl, sym, ap, ◌∙◌, lookup, by_key,
  Bool-cases, IsAscending, find-values, find-sort_slice, values-IsDistinct, sort_by_key-IsAscending,
  ascending_unique, ascending-IsDistinct,
}
use minti.Memory.{Node, Graph, Encoding}
use minti.Memory.GraphMerge.{
  nodes_of, edges_of, node_wins, edge_key, add_local_nodes, add_edges, merge,
}
use minti.Memory.Lookups.{
  node_id, node_at, edge_at, HasDistinctIds, winner, or_else, or_else-none, node_wins-IsStrict,
  winner_assoc, lookup-add_local_nodes, lookup-add_remote_nodes, lookup-add_edges, local-IsKeyed,
  remote-IsKeyed, edges-IsKeyed,
}

-- Of each id a merge keeps the winner of the two graphs' nodes, and a node that only one graph has.
pub node_at-merge :
    (c : Encoding) (id : String) (l r : Graph)
    → HasDistinctIds l
    → HasDistinctIds r
    → node_at id (merge c (some l) (some r)) ≡ winner c (node_at id l) (node_at id r)
unfolding merge lookup
node_at-merge c id l r h k =
    find-sort_slice node_id id _
    ∙ find-values node_id id _ (remote-IsKeyed c r.nodes _ (local-IsKeyed l.nodes [] tt))
    ∙ lookup-add_remote_nodes c id r.nodes (add_local_nodes l.nodes []) k
    ∙ ap (λ o. winner c o (node_at id r))
        (lookup-add_local_nodes id l.nodes [] h ∙ or_else-none (node_at id l))

-- Of each key a merge keeps the local edge, and the remote one when there is no local edge.
pub edge_at-merge :
    (c : Encoding) (key : String) (l r : Graph)
    → edge_at key (merge c (some l) (some r)) ≡ or_else (edge_at key l) (edge_at key r)
unfolding merge lookup
edge_at-merge c key l r =
    find-sort_slice edge_key key _
    ∙ find-values edge_key key _ (edges-IsKeyed r.edges _ (edges-IsKeyed l.edges [] tt))
    ∙ lookup-add_edges key r.edges (add_edges l.edges [])
    ∙ ap (λ o. or_else o (edge_at key r)) (lookup-add_edges key l.edges [])

-- The nodes of a merge ascend by id.
pub nodes-IsAscending :
    (c : Encoding) (l r : Option Graph) → IsAscending (by_key node_id) (merge c l r).nodes
unfolding merge
nodes-IsAscending c l r = sort_by_key-IsAscending node_id _ (
    values-IsDistinct node_id _
      (remote-IsKeyed c (nodes_of r) _ (local-IsKeyed (nodes_of l) [] tt)))

-- The edges of a merge ascend by key.
pub edges-IsAscending :
    (c : Encoding) (l r : Option Graph) → IsAscending (by_key edge_key) (merge c l r).edges
unfolding merge
edges-IsAscending c l r =
    sort_by_key-IsAscending edge_key _ (
      values-IsDistinct edge_key _
        (edges-IsKeyed (edges_of r) _ (edges-IsKeyed (edges_of l) [] tt)))

pub merge-HasDistinctIds : (c : Encoding) (l r : Option Graph) → HasDistinctIds (merge c l r)
merge-HasDistinctIds c l r = ascending-IsDistinct node_id _ (nodes-IsAscending c l r)

-- Two merges that hold the same node of each id have one list of nodes.
same_nodes :
    (c : Encoding) (l r l' r' : Option Graph)
    → ((id : String) → node_at id (merge c l r) ≡ node_at id (merge c l' r'))
    → (merge c l r).nodes ≡ (merge c l' r').nodes
same_nodes c l r l' r' same =
    ascending_unique node_id _ _ (nodes-IsAscending c l r) (nodes-IsAscending c l' r') same

-- Of three graphs in each of which no id stands twice, the nodes of the merge do not depend on which
-- two are merged first.
pub nodes-merge_assoc :
    (c : Encoding) (x y z : Graph)
    → HasDistinctIds x
    → HasDistinctIds y
    → HasDistinctIds z
    → (merge c (some (merge c (some x) (some y))) (some z)).nodes
      ≡ (merge c (some x) (some (merge c (some y) (some z)))).nodes
nodes-merge_assoc c x y z hx hy hz = same_nodes c _ _ _ _ (λ id.
    node_at-merge c id (merge c (some x) (some y)) z (merge-HasDistinctIds c _ _) hz
    ∙ ap (λ o. winner c o (node_at id z)) (node_at-merge c id x y hx hy)
    ∙ winner_assoc c (node_at id x) (node_at id y) (node_at id z)
    ∙ ap (winner c (node_at id x)) (sym (node_at-merge c id y z hy hz))
    ∙ sym (node_at-merge c id x (merge c (some y) (some z)) hx (merge-HasDistinctIds c _ _)))

-- No two different nodes of one id have equal (updated_at, rev, hash).
abbrev pub HasNoTies : Encoding → Graph → Graph → Type 0
HasNoTies c l r =
    (id : String) (a b : Node)
    → node_at id l ≡ some a
    → node_at id r ≡ some b
    → node_wins c a b ≡ false
    → node_wins c b a ≡ false
    → a ≡ b

winner_comm :
    (c : Encoding) (x y : Option Node)
    → ((a b : Node)
        → x ≡ some a
        → y ≡ some b
        → node_wins c a b ≡ false
        → node_wins c b a ≡ false
        → a ≡ b)
    → winner c x y ≡ winner c y x
unfolding winner
winner_comm c none none h = refl
winner_comm c none (some b) h = refl
winner_comm c (some a) none h = refl
winner_comm c (some a) (some b) h = elim (Bool-cases (node_wins c b a)) [
  | inl e ↦ rw (e, (node_wins-IsStrict c).asym b a e) refl
  | inr e ↦ elim (Bool-cases (node_wins c a b)) [
    | inl f ↦ rw (e, f) refl
    | inr f ↦ rw (e, f) (ap some (h a b refl refl f e))
  ]
]

-- Two members that each merge the other's graph then have the same nodes, in each of the graphs no
-- id standing twice and no two different nodes of one id being equal in (updated_at, rev, hash).
pub nodes-merge_comm :
    (c : Encoding) (l r : Graph)
    → HasDistinctIds l
    → HasDistinctIds r
    → HasNoTies c l r
    → (merge c (some l) (some r)).nodes ≡ (merge c (some r) (some l)).nodes
nodes-merge_comm c l r h k t = same_nodes c _ _ _ _ (λ id.
    node_at-merge c id l r h k
    ∙ winner_comm c (node_at id l) (node_at id r) (t id)
    ∙ sym (node_at-merge c id r l k h))
