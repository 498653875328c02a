-- ===== src/Memory/Converging.antt =====
-- src/cland/internal/memory/graph.go, `Digest`: what it depends on, and that two members that have
-- merged each other's graphs agree on it.
use Prim.Native.String.{◌++◌ as append}
use minti.Base.{
  String, List, [], ◌∷◌, ◌++◌, some, ◌≡◌, ◌≢◌, ◌↔◌, ◌⊎◌, refl, sym, ap, ap₂, ◌∙◌, map, In, str_lt,
  str_lt-IsStrict, IsAscending-unique, IsAscending-keys, keys_iff, arith, none, sort_slice, Option,
  inl, inr, ◌&&◌, if◌then◌else◌,
}
use minti.Clan.RevocationList.{join_lines}
use minti.Memory.{Edge, Graph, Encoding}
use minti.Memory.GraphMerge.{merge, digest, digest_lines, edge_key, edge_line, is_nil, node_line}
use minti.Memory.Lookups.{edge_at, or_else, HasDistinctIds}
use minti.Memory.Merging.{edge_at-merge, edges-IsAscending, nodes-merge_comm, HasNoTies}

abbrev pub edge_keys : Graph → List String
edge_keys g = map edge_key g.edges

edge_lines_of_keys : (es : List Edge) → map edge_line es ≡ map (append "e|") (map edge_key es)
unfolding edge_line edge_key
edge_lines_of_keys [] = refl
edge_lines_of_keys (e ∷ es) = ap (λ r. edge_line e ∷ r) (edge_lines_of_keys es)

-- The digest as a function of the lines of the nodes and the keys of the edges.
digest_of : Encoding → (lines keys : List String) → String
digest_of c lines keys =
    if is_nil lines && is_nil keys
    then c.sha256 ""
    else c.sha256
        (join_lines (sort_slice str_lt lines ++ sort_slice str_lt (map (append "e|") keys)))

is_nil-map : {A B : Type 0} (f : A → B) (xs : List A) → is_nil (map f xs) ≡ is_nil xs
is_nil-map f [] = refl
is_nil-map f (x ∷ xs) = refl

digest-digest_of :
    (c : Encoding) (g : Graph) → digest c g ≡ digest_of c (map (node_line c) g.nodes) (edge_keys g)
unfolding digest digest_of digest_lines
digest-digest_of c g =
    rw (is_nil-map (node_line c) g.nodes, is_nil-map edge_key g.edges, edge_lines_of_keys g.edges)
      refl

-- Graphs whose nodes agree in id, rev and updated_at and whose edges have the same keys, position by
-- position, have one digest, whatever else the nodes and the edges say.
pub digest_of_same_lines :
    (c : Encoding) (g h : Graph)
    → map (node_line c) g.nodes ≡ map (node_line c) h.nodes
    → edge_keys g ≡ edge_keys h
    → digest c g ≡ digest c h
digest_of_same_lines c g h e f =
    digest-digest_of c g ∙ ap₂ (digest_of c) e f ∙ sym (digest-digest_of c h)

or_else-some : (x y : Option Edge) → (or_else x y ≢ none) ↔ ((x ≢ none) ⊎ (y ≢ none))
or_else-some none y = (λ h. inr h, λ h. elim h [ inl p ↦ absurd (p refl) | inr q ↦ q ])
or_else-some (some x) y = (λ h. inl h, λ h p. ground arith)

-- A merge has the edge keys of both graphs.
pub edge_keys-merge :
    (c : Encoding) (key : String) (l r : Graph)
    → In key (edge_keys (merge c (some l) (some r)))
      ↔ ((edge_at key l ≢ none) ⊎ (edge_at key r ≢ none))
edge_keys-merge c key l r =
    let found = keys_iff edge_key key (merge c (some l) (some r)).edges in
    let e = edge_at-merge c key l r in
    (
      λ m. (or_else-some _ _).0 (λ p. found.0 m (e ∙ p)),
      λ h. found.1 (λ p. (or_else-some _ _).1 h (sym e ∙ p)),
    )

same_edge_keys :
    (c : Encoding) (l r : Graph)
    → edge_keys (merge c (some l) (some r)) ≡ edge_keys (merge c (some r) (some l))
same_edge_keys c l r =
    IsAscending-unique str_lt str_lt-IsStrict _ _
      (IsAscending-keys edge_key _ (edges-IsAscending c (some l) (some r)))
      (IsAscending-keys edge_key _ (edges-IsAscending c (some r) (some l)))
      (λ k. (
        λ m. (edge_keys-merge c k r l).1 (swap ((edge_keys-merge c k l r).0 m)),
        λ m. (edge_keys-merge c k l r).1 (swap ((edge_keys-merge c k r l).0 m)),
      ))
  where
    swap : {A B : Type 0} → A ⊎ B → B ⊎ A
    swap (inl a) = inr a
    swap (inr b) = inl b

-- Two members that each merge the other's graph then have one digest, in each of the graphs no id
-- standing twice and no two different nodes of one id being equal in (updated_at, rev, hash).
pub merge-digest_agrees :
    (c : Encoding) (l r : Graph)
    → HasDistinctIds l
    → HasDistinctIds r
    → HasNoTies c l r
    → digest c (merge c (some l) (some r)) ≡ digest c (merge c (some r) (some l))
merge-digest_agrees c l r h k t =
    digest_of_same_lines c (merge c (some l) (some r)) (merge c (some r) (some l))
      (ap (map (node_line c)) (nodes-merge_comm c l r h k t)) (same_edge_keys c l r)
