-- ===== src/Memory/GraphMerge.antt =====
-- src/cland/internal/memory/graph.go: `Merge`, `Digest` and the deterministic ids of the shared graph.
use Prim.Native.String.{◌++◌ as append, char_at, [], ◌∷◌ as char}
use minti.Base.{
  ℕ, String, Bool, true, List, [], ◌∷◌, ◌++◌, ◌%◌, ◌+◌, ◌/◌, Option, none, some, ltb, eqb, not, map,
  if◌then◌else◌, str_lt, sort_slice, lookup, insert, is_some, by_key, values, ℤ, pos, ltb_ℤ, ◌&&◌,
  drop,
}
use minti.Clan.RevocationList.{join_lines}
use minti.Memory.{Node, Edge, Graph, Encoding}

abbrev pub format_version : ℤ
format_version = pos 1

abbrev pub new_graph : Graph
new_graph = record { format_version = format_version; nodes = []; edges = [] }

-- The greater (updated_at, rev, hash of the canonical bytes) wins, and equals do not win.
unfoldable pub node_wins : Encoding → Node → Node → Bool
node_wins c a b =
    if not (eqb a.updated_at b.updated_at)
    then ltb b.updated_at a.updated_at
    else if not (eqb a.rev b.rev)
    then ltb b.rev a.rev
    else str_lt (c.sha256 (c.canonical_node_bytes b)) (c.sha256 (c.canonical_node_bytes a))

unfoldable pub edge_key : Edge → String
edge_key e = append e.from (append "|" (append e.to (append "|" e.relation)))

-- The loop over the local nodes: the last of an id stays.
unfoldable pub add_local_nodes : List Node → List (String × Node) → List (String × Node)
add_local_nodes [] nodes = nodes
add_local_nodes (n ∷ ns) nodes = add_local_nodes ns (insert n.id n nodes)

-- `cur, ok := nodes[n.ID]; !ok || nodeWins(n, cur)`
unfoldable pub beats : Encoding → Node → Option Node → Bool
beats c n none = true
beats c n (some cur) = node_wins c n cur

-- The loop over the remote nodes.
unfoldable pub add_remote_nodes : Encoding → List Node → List (String × Node) → List (String × Node)
add_remote_nodes c [] nodes = nodes
add_remote_nodes c (n ∷ ns) nodes =
    add_remote_nodes c ns (if beats c n (lookup n.id nodes) then insert n.id n nodes else nodes)

-- Both loops over edges: the first of a key stays.
unfoldable pub add_edges : List Edge → List (String × Edge) → List (String × Edge)
add_edges [] edges = edges
add_edges (e ∷ es) edges =
    add_edges es
      (if is_some (lookup (edge_key e) edges) then edges else insert (edge_key e) e edges)

abbrev pub nodes_of : Option Graph → List Node
nodes_of none = []
nodes_of (some g) = g.nodes

abbrev pub edges_of : Option Graph → List Edge
edges_of none = []
edges_of (some g) = g.edges

-- `if g != nil && g.FormatVersion > version { version = g.FormatVersion }`
abbrev pub raise_version : ℤ → Option Graph → ℤ
raise_version version none = version
raise_version version (some g) =
    if ltb_ℤ version g.format_version then g.format_version else version

-- A map is read out in any order and then sorted; a nil graph is none.
unfoldable pub merge : Encoding → (local_graph remote : Option Graph) → Graph
merge c local_graph remote = record {
  format_version = raise_version (raise_version format_version local_graph) remote;
  nodes = sort_slice (by_key (λ n. n.id)) (
      values (λ n. n.id)
        (add_remote_nodes c (nodes_of remote) (add_local_nodes (nodes_of local_graph) [])));
  edges =
      sort_slice (by_key edge_key)
        (values edge_key (add_edges (edges_of remote) (add_edges (edges_of local_graph) [])));
}

-- "n|id|rev|updated_at"
unfoldable pub node_line : Encoding → Node → String
node_line c n = append "n|" (
    append n.id
      (append "|" (append (c.format_uint n.rev) (append "|" (c.format_time n.updated_at)))))

unfoldable pub edge_line : Edge → String
edge_line e = append "e|" (append e.from (append "|" (append e.to (append "|" e.relation))))

unfoldable pub digest_lines : Encoding → Graph → List String
digest_lines c g =
    sort_slice str_lt (map (node_line c) g.nodes) ++ sort_slice str_lt (map edge_line g.edges)

abbrev pub is_nil {ℓ} : {A : Type ℓ} → List A → Bool
is_nil [] = true
is_nil (_ ∷ _) = Bool.false

unfoldable pub digest : Encoding → Graph → String
digest c g =
    if is_nil g.nodes && is_nil g.edges
    then c.sha256 ""
    else c.sha256 (join_lines (digest_lines c g))

-- `%x` of one byte
abbrev pub hex_digits : String
hex_digits = "0123456789abcdef"

unfoldable pub hex : List ℕ → String
hex [] = ""
hex (b ∷ bs) = char (char_at hex_digits (b / 16)) (char (char_at hex_digits (b % 16)) (hex bs))

abbrev pub take : ℕ → List ℕ → List ℕ
take n [] = []
take ℕ.zero (b ∷ bs) = []
take (ℕ.suc n) (b ∷ bs) = b ∷ take n bs

-- `b[6] = (b[6] & 0x0F) | 0x40` and `b[8] = (b[8] & 0x3F) | 0x80`, for 16 bytes.
unfoldable pub set_version : (index : ℕ) → List ℕ → List ℕ
set_version i [] = []
set_version i (b ∷ bs) =
    let left = set_version (ℕ.suc i) bs in
    (if eqb i 6 then b % 16 + 64 else if eqb i 8 then b % 64 + 128 else b) ∷ left

unfoldable pub fold_to_uuid : List ℕ → String
fold_to_uuid bytes =
    let b = set_version 0 bytes in
    append (hex (take 4 b)) (
      append "-" (
        append (hex (take 2 (drop 4 b))) (
          append "-" (
            append (hex (take 2 (drop 6 b))) (
              append "-"
                (append (hex (take 2 (drop 8 b))) (append "-" (hex (take 6 (drop 10 b))))))))))

unfoldable pub deterministic_event_id :
    Encoding → (clan_id kind subject qualifier : String) → String
deterministic_event_id c clan_id kind subject qualifier = fold_to_uuid (
    take 16 (
      c.sha256_bytes (
        append clan_id
          (append "|" (append kind (append "|" (append subject (append "|" qualifier))))))))
