-- ===== src/Memory/Blueprint.antt =====
-- src/cland/internal/memory/blueprint.go: exporting the graph as a blueprint, and checking one that comes in.
use Prim.Native.String.{◌++◌ as append}
use minti.Base.{
  ℕ, suc, String, Bool, false, not, ◌&&◌, ◌||◌, List, [], ◌∷◌, Option, none, some, ◌==◌, any, keep,
  map, length, if◌then◌else◌, lookup, is_some, str_lt, sort_slice, Result, ok, err, ℤ, pos, ltb_ℤ,
}
use minti.Memory.{Node, Edge, Graph, Encoding}
use minti.Memory.GraphMerge.{merge}

abbrev pub blueprint_kind : String
blueprint_kind = "minti-clan-blueprint"

abbrev pub blueprint_format_version : ℤ
blueprint_format_version = pos 1

pub record BlueprintStats : Type 0 where
  pub nodes : ℕ
  pub edges : ℕ
  pub proposed : ℕ
  pub archived : ℕ

pub record Blueprint : Type 0 where
  pub kind : String
  pub format_version : ℤ
  pub exported_at : ℕ
  pub source_clan : String
  pub session_filter : String
  pub stats : BlueprintStats
  pub graph : Option Graph
  pub signature : String
  pub checksum_sha256 : String

pub data BlueprintError : Type 0 where
  nil_graph : BlueprintError
  session_not_found : BlueprintError
  nil_blueprint : BlueprintError
  wrong_kind : BlueprintError
  newer_version : BlueprintError
  invalid_version : BlueprintError
  no_graph : BlueprintError
  checksum_mismatch : BlueprintError

-- `keep`: the session, its nodes, and the nodes that contribute to it.
unfoldable pub is_kept : (session : String) → Graph → (id : String) → Bool
is_kept session g id =
    any (λ n. if n.id == session || n.session_id == session then n.id == id else false) g.nodes
    || any (λ e. if e.to == session && e.relation == "contributes_to" then e.from == id else false)
        g.edges

unfoldable pub filter_session : (session : String) → Graph → Graph
filter_session session g = record g {
  nodes = keep (λ n. is_kept session g n.id) g.nodes;
  edges = keep (λ e. is_kept session g e.from && is_kept session g e.to) g.edges;
}

unfoldable pub is_member_node : Graph → (id : String) → Bool
is_member_node g id = any (λ n. if n.type == "member" then n.id == id else false) g.nodes

-- Adding to the set `allIdentities`, as a list without repeats.
abbrev add_identity : String → List String → List String
add_identity s set = if any (λ t. t == s) set then set else s ∷ set

unfoldable pub author_identities : List Node → List String → List String
author_identities [] set = set
author_identities (n ∷ ns) set =
    let who = n.provenance.author_member_id in
    author_identities ns (if who == "" then set else add_identity who set)

unfoldable pub creator_identities : List Edge → List String → List String
creator_identities [] set = set
creator_identities (e ∷ es) set =
    creator_identities es (if e.created_by == "" then set else add_identity e.created_by set)

unfoldable pub member_identities : List Node → List String → List String
member_identities [] set = set
member_identities (n ∷ ns) set =
    member_identities ns (if n.type == "member" then add_identity n.id set else set)

unfoldable pub all_identities : Graph → List String
all_identities g =
    member_identities g.nodes (creator_identities g.edges (author_identities g.nodes []))

-- `mapping[k] = fmt.Sprintf("member-%d", i+1)` over the sorted keys.
unfoldable pub number_from : Encoding → (next : ℕ) → List String → List (String × String)
number_from c next [] = []
number_from c next (k ∷ ks) =
    (k, append "member-" (c.format_uint next)) ∷ number_from c (suc next) ks

unfoldable pub pseudonyms : Encoding → Graph → List (String × String)
pseudonyms c g = number_from c 1 (sort_slice str_lt (all_identities g))

-- `mapping[k]` where it is known to be there, and as `if pseudo, ok := mapping[k]; ok`.
unfoldable pub pseudonym : List (String × String) → String → String
pseudonym mapping k = elim (lookup k mapping) [ none ↦ "" | some p ↦ p ]

unfoldable pub renamed : List (String × String) → String → String
renamed mapping k = elim (lookup k mapping) [ none ↦ k | some p ↦ p ]

unfoldable pub strip_node : Graph → List (String × String) → Node → Node
strip_node g mapping n = record n {
  id = if is_member_node g n.id then pseudonym mapping n.id else n.id;
  provenance = record n.provenance {
    author_member_id = renamed mapping n.provenance.author_member_id;
  };
}

unfoldable pub strip_edge : Graph → List (String × String) → Edge → Edge
strip_edge g mapping e = record e {
  from = if is_member_node g e.from then pseudonym mapping e.from else e.from;
  to = if is_member_node g e.to then pseudonym mapping e.to else e.to;
  created_by = renamed mapping e.created_by;
}

unfoldable pub strip_authors : Encoding → Graph → Graph
strip_authors c g = record g {
  nodes = map (strip_node g (pseudonyms c g)) g.nodes;
  edges = map (strip_edge g (pseudonyms c g)) g.edges;
}

unfoldable pub compute_stats : Graph → BlueprintStats
compute_stats g = record {
  nodes = length g.nodes;
  edges = length g.edges;
  proposed = length (keep (λ n. n.status == "proposed") g.nodes);
  archived = length (keep (λ n. n.status == "archived") g.nodes);
}

-- `marshal` stands for `json.Marshal` of a blueprint.
unfoldable pub blueprint_checksum : Encoding → (marshal : Blueprint → String) → Blueprint → String
blueprint_checksum c marshal b = c.sha256 (marshal (record b { checksum_sha256 = "" }))

unfoldable pub build_blueprint :
    Encoding
    → (marshal : Blueprint → String) → Graph
    → (clan_id session_filter : String) (now : ℕ) → Blueprint
build_blueprint c marshal g clan_id session_filter now =
    let b : Blueprint = record {
      kind = blueprint_kind;
      format_version = blueprint_format_version;
      exported_at = now;
      source_clan = append "sha256:" (c.sha256 clan_id);
      session_filter = session_filter;
      stats = compute_stats g;
      graph = some g;
      signature = "";
      checksum_sha256 = "";
    } in
    record b { checksum_sha256 = blueprint_checksum c marshal b }

-- The graph that is exported, if the session is there.
unfoldable pub selected : (session_filter : String) → Graph → Option Graph
selected session_filter g =
    if session_filter == ""
    then some g
    else if any (λ n. n.id == session_filter) g.nodes
    then some (filter_session session_filter g)
    else none

unfoldable pub export_blueprint :
    Encoding
    → (marshal : Blueprint → String) → Option Graph
    → (clan_id session_filter : String) (strip : Bool) (now : ℕ) → Result BlueprintError Blueprint
export_blueprint c marshal none clan_id session_filter strip now = err nil_graph
export_blueprint c marshal (some g) clan_id session_filter strip now =
    elim (selected session_filter (merge c (some g) none)) [
      | none ↦ err session_not_found
      | some chosen ↦ ok (
          build_blueprint c marshal (if strip then strip_authors c chosen else chosen) clan_id
            session_filter now)
    ]

-- The error of a blueprint, if it has one.
unfoldable pub validate_blueprint :
    Encoding → (marshal : Blueprint → String) → Option Blueprint → Option BlueprintError
validate_blueprint c marshal none = some nil_blueprint
validate_blueprint c marshal (some b) =
    if not (b.kind == blueprint_kind)
    then some wrong_kind
    else if ltb_ℤ blueprint_format_version b.format_version
    then some newer_version
    else if ltb_ℤ b.format_version (pos 1)
    then some invalid_version
    else if not (is_some b.graph)
    then some no_graph
    else if not (blueprint_checksum c marshal b == b.checksum_sha256)
    then some checksum_mismatch
    else none

abbrev pub mark_node : Node → Node
mark_node n = record n { provenance = record n.provenance { source = "import" } }

unfoldable pub mark_imported : Encoding → Option Graph → Graph
mark_imported c g = record (merge c g none) { nodes = map mark_node (merge c g none).nodes }
