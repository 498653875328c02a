-- ===== src/Memory/Service.antt =====
-- src/cland/internal/memory/service.go: the service that owns the working copy of the graph, its cached
-- digest and its file. An operation runs under the mutex from its first access to its last, so it is
-- a function of the state. `writable` says whether a write of memory.json succeeds.
use minti.Base.{
  ℕ, String, Bool, true, false, List, [], ◌∷◌, ◌++◌, ◌+◌, ◌%◌, ◌^◌, Option, none, some, Result, ok,
  err, ◌==◌, ◌||◌, ltb, leb, length, any, if◌then◌else◌,
}
use minti.Memory.{
  Node, Edge, Graph, Encoding, MemoryError, no_origin, cap_exceeded, mint_failed, persist_failed,
  load_failed, self_required, replace_nil, unknown_mode, max_nodes, max_edges, max_serialized_bytes,
  validate_node, validate_edge,
}
use minti.Memory.GraphMerge.{merge, digest, new_graph, edge_key, deterministic_event_id}

-- The events that the service writes to the audit log.
pub data AuditEvent : Type 0 where
  memory_node : (id type status : String) (rev : ℕ) (origin : String) → AuditEvent
  memory_edge : (from to relation origin : String) → AuditEvent
  memory_sync : (prev_digest new_digest : String) (nodes edges : ℕ) (from : String) → AuditEvent
  memory_import :
      (mode prev_digest new_digest : String) (nodes edges : ℕ) (from : String) → AuditEvent

pub record Service : Type 0 where
  pub self_id : String
  pub clan_id : String
  pub g : Graph
  pub digest : String
  pub max_updated : ℕ
  pub memory_file : Option Graph
  pub writable : Bool
  pub audit : List AuditEvent

-- `for _, n := range nodes { if n.UpdatedAt.After(max) { max = n.UpdatedAt } }`
unfoldable pub raise_over : ℕ → List Node → ℕ
raise_over high [] = high
raise_over high (n ∷ ns) = raise_over (if ltb high n.updated_at then n.updated_at else high) ns

-- `NewService`; a file that cannot be read is an error, a missing one an empty graph.
unfoldable pub new_service :
    Encoding
    → (self_id clan_id : String) (readable writable : Bool) → Option Graph
    → Result MemoryError Service
new_service c self_id clan_id readable writable file =
    if self_id == ""
    then err self_required
    else if readable
    then ok (started (elim file [ none ↦ new_graph | some g ↦ g ]))
    else err load_failed
  where
    started : Graph → Service
    started g = record {
      self_id = self_id;
      clan_id = clan_id;
      g = g;
      digest = digest c g;
      max_updated = raise_over 0 g.nodes;
      memory_file = file;
      writable = writable;
      audit = [];
    }

-- `Snapshot`
unfoldable pub snapshot : Encoding → Service → Graph
snapshot c s = merge c (some s.g) none

-- `stampLocked`: the stamp, and the state with the mark advanced to it.
unfoldable pub stamp : Service → (now : ℕ) → ℕ
stamp s now = if ltb s.max_updated now then now else s.max_updated + 1

-- Whether `checkSizeLocked` accepts a candidate.
unfoldable pub fits : Encoding → Service → List Node → List Edge → Bool
fits c s nodes edges =
    leb
      (c.serialized_size
        (record { format_version = s.g.format_version; nodes = nodes; edges = edges }))
      max_serialized_bytes

-- `persistLocked`: the cached digest is refreshed only when the file is written.
unfoldable pub persist : Encoding → Service → Service
persist c s = if s.writable then record s { memory_file = some s.g; digest = digest c s.g } else s

abbrev pub audited : AuditEvent → Service → Service
audited event s = record s { audit = s.audit ++ event ∷ [] }

-- The node of an id is replaced where it first stands.
unfoldable pub replace_node : Node → List Node → List Node
replace_node n [] = []
replace_node n (m ∷ ms) = if m.id == n.id then n ∷ ms else m ∷ replace_node n ms

unfoldable pub find_node : (id : String) → List Node → Option Node
find_node id [] = none
find_node id (m ∷ ms) = if m.id == id then some m else find_node id ms

-- The end of a node write: the size check, the candidate taken over, the file and the audit log.
-- The mark has been advanced already.
unfoldable pub commit_node :
    Encoding → Service → (origin : String) → Node → List Node → Service × Result MemoryError Node
commit_node c s origin n candidate =
    let taken : Service = record s { g = record s.g { nodes = candidate } } in
    if fits c s candidate s.g.edges
    then (if s.writable
        then (audited (memory_node n.id n.type n.status n.rev origin) (persist c taken), ok n)
        else (taken, err persist_failed))
    else (s, err cap_exceeded)

abbrev pub or_default : (default given : String) → String
or_default default given = if given == "" then default else given

-- The stored form of a node that is created.
unfoldable pub created : Node → (id origin : String) (now stamped : ℕ) → Node
created n id origin now stamped = record n {
  id = id;
  provenance = record {
    author_member_id = origin;
    source = or_default "manual" n.provenance.source;
    created_at = now;
  };
  rev = 1;
  updated_at = stamped;
}

-- The stored form of a node that updates `old`; the revision is a uint64.
unfoldable pub updated : Node → (old : Node) (stamped : ℕ) → Node
updated n old stamped = record n {
  id = old.id;
  provenance = old.provenance;
  rev = (old.rev + 1) % 2 ^ 64;
  updated_at = stamped;
}

abbrev pub advance : Service → (stamped : ℕ) → Service
advance s stamped = record s { max_updated = stamped }

-- Creating; `minted` is the id that `NewUUIDv4` gives, if the random source works.
unfoldable pub create_node :
    Encoding
    → Service
    → (origin : String) → Node
    → (now : ℕ) → (minted : Option String) → Service × Result MemoryError Node
create_node c s origin n now minted =
    if leb max_nodes (length s.g.nodes)
    then (s, err cap_exceeded)
    else elim (if n.id == "" then minted else some n.id) [
      | none ↦ (s, err mint_failed)
      | some id ↦
          let made = created n id origin now (stamp s now) in
          commit_node c (advance s (stamp s now)) origin made (s.g.nodes ++ made ∷ [])
    ]

unfoldable pub update_node :
    Encoding
    → Service
    → (origin : String) → Node
    → (old : Node) → (now : ℕ) → Service × Result MemoryError Node
update_node c s origin n old now =
    let made = updated n old (stamp s now) in
    commit_node c (advance s (stamp s now)) origin made (replace_node made s.g.nodes)

unfoldable pub add_or_update_node :
    Encoding
    → Service
    → (origin : String) → Node
    → (now : ℕ) → (minted : Option String) → Service × Result MemoryError Node
add_or_update_node c s origin given now minted =
    let n : Node = record given { status = or_default "active" given.status } in
    if origin == "" then (s, err no_origin) else elim (validate_node n) [
      | some e ↦ (s, err e)
      | none ↦ elim (find_node n.id s.g.nodes) [
        | none ↦ create_node c s origin n now minted
        | some old ↦ update_node c s origin n old now
      ]
    ]

-- The state, whether the edge was added, and the error if there is one.
unfoldable pub add_edge :
    Encoding → Service → (origin : String) → Edge → (now : ℕ) → Service × Result MemoryError Bool
add_edge c s origin given now =
    let e : Edge = record given { created_at = now; created_by = origin } in
    let candidate : List Edge = s.g.edges ++ e ∷ [] in
    let taken : Service = record s { g = record s.g { edges = candidate } } in
    if origin == "" then (s, err no_origin) else elim (validate_edge given) [
      | some x ↦ (s, err x)
      | none ↦
          if any (λ old. edge_key old == edge_key given) s.g.edges
          then (s, ok false)
          else if leb max_edges (length s.g.edges)
          then (s, err cap_exceeded)
          else if fits c s s.g.nodes candidate
          then (if s.writable
              then (audited (memory_edge e.from e.to e.relation origin) (persist c taken), ok true)
              else (taken, err persist_failed))
          else (s, err cap_exceeded)
    ]

-- The graph taken over, the mark raised over its nodes, and the file written.
unfoldable pub take_over : Encoding → Service → Graph → AuditEvent → Service × Bool
take_over c s merged event =
    let taken : Service = record s {
      g = merged;
      max_updated = raise_over s.max_updated merged.nodes;
    } in
    if s.writable then (audited event (persist c taken), true) else (taken, false)

-- `ApplyRemote`: the state, whether the graph changed, and whether there was no error.
unfoldable pub apply_remote :
    Encoding → Service → Option Graph → (from : String) → Service × Bool × Bool
apply_remote c s none from = (s, false, true)
apply_remote c s (some remote) from =
    let merged = merge c (some s.g) (some remote) in
    let event =
      memory_sync s.digest (digest c merged) (length merged.nodes) (length merged.edges) from in
    if digest c merged == s.digest
    then (s, false, true)
    else let (t, saved) = take_over c s merged event in (t, true, saved)

-- `Replace`: the mark starts again from Go's zero time.
unfoldable pub replace :
    Encoding → Service → Option Graph → (from : String) → Service × Option MemoryError
replace c s none from = (s, some replace_nil)
replace c s (some g) from =
    let copied = merge c (some g) none in
    let event =
      memory_import "replace" s.digest (digest c copied) (length copied.nodes) (length copied.edges)
        from in
    let (t, saved) = take_over c (advance s 0) copied event in
    (t, if saved then none else some persist_failed)

-- `ImportGraph`: the state, whether the graph changed, and the error if there is one.
unfoldable pub import_graph :
    Encoding → Service → Option Graph → (mode from : String) → Service × Bool × Option MemoryError
import_graph c s g mode from =
    if mode == "" || mode == "merge"
    then (if digest c merged == s.digest then (s, false, none) else (
      (take_over c s merged event).0,
      true,
      if (take_over c s merged event).1 then none else some persist_failed,
    ))
    else if mode == "replace"
    then ((replace c s g from).0, true, (replace c s g from).1)
    else (s, false, some unknown_mode)
  where
    merged : Graph
    merged = merge c (some s.g) g

    event : AuditEvent
    event =
        memory_import "merge" s.digest (digest c merged) (length merged.nodes) (length merged.edges)
          from

-- `RecordSystemEvent`
unfoldable pub record_system_event :
    Encoding
    → Service
    → (kind subject qualifier title : String) (now : ℕ) → Service × Result MemoryError Node
record_system_event c s kind subject qualifier title now =
    add_or_update_node c s s.self_id event now none
  where
    event : Node
    event = record {
      id = deterministic_event_id c s.clan_id kind subject qualifier;
      type = "event";
      title = title;
      body = "";
      tags = [];
      status = "active";
      session_id = "";
      provenance = record { author_member_id = ""; source = "system"; created_at = 0 };
      updated_at = 0;
      rev = 0;
    }
