-- ===== src/Memory/Handlers.antt =====
-- src/cland/internal/memory/handlers.go: the endpoints of the shared graph. A body that does not decode is
-- none, an origin that is not authenticated is "".
use minti.Base.{
  ℕ, String, Bool, not, ◌&&◌, Option, none, some, ◌==◌, if◌then◌else◌, Result, ok, err,
}
use minti.Memory.{Node, Edge, Graph, Encoding, MemoryError, cap_exceeded}
use minti.Memory.Service.{Service, add_or_update_node, add_edge, import_graph}
use minti.Memory.Blueprint.{Blueprint, validate_blueprint, mark_imported}

unfoldable pub status_for : MemoryError → ℕ
status_for cap_exceeded = 409
status_for _ = 400

-- The answer of an endpoint: the status, and what it carries.
pub data Answer : Type 0 where
  failed : (status : ℕ) → Answer
  graph_is : Graph → Answer
  digest_is : String → Answer
  node_is : Node → Answer
  edge_added : Bool → Answer
  imported : (changed : Bool) (digest : String) → Answer

unfoldable pub handle_get : Service → Answer
handle_get s = graph_is s.g

unfoldable pub handle_digest : Service → Answer
handle_digest s = digest_is s.digest

unfoldable pub node_answer : Result MemoryError Node → Answer
node_answer (ok stored) = node_is stored
node_answer (err e) = failed (status_for e)

unfoldable pub handle_node :
    Encoding
    → Service
    → (origin : String) → Option Node
    → (now : ℕ) → (minted : Option String) → Service × Answer
handle_node c s origin none now minted = (s, failed 400)
handle_node c s origin (some n) now minted = if origin == "" then (s, failed 401) else (
  (add_or_update_node c s origin n now minted).0,
  node_answer (add_or_update_node c s origin n now minted).1,
)

unfoldable pub edge_answer : Result MemoryError Bool → Answer
edge_answer (ok added) = edge_added added
edge_answer (err e) = failed (status_for e)

unfoldable pub handle_edge :
    Encoding → Service → (origin : String) → Option Edge → (now : ℕ) → Service × Answer
handle_edge c s origin none now = (s, failed 400)
handle_edge c s origin (some e) now =
    if origin == ""
    then (s, failed 401)
    else ((add_edge c s origin e now).0, edge_answer (add_edge c s origin e now).1)

pub record ImportRequest : Type 0 where
  pub blueprint : Option Blueprint
  pub mode : String

unfoldable pub import_answer : Service × Bool × Option MemoryError → Answer
import_answer (s, changed, none) = imported changed s.digest
import_answer (s, changed, some e) = failed (status_for e)

abbrev pub graph_of : Option Blueprint → Option Graph
graph_of none = none
graph_of (some b) = b.graph

-- `from_self` is what `requestFromSelf` finds out from the network interfaces.
unfoldable pub handle_import :
    Encoding
    → (marshal : Blueprint → String) → Service
    → (origin : String) (from_self : Bool) → Option ImportRequest
    → Service × Answer
handle_import c marshal s origin from_self none = (s, failed 400)
handle_import c marshal s origin from_self (some req) =
    let done = import_graph c s (some (mark_imported c (graph_of req.blueprint))) req.mode origin in
    if origin == "" then (s, failed 401) else elim (validate_blueprint c marshal req.blueprint) [
      | some _ ↦ (s, failed 400)
      | none ↦
          if req.mode == "replace" && not from_self
          then (s, failed 403)
          else (done.0, import_answer done)
    ]
