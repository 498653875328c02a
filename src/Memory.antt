-- ===== src/Memory.antt =====
-- src/cland/internal/memory/graph.go and service.go: the clan's shared graph of memories. The data, the
-- caps and the checks of a write. A time is a number of nanoseconds, 0 for Go's zero time; the
-- daemon stamps every time in UTC, so an instant has one textual form.
pub mod GraphMerge
pub mod Lookups
pub mod Merging
pub mod Converging
pub mod Service
pub mod Writes
pub mod Stamps
pub mod Applying
pub mod Blueprint
pub mod Handlers
pub mod Imports
pub mod Scribe
pub mod Proposing
use Prim.Native.String.{len, count}
use minti.Base.{
  ℕ, String, Bool, true, false, not, ◌||◌, ◌&&◌, List, [], ◌∷◌, Option, none, some, ◌==◌, ltb, leb,
  eqb, length, any, if◌then◌else◌, ℤ,
}
use Prim.Native.Char.{code}

pub record Provenance : Type 0 where
  pub author_member_id : String
  pub source : String
  pub created_at : ℕ

pub record Node : Type 0 where
  pub id : String
  pub type : String
  pub title : String
  pub body : String
  pub tags : List String
  pub status : String
  pub session_id : String
  pub provenance : Provenance
  pub updated_at : ℕ
  pub rev : ℕ  -- uint64

pub record Edge : Type 0 where
  pub from : String
  pub to : String
  pub relation : String
  pub created_at : ℕ
  pub created_by : String

pub record Graph : Type 0 where
  pub format_version : ℤ
  pub nodes : List Node
  pub edges : List Edge

-- What the standard library does for this package: `sha256` is hexadecimal already and
-- `sha256_bytes` is not, `canonical_node_bytes` and `serialized_size` are `json.Marshal`,
-- `format_time` is the layout `time.RFC3339Nano`.
pub record Encoding : Type 0 where
  pub sha256 : String → String
  pub sha256_bytes : String → List ℕ
  pub canonical_node_bytes : Node → String
  pub serialized_size : Graph → ℕ
  pub format_time : ℕ → String
  pub format_uint : ℕ → String

pub data MemoryError : Type 0 where
  no_origin : MemoryError
  invalid_type : MemoryError
  invalid_status : MemoryError
  title_required : MemoryError
  title_too_long : MemoryError
  body_too_long : MemoryError
  too_many_tags : MemoryError
  invalid_source : MemoryError
  endpoints_required : MemoryError
  invalid_relation : MemoryError
  cap_exceeded : MemoryError
  mint_failed : MemoryError
  persist_failed : MemoryError
  load_failed : MemoryError
  self_required : MemoryError
  replace_nil : MemoryError
  unknown_mode : MemoryError

abbrev pub max_nodes : ℕ
max_nodes = 2000

abbrev pub max_edges : ℕ
max_edges = 8000

abbrev pub max_serialized_bytes : ℕ
max_serialized_bytes = 2097152

abbrev pub max_title_chars : ℕ
max_title_chars = 200

abbrev pub max_body_bytes : ℕ
max_body_bytes = 8192

abbrev pub max_tags : ℕ
max_tags = 16

abbrev pub node_types : List String
node_types =
    "research_session" ∷ "finding" ∷ "decision" ∷ "fact" ∷ "skill" ∷ "event" ∷ "member" ∷ "artifact"
    ∷ []

abbrev pub node_statuses : List String
node_statuses = "proposed" ∷ "active" ∷ "superseded" ∷ "archived" ∷ []

abbrev pub provenance_sources : List String
provenance_sources = "manual" ∷ "system" ∷ "scribe" ∷ "distill" ∷ "import" ∷ []

abbrev pub edge_relations : List String
edge_relations =
    "relates" ∷ "supersedes" ∷ "derived_from" ∷ "contributes_to" ∷ "about_member" ∷ "caused_by" ∷ []

unfoldable pub is_one_of : String → List String → Bool
is_one_of s words = any (λ w. w == s) words

-- `unicode.IsSpace`
unfoldable pub is_space : ℕ → Bool
is_space c =
    (leb 9 c && leb c 13)
    || eqb c 32
    || eqb c 133
    || eqb c 160
    || eqb c 5760
    || (leb 8192 c && leb c 8202)
    || eqb c 8232
    || eqb c 8233
    || eqb c 8239
    || eqb c 8287
    || eqb c 12288

-- `strings.TrimSpace(s) == ""`
unfoldable pub is_blank : String → Bool
is_blank String.[] = true
is_blank (String.◌∷◌ c s) = let rest = is_blank s in if is_space (code c) then rest else false

-- The error of a node that arrives at a write endpoint, if it has one.
unfoldable pub validate_node : Node → Option MemoryError
validate_node n =
    if n.type == "" || not (is_one_of n.type node_types)
    then some invalid_type
    else if not (n.status == "") && not (is_one_of n.status node_statuses)
    then some invalid_status
    else if is_blank n.title
    then some title_required
    else if ltb max_title_chars (count n.title)
    then some title_too_long
    else if ltb max_body_bytes (len n.body)
    then some body_too_long
    else if ltb max_tags (length n.tags)
    then some too_many_tags
    else if not (n.provenance.source == "")
        && not (is_one_of n.provenance.source provenance_sources)
    then some invalid_source
    else none

unfoldable pub validate_edge : Edge → Option MemoryError
validate_edge e =
    if e.from == "" || e.to == ""
    then some endpoints_required
    else if not (is_one_of e.relation edge_relations)
    then some invalid_relation
    else none
