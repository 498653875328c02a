-- ===== src/Agent.antt =====
-- src/cland/internal/agent: registry.go, tools.go and loop.go. The loop that lets a model call tools, of which
-- those that change the system wait for an approval. What the model, the approver and the executor
-- answer may depend on all that happened before. The messages leave out the text of an error and the names that
-- the source formats into them.
pub mod Approvals
pub mod Gating
use Prim.Native.String.{◌++◌ as append, len, [], ◌∷◌ as char}
use Prim.Native.Char.{code}
use minti.Base.{
  ℕ, suc, zero, String, Bool, true, false, not, List, [] as nil, ◌∷◌, ◌++◌, Option, none, some,
  ◌==◌, eqb, ltb, leb, any, ◌||◌, if◌then◌else◌, lookup, insert, is_some, Result, ok, err,
}

abbrev pub default_max_iters : ℕ
default_max_iters = 8

abbrev pub max_result_chars : ℕ
max_result_chars = 16384

pub data ToolClass : Type 0 where
  class_read class_change : ToolClass

abbrev pub read_tools : List String
read_tools =
    "mcp-fs.read_text" ∷ "mcp-fs.list_dir" ∷ "mcp-fs.glob" ∷ "mcp-http.fetch_url"
    ∷ "mcp-http.head_url" ∷ "mcp-recon.dig_lookup" ∷ "mcp-recon.http_probe" ∷ "mcp-recon.whois"
    ∷ "mcp-recon.nmap_scan" ∷ "mcp-wiki.wiki_get" ∷ "mcp-wiki.wiki_search" ∷ "mcp-pkg.search"
    ∷ "mcp-search.web_search" ∷ nil

abbrev pub change_tools : List String
change_tools = "mcp-fs.write_text" ∷ "mcp-shell.exec" ∷ "mcp-pkg.install" ∷ nil

unfoldable pub is_listed : String → List String → Bool
is_listed tool tools = any (λ t. t == tool) tools

unfoldable pub classify : (wire_tool : String) → ToolClass
classify wire_tool = if is_listed wire_tool read_tools then class_read else class_change

unfoldable pub is_change : ToolClass → Bool
is_change class_read = false
is_change class_change = true

unfoldable pub requires_approval : (wire_tool : String) → Bool
requires_approval wire_tool = is_change (classify wire_tool)

unfoldable pub known : (wire_tool : String) → Bool
known wire_tool = if is_listed wire_tool read_tools then true else is_listed wire_tool change_tools

-- A tool as the model sees it; the schema stays opaque.
pub record ToolDef : Type 0 where
  pub name : String
  pub description : String
  pub input_schema : String

pub record Catalog : Type 0 where
  pub tools : List ToolDef
  pub wire_by_name : List (String × String)

abbrev pub known_namespaces : List String
known_namespaces =
    "mcp-fs" ∷ "mcp-http" ∷ "mcp-pkg" ∷ "mcp-recon" ∷ "mcp-search" ∷ "mcp-shell" ∷ "mcp-wiki" ∷ nil

-- The tools of one namespace; the error is the name that is there twice.
unfoldable pub add_tools :
    (include : String → Bool) (ns : String) → List ToolDef → Catalog → Result String Catalog
add_tools include ns nil cat = ok cat
add_tools include ns (s ∷ rest) cat =
    let wire = append ns (append "." s.name) in
    if not (include wire)
    then add_tools include ns rest cat
    else if is_some (lookup s.name cat.wire_by_name)
    then err s.name
    else add_tools include ns rest (record {
      tools = cat.tools ++ s ∷ nil;
      wire_by_name = insert s.name wire cat.wire_by_name;
    })

-- `BuildCatalog`; a namespace that cannot be listed is skipped.
unfoldable pub add_namespaces :
    (lister : String → Option (List ToolDef)) (include : String → Bool)
    → List String
    → Catalog
    → Result String Catalog
add_namespaces lister include nil cat = ok cat
add_namespaces lister include (ns ∷ rest) cat = elim (lister ns) [
  | none ↦ add_namespaces lister include rest cat
  | some schemas ↦ elim (add_tools include ns schemas cat) [
    | err name ↦ err name
    | ok more ↦ add_namespaces lister include rest more
  ]
]

unfoldable pub build_catalog :
    (lister : String → Option (List ToolDef)) (include : String → Bool) → Result String Catalog
build_catalog lister include =
    add_namespaces lister include known_namespaces (record { tools = nil; wire_by_name = nil })

pub record ToolCall : Type 0 where
  pub id : String
  pub name : String
  pub input : String

pub record ToolResult : Type 0 where
  pub tool_use_id : String
  pub content : String
  pub is_error : Bool

pub data Turn : Type 0 where
  prompt_turn : (text : String) → Turn
  assistant_turn : (text : String) → List ToolCall → Turn
  results_turn : List ToolResult → Turn

pub record ModelReply : Type 0 where
  pub text : String
  pub tool_calls : List ToolCall

pub data Decision : Type 0 where
  deny approve : Decision

pub data Event : Type 0 where
  text_event : (text : String) → Event
  tool_call_event : (id wire : String) → ToolClass → (input : String) → Event
  approval_required : (id wire : String) → ToolClass → (input : String) → Event
  tool_running : (id wire : String) → Event
  tool_result_event : (id tool : String) (is_error : Bool) (result : String) → Event
  final_event : (text : String) → Event
  error_event : (text : String) → Event

-- What has happened: the events, the calls that the executor ran, each with its wire name, and how often
-- the model was called.
pub record Session : Type 0 where
  pub events : List Event
  pub executed : List (String × String)
  pub model_calls : ℕ

pub record Content : Type 0 where
  pub is_text : Bool
  pub text : String
  pub json : String

pub record ExecResult : Type 0 where
  pub content : List Content
  pub is_error : Bool

-- `approver` is none for a session without one, and its answer none for an error; `parses` is whether the
-- arguments decode.
pub record Env : Type 0 where
  pub catalog : Catalog
  pub call : Session → List Turn → Option ModelReply
  pub approver : Option (Session → ToolCall → (wire : String) → Option Decision)
  pub parses : (input : String) → Bool
  pub cut : String → ℕ → String
  pub execute : Session → (wire input : String) → Option ExecResult

abbrev pub emit : Event → Session → Session
emit event s = record s { events = s.events ++ event ∷ nil }

unfoldable pub join_content : List Content → String
join_content nil = ""
join_content (c ∷ rest) =
    append (if c.is_text then c.text else c.json) (append "\n" (join_content rest))

-- `strings.TrimRight(s, "\n")`
unfoldable pub trim_newlines : String → String
trim_newlines [] = ""
trim_newlines (char c s) =
    let rest = trim_newlines s in
    if rest == "" then (if eqb (code c) 10 then "" else char c "") else char c rest

-- `flattenResult`: the text, and whether it was cut; `cut` is `s[:n]`, which counts bytes and may split a
-- character.
unfoldable pub flatten_result : (cut : String → ℕ → String) → ExecResult → String × Bool
flatten_result cut r =
    let s = trim_newlines (join_content r.content) in
    if ltb max_result_chars (len s) then (cut s max_result_chars, true) else (s, false)

-- A call that ends with a result of its own making.
abbrev pub refused : Session → ToolCall → (tool prefix message : String) → Session × ToolResult
refused s tc tool prefix message = (
  emit (tool_result_event tc.id tool true message) s,
  record { tool_use_id = tc.id; content = append prefix message; is_error = true },
)

unfoldable pub finish_call :
    (cut : String → ℕ → String)
    → Session
    → ToolCall
    → (wire : String) → Option ExecResult
    → Session × ToolResult
finish_call cut s tc wire none = refused s tc wire "ERROR: " "tool execution failed"
finish_call cut s tc wire (some r) =
    let (text, truncated) = flatten_result cut r in
    (
      emit (tool_result_event tc.id wire r.is_error text) s,
      record {
        tool_use_id = tc.id;
        content = if truncated then append text "\n[...result truncated...]" else text;
        is_error = r.is_error;
      },
    )

-- From the point at which the call may run.
unfoldable pub execute_call : Env → Session → ToolCall → (wire : String) → Session × ToolResult
execute_call e s tc wire =
    let running = emit (tool_running tc.id wire) s in
    if tc.input == "" || e.parses tc.input
    then finish_call e.cut (record running { executed = running.executed ++ (tc.id, wire) ∷ nil })
        tc wire (e.execute running wire tc.input)
    else refused running tc wire "ERROR: " "invalid tool arguments"

-- The answer of the approver, none for an error.
unfoldable pub decided :
    Env → Session → ToolCall → (wire : String) → Option Decision → Session × ToolResult
decided e s tc wire none = refused s tc wire "DENIED: " "approval failed"
decided e s tc wire (some deny) = refused s tc wire "DENIED: " "denied by user"
decided e s tc wire (some approve) = execute_call e s tc wire

-- A call that needs an approval, with the approver if there is one.
unfoldable pub gated :
    Env
    → Session
    → ToolCall
    → (wire : String) → Option (Session → ToolCall → (wire : String) → Option Decision)
    → Session × ToolResult
gated e called tc wire none =
    refused called tc wire "ERROR: "
      "tool requires approval but this session has no approver (read-only mode)"
gated e called tc wire (some await) =
    let waiting = emit (approval_required tc.id wire (classify wire) tc.input) called in
    decided e waiting tc wire (await waiting tc wire)

-- A call of a tool that is in the catalog.
unfoldable pub classified : Env → Session → ToolCall → (wire : String) → Session × ToolResult
classified e s tc wire =
    let called = emit (tool_call_event tc.id wire (classify wire) tc.input) s in
    if is_change (classify wire)
    then gated e called tc wire e.approver
    else execute_call e called tc wire

unfoldable pub run_tool_call : Env → Session → ToolCall → Session × ToolResult
run_tool_call e s tc = elim (lookup tc.name e.catalog.wire_by_name) [
  | none ↦ refused s tc tc.name "ERROR: " "unknown tool"
  | some wire ↦ classified e s tc wire
]

unfoldable pub run_calls : Env → Session → List ToolCall → Session × List ToolResult
run_calls e s nil = (s, nil)
run_calls e s (tc ∷ rest) =
    let (after, result) = run_tool_call e s tc in
    let (final, results) = run_calls e after rest in (final, result ∷ results)

-- What follows a reply that asks for tools.
abbrev pub with_preamble : ModelReply → Session → Session
with_preamble reply s = if reply.text == "" then s else emit (text_event reply.text) s

-- The rounds of `Run`; the answer is whether the model came to an end.
unfoldable pub rounds : Env → (left : ℕ) → Session → List Turn → Session × Bool
rounds e zero s transcript = (emit (error_event "reached iteration cap") s, false)
rounds e (suc left) s transcript =
    let asked : Session = record s { model_calls = suc s.model_calls } in
    elim (e.call asked transcript) [
      | none ↦ (emit (error_event "model call failed") asked, false)
      | some reply ↦ elim reply.tool_calls [
        | nil ↦ (emit (final_event reply.text) asked, true)
        | tc ∷ rest ↦
            let (after, results) = run_calls e (with_preamble reply asked) (tc ∷ rest) in
            rounds e left after
              (transcript ++ assistant_turn reply.text (tc ∷ rest) ∷ results_turn results ∷ nil)
      ]
    ]

abbrev pub new_session : Session
new_session = record { events = nil; executed = nil; model_calls = 0 }

-- `Run`; 0 stands for a number of iterations that is not positive.
unfoldable pub run : Env → (max_iters : ℕ) → (prompt : String) → Session × Bool
run e max_iters prompt =
    rounds e (if eqb max_iters 0 then default_max_iters else max_iters) new_session
      (prompt_turn prompt ∷ nil)
