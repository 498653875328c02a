-- ===== src/Examples/Memories.antt =====
-- The theorems on the shared graph, applied to two members' graphs.
use minti.Memory.Proposing.{may_write, nodes_of, tick-bounded}
use minti.Memory.Scribe.{Proposal, Texts, Scribe, Sources, Pass, tick, max_proposals_per_pass}
use minti.Base.{
  ℕ, String, true, false, some, none, List, [], ◌∷◌, ◌≡◌, ◌≢◌, refl, ap, subst, arith, pos, inl,
  inr, ok, err, find, str_lt, any, ◌⊎◌, ◌≤◌, ◌+◌,
}
use minti.Memory.{
  Node, Edge, Graph, Encoding, no_origin, persist_failed, validate_node, is_one_of, is_blank,
  is_space,
}
use minti.Memory.GraphMerge.{merge, digest, node_wins}
use minti.Memory.Lookups.{node_id, HasDistinctIds}
use minti.Memory.Merging.{HasNoTies, nodes-merge_assoc}
use minti.Memory.Service.{
  Service, add_or_update_node, apply_remote, find_node, update_node, updated, stamp, commit_node,
  fits, persist, replace_node,
}
use minti.Memory.Writes.{IsMarked}
use minti.Memory.Stamps.{write-wins, write-refused, SameButMark}
use minti.Memory.Applying.{write, sync, set_writable, run, IsSound, run-IsSound, exchange-converges}
use minti.Memory.Blueprint.{
  Blueprint, export_blueprint, validate_blueprint, build_blueprint, selected,
}
use minti.Memory.Imports.{validate-export}

abbrev encoding : Encoding
encoding = record {
  sha256 = λ s. s;
  sha256_bytes = λ s. [];
  canonical_node_bytes = λ n. n.title;
  serialized_size = λ g. 100;
  format_time = λ t. "2026";
  format_uint = λ n. "1";
}

abbrev note : (id title : String) (updated_at : ℕ) → Node
note id title updated_at = record {
  id = id;
  type = "fact";
  title = title;
  body = "";
  tags = [];
  status = "active";
  session_id = "";
  provenance = record { author_member_id = "ann"; source = "manual"; created_at = 5 };
  updated_at = updated_at;
  rev = 1;
}

abbrev link : (from to : String) → Edge
link from to = record {
  from = from;
  to = to;
  relation = "relates";
  created_at = 6;
  created_by = "ann";
}

abbrev graph : (title : String) (updated_at : ℕ) → List Edge → Graph
graph title updated_at edges = record {
  format_version = pos 1;
  nodes = note "n1" title updated_at ∷ [];
  edges = edges;
}

-- A service whose cached digest is that of its graph and its file.
abbrev service : (self_id : String) → Graph → (high : ℕ) → Service
service self_id g high = record {
  self_id = self_id;
  clan_id = "clan";
  g = g;
  digest = digest encoding g;
  max_updated = high;
  memory_file = some g;
  writable = true;
  audit = [];
}

abbrev ann_graph : Graph
ann_graph = graph "cold" 7 (link "n1" "n2" ∷ [])

abbrev bob_graph : Graph
bob_graph = graph "warm" 7 []

abbrev ann : Service
ann = service "ann" ann_graph 7

abbrev bob : Service
bob = service "bob" bob_graph 7

one-HasDistinctIds : (title : String) (t : ℕ) (es : List Edge) → HasDistinctIds (graph title t es)
one-HasDistinctIds title t es = (λ h. h, tt)

found : (id : String) (n m : Node) → find node_id id (n ∷ []) ≡ some m → n ≡ m
unfolding find
found id n m h = ground arith

warm_wins : node_wins encoding (note "n1" "warm" 7) (note "n1" "cold" 7) ≡ true
unfolding node_wins str_lt
warm_wins = refl

notes-HasNoTies : HasNoTies encoding ann_graph bob_graph
notes-HasNoTies id a b p q h k =
    let left = found id (note "n1" "cold" 7) a p in
    let right = found id (note "n1" "warm" 7) b q in
    let wins : node_wins encoding b a ≡ true =
      subst (λ w. node_wins encoding w a ≡ true) right
        (subst (λ w. node_wins encoding (note "n1" "warm" 7) w ≡ true) left warm_wins) in
    absurd (ground arith)

exchange-converges_example :
    (apply_remote encoding ann (some bob_graph) "bob").0.digest
    ≡ (apply_remote encoding bob (some ann_graph) "ann").0.digest
exchange-converges_example =
    exchange-converges encoding ann bob refl refl
      (one-HasDistinctIds "cold" 7 (link "n1" "n2" ∷ [])) (one-HasDistinctIds "warm" 7 [])
      notes-HasNoTies

nodes-merge_assoc_example :
    (merge encoding
      (some (merge encoding (some ann_graph) (some bob_graph)))
      (some ann_graph)).nodes
    ≡ (merge encoding
        (some ann_graph)
        (some (merge encoding (some bob_graph) (some ann_graph)))).nodes
nodes-merge_assoc_example =
    nodes-merge_assoc encoding ann_graph bob_graph ann_graph
      (one-HasDistinctIds "cold" 7 (link "n1" "n2" ∷ [])) (one-HasDistinctIds "warm" 7 [])
      (one-HasDistinctIds "cold" 7 (link "n1" "n2" ∷ []))

ann-IsMarked : IsMarked ann
ann-IsMarked m (inl p) = let q : m.updated_at ≡ 7 = ap (λ n. n.updated_at) p in ground arith
ann-IsMarked m (inr h) = absurd h

-- Bob's clock is behind, and he claims to be the author.
abbrev given : Node
given = record (note "n1" "hot" 0) {
  status = "";
  provenance = record { author_member_id = "bob"; source = "scribe"; created_at = 0 };
}

abbrev stored : Node
stored = record (note "n1" "hot" 8) { rev = 2 }

written : (add_or_update_node encoding ann "bob" given 3 none).1 ≡ ok stored
unfolding add_or_update_node validate_node is_one_of any is_blank is_space find_node update_node
    updated stamp commit_node fits persist replace_node
written = refl

write-wins_example : node_wins encoding stored (note "n1" "cold" 7) ≡ true
write-wins_example =
    write-wins encoding ann "bob" given 3 none stored (note "n1" "cold" 7) ann-IsMarked written
      (inl refl)

refused : (add_or_update_node encoding ann "" given 3 none).1 ≡ err no_origin
unfolding add_or_update_node
refused = refl

different : no_origin ≢ persist_failed
different h = ground arith

write-refused_example : SameButMark ann (add_or_update_node encoding ann "" given 3 none).0
write-refused_example = write-refused encoding ann "" given 3 none no_origin refused different

ann-IsSound : IsSound encoding ann
ann-IsSound = (ann-IsMarked, λ f p. ap (digest encoding) (ground arith))

run-IsSound_example : IsSound encoding (
    run encoding ann
      (write "bob" given 3 none ∷ set_writable false ∷ sync (some bob_graph) "bob" ∷ []))
run-IsSound_example =
    run-IsSound encoding ann
      (write "bob" given 3 none ∷ set_writable false ∷ sync (some bob_graph) "bob" ∷ []) ann-IsSound

abbrev marshal : Blueprint → String
marshal b = b.source_clan

abbrev exported : Blueprint
exported = build_blueprint encoding marshal (merge encoding (some ann_graph) none) "clan" "" 9

exporting : export_blueprint encoding marshal (some ann_graph) "clan" "" false 9 ≡ ok exported
unfolding export_blueprint selected
exporting = refl

validate-export_example : validate_blueprint encoding marshal (some exported) ≡ none
validate-export_example =
    validate-export encoding marshal marshal (λ s. some exported) (some ann_graph) "clan" "" false 9
      exported refl exporting

abbrev proposal : Proposal
proposal = record { type = "fact"; title = "warm"; body = ""; session_id = ""; tags = [] }

abbrev texts : Texts
texts = record {
  to_lower = λ s. s;
  trim_space = λ s. s;
  utf8 = λ s. [];
  cut = λ s n. s;
  quote = λ s. s;
  decode = λ s. some (proposal ∷ proposal ∷ []);
}

abbrev scribe : Scribe
scribe = record {
  service = ann;
  file_offsets = ("chat", 1) ∷ [];
  findings_mark = 9;
  seeded = true;
  reports = [];
}

-- One byte is new in a chat, and the model answers.
abbrev sources : Sources
sources = record { chats = ("chat", 65 ∷ 66 ∷ []) ∷ []; audit = none }

abbrev pass : Pass
pass = record {
  is_scribe = true;
  model = "small";
  complete = λ model activity. some "[";
  minted = λ n. some "n9";
}

tick-bounded_example :
    ((may_write encoding pass scribe ≡ true)
      ⊎ ((tick encoding texts sources pass 11 scribe).service ≡ scribe.service))
    × (nodes_of (tick encoding texts sources pass 11 scribe).service
        ≤ nodes_of scribe.service + max_proposals_per_pass)
tick-bounded_example = tick-bounded encoding texts sources pass 11 scribe
