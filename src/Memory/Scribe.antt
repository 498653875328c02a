-- ===== src/Memory/Scribe.antt =====
-- src/cland/internal/memory/scribe.go: the passes of the Scribe, which proposes nodes from recent activity. A
-- file is the list of its bytes; the model's completion, the clock, the Scribe's role and what the
-- directory holds are arguments.
use Prim.Native.String.{◌++◌ as append, [], ◌∷◌ as char, len}
use Prim.Native.Char.{code}
use minti.Base.{
  ℕ, ◌+◌, ◌-◌, suc, zero, String, Bool, true, false, not, ◌&&◌, ◌||◌, List, [] as nil, ◌∷◌, ◌++◌,
  Option, none, some, ◌==◌, eqb, ltb, any, keep, length, drop, if◌then◌else◌, lookup, insert,
  is_some, Result, ok, err,
}
use minti.Scores.{after_prefix}
use minti.Memory.{Node, Graph, Encoding, MemoryError, is_one_of, max_title_chars, max_tags}
use minti.Memory.GraphMerge.{take, deterministic_event_id}
use minti.Memory.Service.{Service, snapshot, add_or_update_node, add_edge}

abbrev pub max_proposals_per_pass : ℕ
max_proposals_per_pass = 5

abbrev pub pending_proposal_budget : ℕ
pending_proposal_budget = 200

abbrev pub max_activity_bytes : ℕ
max_activity_bytes = 6144

pub record Proposal : Type 0 where
  pub type : String
  pub title : String
  pub body : String
  pub session_id : String
  pub tags : List String

abbrev pub proposal_types : List String
proposal_types = "fact" ∷ "finding" ∷ "decision" ∷ "skill" ∷ nil

-- What Go does here: case, trimming, UTF-8, the verb %q, the slice `s[:n]`, which counts bytes and may split a
-- character, and decoding the JSON array that a text begins with.
pub record Texts : Type 0 where
  pub to_lower : String → String
  pub trim_space : String → String
  pub utf8 : String → List ℕ
  pub quote : String → String
  pub cut : String → ℕ → String
  pub decode : String → Option (List Proposal)

-- `reports` are the audit events: how many proposals were written, and by which model.
pub record Scribe : Type 0 where
  pub service : Service
  pub file_offsets : List (String × ℕ)
  pub findings_mark : ℕ
  pub seeded : Bool
  pub reports : List (ℕ × String)

-- The chat files by name in order, and the audit log with its path; an empty list and none stand for a source
-- that is not there.
pub record Sources : Type 0 where
  pub chats : List (String × List ℕ)
  pub audit : Option (String × List ℕ)

-- `tailFile`: the offsets, and the bytes since the last mark.
unfoldable pub tail_file :
    (path : String) (bytes : List ℕ) → List (String × ℕ) → List (String × ℕ) × List ℕ
tail_file path bytes offsets =
    let size = length bytes in
    elim (lookup path offsets) [
      | none ↦ (insert path size offsets, nil)
      | some mark ↦
          let chunk = take max_activity_bytes (drop mark bytes) in
          if ltb size mark
          then (insert path size offsets, nil)
          else if eqb size mark
          then (offsets, nil)
          else (insert path (mark + length chunk) offsets, chunk)
    ]

unfoldable pub tail_chats :
    Texts → List (String × List ℕ) → List (String × ℕ) → List (String × ℕ) × List ℕ
tail_chats t nil offsets = (offsets, nil)
tail_chats t ((name, bytes) ∷ rest) offsets =
    let (moved, chunk) = tail_file name bytes offsets in
    let (final, more) = tail_chats t rest moved in
    (
      final,
      if eqb (length chunk) 0
          then more
          else t.utf8 (append "--- chat " (append name " ---\n")) ++ chunk ++ t.utf8 "\n" ++ more,
    )

unfoldable pub tail_audit :
    Texts → Option (String × List ℕ) → List (String × ℕ) → List (String × ℕ) × List ℕ
tail_audit t none offsets = (offsets, nil)
tail_audit t (some (path, bytes)) offsets =
    let (moved, chunk) = tail_file path bytes offsets in
    (
      moved,
      if eqb (length chunk) 0
          then nil
          else t.utf8 "--- clan activity (audit) ---\n" ++ chunk ++ t.utf8 "\n",
    )

unfoldable pub is_open_session : Graph → (id : String) → Bool
is_open_session g id =
    any (λ n. if n.type == "research_session" && n.status == "active" then n.id == id else false)
      g.nodes

unfoldable pub is_fresh_finding : Graph → (mark : ℕ) → Node → Bool
is_fresh_finding g mark n =
    if n.session_id == "" || not (n.status == "active")
    then false
    else if not (is_open_session g n.session_id)
    then false
    else if n.provenance.source == "scribe"
    then false
    else ltb mark n.updated_at

-- `openSessions[id]`
unfoldable pub session_title : (id : String) → List Node → String
session_title id nil = ""
session_title id (n ∷ ns) =
    if n.id == id && n.type == "research_session" && n.status == "active"
    then n.title
    else session_title id ns

-- `shortID8`
unfoldable pub short_id : Texts → String → String
short_id t id = if ltb 8 (len id) then t.cut id 8 else id

unfoldable pub finding_text : Texts → Graph → Node → String
finding_text t g n = append "--- research [session " (
    append (short_id t n.session_id) (
      append " " (
        append (t.quote (session_title n.session_id g.nodes)) (
          append "] ---\n"
            (append n.type (append ": " (append n.title (append "\n" (append n.body "\n")))))))))

unfoldable pub findings_text : Texts → Graph → List Node → List ℕ
findings_text t g nil = nil
findings_text t g (n ∷ ns) = t.utf8 (finding_text t g n) ++ findings_text t g ns

-- `out[len(out)-maxActivityBytes:]` of a longer text.
unfoldable pub newest : List ℕ → List ℕ
newest bytes =
    if ltb max_activity_bytes (length bytes)
    then drop (length bytes - max_activity_bytes) bytes
    else bytes

-- `gather`: the marks moved on, the activity, and whether there is any.
unfoldable pub gather : Encoding → Texts → Sources → (now : ℕ) → Scribe → Scribe × List ℕ × Bool
gather c t sources now s =
    let g = snapshot c s.service in
    let (after_chats, chats) = tail_chats t sources.chats s.file_offsets in
    let (offsets, audit) = tail_audit t sources.audit after_chats in
    let findings = keep (is_fresh_finding g s.findings_mark) g.nodes in
    (
      record s { file_offsets = offsets; findings_mark = now },
      newest (chats ++ audit ++ findings_text t g findings),
      not (eqb (length chats) 0 && eqb (length audit) 0 && eqb (length findings) 0),
    )

-- The text after the first "</think>", or all of it.
unfoldable pub after_think : String → Option String
after_think [] = none
after_think (char c s) =
    let later = after_think s in
    elim (after_prefix "</think>" (char c s)) [ some rest ↦ some rest | none ↦ later ]

unfoldable pub take_chars : ℕ → String → String
take_chars n [] = []
take_chars zero (char c s) = []
take_chars (suc n) (char c s) = char c (take_chars n s)

abbrev pub take_tags : ℕ → List String → List String
take_tags n nil = nil
take_tags zero (t ∷ ts) = nil
take_tags (suc n) (t ∷ ts) = t ∷ take_tags n ts

-- `validProposal`: the normal form, if the entry passes. A character that the cut of the body splits is
-- left out.
unfoldable pub valid_proposal : Texts → Proposal → Option Proposal
valid_proposal t p =
    let type = t.trim_space (t.to_lower p.type) in
    let title = t.trim_space p.title in
    if not (is_one_of type proposal_types) || title == ""
    then none
    else some (record p {
      type = type;
      title = take_chars max_title_chars title;
      body = if ltb 2048 (len p.body) then t.cut p.body 2048 else p.body;
      tags = take_tags max_tags p.tags;
    })

-- The loop over the candidates: it stops at the cap.
unfoldable pub accept : Texts → (room : ℕ) → List Proposal → List Proposal
accept t room nil = nil
accept t zero (p ∷ ps) = nil
accept t (suc room) (p ∷ ps) = elim (valid_proposal t p) [
  | none ↦ accept t (suc room) ps
  | some q ↦ q ∷ accept t room ps
]

-- An array is tried at each '['.
unfoldable pub scan : Texts → String → List Proposal
scan t [] = nil
scan t (char c s) =
    let later = scan t s in
    if eqb (code c) 91
    then elim (t.decode (char c s)) [
      | some candidates ↦ accept t max_proposals_per_pass candidates
      | none ↦ later
    ]
    else later

unfoldable pub parse_proposals : Texts → String → List Proposal
parse_proposals t raw = scan t (elim (after_think raw) [ none ↦ raw | some rest ↦ rest ])

unfoldable pub pending_proposals : Encoding → Service → ℕ
pending_proposals c s = length (
    keep
      (λ n.
        n.status == "proposed"
        && n.provenance.source == "scribe"
        && n.provenance.author_member_id == s.self_id)
      (snapshot c s).nodes)

-- The node of a proposal; a summary of an open session has the deterministic id.
unfoldable pub proposed_node : Encoding → Texts → Service → Graph → Proposal → Node
proposed_node c t s g p =
    let session = if is_open_session g p.session_id then p.session_id else "" in
    record {
      id =
          if not (session == "") && is_some (after_prefix "session summary" (t.to_lower p.title))
          then deterministic_event_id c s.clan_id "session_summary" session ""
          else "";
      type = p.type;
      title = p.title;
      body = p.body;
      tags = p.tags;
      status = "proposed";
      session_id = session;
      provenance = record { author_member_id = ""; source = "scribe"; created_at = 0 };
      updated_at = 0;
      rev = 0;
    }

-- What follows the write of a proposal's node: the edge to its session.
unfoldable pub linked : Encoding → (now : ℕ) → Service × Result MemoryError Node → Service × Bool
linked c now (s, err e) = (s, false)
linked c now (s, ok stored) = if stored.session_id == "" then (s, true) else (
  (add_edge c s s.self_id
      (record {
        from = stored.id;
        to = stored.session_id;
        relation = "contributes_to";
        created_at = 0;
        created_by = "";
      })
      now).0,
  true,
)

-- One round of the loop of `writeProposals`; `minted` is the id that a new node is given.
unfoldable pub write_proposal :
    Encoding
    → Texts
    → (now : ℕ) → Graph
    → Proposal
    → (minted : Option String) → Service
    → Service × Bool
write_proposal c t now g p minted s =
    linked c now (add_or_update_node c s s.self_id (proposed_node c t s g p) now minted)

unfoldable pub write_all :
    Encoding
    → Texts
    → (now : ℕ) → Graph
    → List Proposal
    → (minted : ℕ → Option String) → Service
    → Service × ℕ
write_all c t now g nil minted s = (s, 0)
write_all c t now g (p ∷ ps) minted s =
    let (written, landed) = write_proposal c t now g p (minted (length ps)) s in
    let (final, wrote) = write_all c t now g ps minted written in
    (final, if landed then suc wrote else wrote)

-- What a tick is given from outside: the role, the model, and its completion for an activity.
pub record Pass : Type 0 where
  pub is_scribe : Bool
  pub model : String
  pub complete : (model : String) → List ℕ → Option String
  pub minted : ℕ → Option String

-- The end of a pass: what was written is reported.
unfoldable pub reported : (model : String) → Scribe → Service × ℕ → Scribe
reported model s (service, wrote) = record s {
  service = service;
  reports = if eqb wrote 0 then s.reports else s.reports ++ (wrote, model) ∷ nil;
}

-- The end of a pass that found fresh activity.
unfoldable pub distilled :
    Encoding → Texts → Pass → (now : ℕ) → Scribe → (activity : List ℕ) → Scribe
distilled c t pass now s activity =
    if pass.model == "" then s else elim (pass.complete pass.model activity) [
      | none ↦ s
      | some raw ↦
          reported pass.model s
            (write_all c t now (snapshot c s.service) (parse_proposals t raw) pass.minted s.service)
    ]

unfoldable pub tick : Encoding → Texts → Sources → Pass → (now : ℕ) → Scribe → Scribe
tick c t sources pass now s =
    let gathered = gather c t sources now s in
    if not s.seeded
    then record gathered.0 { seeded = true }
    else if not pass.is_scribe
    then gathered.0
    else if ltb pending_proposal_budget (pending_proposals c s.service)
    then gathered.0
    else if gathered.2
    then distilled c t pass now gathered.0 gathered.1
    else gathered.0
