-- ===== src/Memory/Proposing.antt =====
-- src/cland/internal/memory/scribe.go, `tick`: when a pass may write, and how much.
use Prim.Native.String.{[], ◌∷◌ as char}
use Prim.Native.Char.{code}
use minti.Base.{
  ℕ, ◌+◌, ◌≤◌, suc, zero, String, Bool, true, false, List, [] as nil, ◌∷◌, Option, some, ◌==◌, eqb,
  ltb, leb, any, not, ◌++◌, length, length-append, if◌then◌else◌, ◌≡◌, ◌⊎◌, inl, inr, refl, ap,
  arith, Result, ok, err, Bool-cases, Option-cases,
}
use minti.Memory.{
  Node, Edge, Graph, Encoding, MemoryError, max_nodes, max_edges, validate_node, validate_edge,
}
use minti.Memory.Service.{
  Service, snapshot, fits, persist, stamp, find_node, commit_node, updated, advance, create_node,
  update_node, add_or_update_node, or_default, add_edge,
}
use minti.Memory.GraphMerge.{edge_key}
use minti.Memory.Writes.{length-replace_node}
use minti.Memory.Scribe.{
  Texts, Scribe, Sources, Pass, Proposal, gather, accept, scan, parse_proposals, valid_proposal,
  max_proposals_per_pass, pending_proposals, pending_proposal_budget, proposed_node, linked,
  write_proposal, write_all, reported, distilled, tick,
}

accept-bounded : (t : Texts) (room : ℕ) (ps : List Proposal) → length (accept t room ps) ≤ room
unfolding accept
accept-bounded t room nil = omega arith
accept-bounded t zero (p ∷ ps) = omega arith
accept-bounded t (suc room) (p ∷ ps) = elim (Option-cases (valid_proposal t p)) [
  | inl e ↦ rw (accept, e) (accept-bounded t (suc room) ps)
  | inr (q, e) ↦ rw (accept, e) (ground (arith, accept-bounded t room ps))
]

scan-bounded : (t : Texts) (s : String) → length (scan t s) ≤ max_proposals_per_pass
unfolding scan
scan-bounded t [] = omega arith
scan-bounded t (char c s) = elim (Bool-cases (eqb (code c) 91)) [
  | inr p ↦ rw p (scan-bounded t s)
  | inl p ↦ elim (Option-cases (t.decode (char c s))) [
    | inl q ↦ rw (p, q) (scan-bounded t s)
    | inr (ps, q) ↦ rw (p, q) (accept-bounded t max_proposals_per_pass ps)
  ]
]

-- Whatever the model writes, at most five proposals are read from it.
pub parse_proposals-bounded :
    (t : Texts) (raw : String) → length (parse_proposals t raw) ≤ max_proposals_per_pass
unfolding parse_proposals
parse_proposals-bounded t raw = scan-bounded t _

-- How many nodes the service's graph has.
abbrev pub nodes_of : Service → ℕ
nodes_of s = length s.g.nodes

commit-grows :
    (c : Encoding) (s : Service) (origin : String) (n : Node) (candidate : List Node)
    → length candidate ≤ suc (nodes_of s)
    → nodes_of (commit_node c s origin n candidate).0 ≤ suc (nodes_of s)
unfolding commit_node persist
commit-grows c s origin n candidate h = elim (Bool-cases (fits c s candidate s.g.edges)) [
  | inl f ↦ elim (Bool-cases s.writable) [ inl w ↦ rw (f, w) h | inr w ↦ rw (f, w) h ]
  | inr f ↦ rw f (omega arith)
]

write-grows :
    (c : Encoding) (s : Service) (origin : String) (given : Node) (now : ℕ) (minted : Option String)
    → nodes_of (add_or_update_node c s origin given now minted).0 ≤ suc (nodes_of s)
unfolding add_or_update_node create_node update_node
write-grows c s origin given now minted = elim (Bool-cases (origin == "")) [
  | inl f ↦ rw f (omega arith)
  | inr f ↦
      elim (Option-cases
        (validate_node (record given { status = or_default "active" given.status }))) [
          | inr (x, g) ↦ rw (f, g) (omega arith)
          | inl g ↦ elim (Option-cases (find_node given.id s.g.nodes)) [
            | inr (old, m) ↦
                rw (f, g, m)
                  (commit-grows c (advance s (stamp s now)) origin _ _ (
                    ground (
                      arith,
                      length-replace_node
                          (updated (record given { status = or_default "active" given.status }) old
                            (stamp s now))
                          s.g.nodes,
                    )))
            | inl m ↦ elim (Bool-cases (leb max_nodes (length s.g.nodes))) [
              | inl r ↦ rw (f, g, m, r) (omega arith)
              | inr r ↦ elim (Option-cases (if given.id == "" then minted else some given.id)) [
                | inl i ↦ rw (f, g, m, r, i) (omega arith)
                | inr (id, i) ↦
                    rw (f, g, m, r, i)
                      (commit-grows c (advance s (stamp s now)) origin _ _
                        (rw length-append (omega arith)))
              ]
            ]
          ]
        ]
]

link-keeps_nodes :
    (c : Encoding) (s : Service) (origin : String) (e : Edge) (now : ℕ)
    → nodes_of (add_edge c s origin e now).0 ≡ nodes_of s
unfolding add_edge persist
link-keeps_nodes c s origin e now = elim (Bool-cases (origin == "")) [
  | inl f ↦ rw f refl
  | inr f ↦ elim (Option-cases (validate_edge e)) [
    | inr (x, g) ↦ rw (f, g) refl
    | inl g ↦ elim (Bool-cases (any (λ old. edge_key old == edge_key e) s.g.edges)) [
      | inl d ↦ rw (f, g, d) refl
      | inr d ↦ elim (Bool-cases (leb max_edges (length s.g.edges))) [
        | inl r ↦ rw (f, g, d, r) refl
        | inr r ↦
            elim (Bool-cases (
              fits c s s.g.nodes
                (s.g.edges ++ record e { created_at = now; created_by = origin } ∷ nil))) [
                  | inr i ↦ rw (f, g, d, r, i) refl
                  | inl i ↦ elim (Bool-cases s.writable) [
                    | inl w ↦ rw (f, g, d, r, i, w) refl
                    | inr w ↦ rw (f, g, d, r, i, w) refl
                  ]
                ]
      ]
    ]
  ]
]

linked-keeps_nodes :
    (c : Encoding) (now : ℕ) (r : Service × Result MemoryError Node)
    → nodes_of (linked c now r).0 ≡ nodes_of r.0
unfolding linked
linked-keeps_nodes c now (s, err e) = refl
linked-keeps_nodes c now (s, ok stored) = elim (Bool-cases (stored.session_id == "")) [
  | inl p ↦ rw p refl
  | inr p ↦ rw p (link-keeps_nodes c s s.self_id _ now)
]

write_all-grows :
    (c : Encoding) (t : Texts) (now : ℕ) (g : Graph) (ps : List Proposal)
    (minted : ℕ → Option String) (s : Service)
    → nodes_of (write_all c t now g ps minted s).0 ≤ nodes_of s + length ps
unfolding write_all write_proposal
write_all-grows c t now g nil minted s = omega arith
write_all-grows c t now g (p ∷ ps) minted s =
    let one = write-grows c s s.self_id (proposed_node c t s g p) now (minted (length ps)) in
    let kept =
      linked-keeps_nodes c now
        (add_or_update_node c s s.self_id (proposed_node c t s g p) now (minted (length ps))) in
    let rest =
      write_all-grows c t now g ps minted (write_proposal c t now g p (minted (length ps)) s).0 in
    omega (arith, one, kept, rest)

distilled-grows :
    (c : Encoding) (t : Texts) (pass : Pass) (now : ℕ) (s : Scribe) (activity : List ℕ)
    → nodes_of (distilled c t pass now s activity).service
      ≤ nodes_of s.service + max_proposals_per_pass
unfolding distilled reported
distilled-grows c t pass now s activity = elim (Bool-cases (pass.model == "")) [
  | inl p ↦ rw p (omega arith)
  | inr p ↦ elim (Option-cases (pass.complete pass.model activity)) [
    | inl q ↦ rw (p, q) (omega arith)
    | inr (raw, q) ↦
        rw (p, q)
          (ground (
            arith,
            write_all-grows c t now (snapshot c s.service) (parse_proposals t raw) pass.minted
                s.service,
            parse_proposals-bounded t raw,
          ))
  ]
]

gather_service :
    (c : Encoding) (t : Texts) (sources : Sources) (now : ℕ) (s : Scribe)
    → (gather c t sources now s).0.service ≡ s.service
unfolding gather
gather_service c t sources now s = refl

-- Whether a tick may change the graph.
abbrev pub may_write : Encoding → Pass → Scribe → Bool
may_write c pass s =
    if s.seeded
    then (if pass.is_scribe
        then not (ltb pending_proposal_budget (pending_proposals c s.service))
        else false)
    else false

-- A tick leaves the service alone unless it is not the first, the member is the Scribe and no more than 200 of
-- its proposals are pending; then it adds five nodes at most, whatever the model answers.
pub tick-bounded :
    (c : Encoding) (t : Texts) (sources : Sources) (pass : Pass) (now : ℕ) (s : Scribe)
    → ((may_write c pass s ≡ true) ⊎ ((tick c t sources pass now s).service ≡ s.service))
      × (nodes_of (tick c t sources pass now s).service
          ≤ nodes_of s.service + max_proposals_per_pass)
unfolding tick gather
tick-bounded c t sources pass now s =
    let same = gather_service c t sources now s in
    elim (Bool-cases s.seeded) [
      | inr a ↦ rw a (inr same, rw same (omega arith))
      | inl a ↦ elim (Bool-cases pass.is_scribe) [
        | inr b ↦ rw (a, b) (inr same, rw same (omega arith))
        | inl b ↦ elim (Bool-cases (ltb pending_proposal_budget (pending_proposals c s.service))) [
          | inl d ↦ rw (a, b, d) (inr same, rw same (omega arith))
          | inr d ↦ elim (Bool-cases (gather c t sources now s).2) [
            | inr e ↦ rw (a, b, d, e) (inl refl, rw same (omega arith))
            | inl e ↦
                rw (a, b, d, e)
                  (
                    inl refl,
                    ground (
                      arith,
                      ap nodes_of same,
                      distilled-grows c t pass now (gather c t sources now s).0
                          (gather c t sources now s).1,
                    ),
                  )
          ]
        ]
      ]
    ]
