-- ===== src/Memory/Stamps.antt =====
-- src/cland/internal/memory/service.go, `AddOrUpdateNode`: what a write means for the clan. It wins
-- over every version that the service held, keeps the provenance, respects the caps, and leaves the graph
-- alone when it is refused.
use minti.Base.{
  ℕ, String, true, List, ◌≤◌, ◌<◌, Option, none, some, Result, ok, err, ◌==◌, leb, length,
  length-append, if◌then◌else◌, ◌≡◌, ◌≢◌, ◌⊎◌, inl, inr, refl, ap, arith, In, Bool-cases,
  Option-cases,
}
use minti.Memory.{
  Provenance, Node, Encoding, MemoryError, persist_failed, max_nodes, max_serialized_bytes,
  validate_node,
}
use minti.Memory.GraphMerge.{node_wins}
use minti.Memory.Service.{
  Service, stamp, fits, persist, find_node, commit_node, created, updated, create_node, update_node,
  add_or_update_node, or_default,
}
use minti.Memory.Writes.{
  IsMarked, stamp_above, Written, by_create, by_update, write_cases, length-replace_node,
}

newer_wins : (c : Encoding) (a b : Node) → b.updated_at < a.updated_at → node_wins c a b ≡ true
unfolding node_wins
newer_wins c a b h = ground arith

stored_at :
    {c : Encoding} {s t : Service} {origin : String} {given stored : Node} {now : ℕ}
    → Written c s origin given now stored t
    → stored.updated_at ≡ stamp s now
unfolding created updated
stored_at (by_create id _ _ p _ _) = ap (λ n. n.updated_at) p
stored_at (by_update old _ p _ _) = ap (λ n. n.updated_at) p

-- If the mark covers the nodes, a stored node wins over every node that the service held, the version
-- that it updates included, whatever the clock of the member says.
pub write-wins :
    (c : Encoding) (s : Service) (origin : String) (given : Node) (now : ℕ) (minted : Option String)
    (stored m : Node)
    → IsMarked s
    → (add_or_update_node c s origin given now minted).1 ≡ ok stored
    → In m s.g.nodes
    → node_wins c stored m ≡ true
write-wins c s origin given now minted stored m marked h held = newer_wins c stored m (
    ground (
      arith,
      marked m held,
      stored_at (write_cases c s origin given now minted stored h),
      stamp_above s now,
    ))

-- Who wrote a node, and when.
unfoldable pub expected_provenance : Option Node → (origin source : String) (now : ℕ) → Provenance
expected_provenance none origin source now = record {
  author_member_id = origin;
  source = or_default "manual" source;
  created_at = now;
}
expected_provenance (some old) origin source now = old.provenance

-- A stored node has the provenance of the version that it updates; without one its author is the
-- authenticated origin, whatever author the client named.
pub write-provenance :
    (c : Encoding) (s : Service) (origin : String) (given : Node) (now : ℕ) (minted : Option String)
    (stored : Node)
    → (add_or_update_node c s origin given now minted).1 ≡ ok stored
    → stored.provenance
      ≡ expected_provenance (find_node given.id s.g.nodes) origin given.provenance.source now
unfolding expected_provenance created updated
write-provenance c s origin given now minted stored h =
    elim (write_cases c s origin given now minted stored h) [
      | by_create id new _ p _ _ ↦ rw (new, p) refl
      | by_update old there p _ _ ↦ rw (there, p) refl
    ]

-- After a write that stores a node the graph fits into 2 MiB, and it has no more than the larger of
-- 2000 nodes and the number it had.
pub write-capped :
    (c : Encoding) (s : Service) (origin : String) (given : Node) (now : ℕ) (minted : Option String)
    (stored : Node)
    → (add_or_update_node c s origin given now minted).1 ≡ ok stored
    → (c.serialized_size (record {
      format_version = s.g.format_version;
      nodes = (add_or_update_node c s origin given now minted).0.g.nodes;
      edges = s.g.edges;
    })
        ≤ max_serialized_bytes)
      × ((length (add_or_update_node c s origin given now minted).0.g.nodes ≤ max_nodes)
          ⊎ (length (add_or_update_node c s origin given now minted).0.g.nodes ≡ length s.g.nodes))
unfolding fits
write-capped c s origin given now minted stored h =
    elim (write_cases c s origin given now minted stored h) [
      | by_create id new room p q r ↦ (ground arith, inl (rw (q, length-append) (ground arith)))
      | by_update old there p q r ↦
          (ground arith, inr (rw q (length-replace_node stored s.g.nodes)))
    ]

commit_refused :
    (c : Encoding) (s : Service) (origin : String) (n : Node) (candidate : List Node)
    (e : MemoryError)
    → (commit_node c s origin n candidate).1 ≡ err e
    → e ≢ persist_failed
    → (commit_node c s origin n candidate).0 ≡ s
unfolding commit_node persist
commit_refused c s origin n candidate e h k = elim (Bool-cases (fits c s candidate s.g.edges)) [
  | inl f ↦ elim (Bool-cases s.writable) [
    | inl w ↦ absurd (not_err (rw (f, w) at h))
    | inr w ↦ absurd (k (which (rw (f, w) at h)))
  ]
  | inr f ↦ rw f refl
]
  where
    not_err : ◌≡◌ {A = Result MemoryError Node} (ok n) (err e) → ⊥
    not_err p = ground arith

    which : ◌≡◌ {A = Result MemoryError Node} (err persist_failed) (err e) → e ≡ persist_failed
    which p = ground arith

-- Everything but the mark is the same.
abbrev pub SameButMark : Service → Service → Type 0
SameButMark s t =
    (t.g ≡ s.g) × (t.digest ≡ s.digest) × (t.memory_file ≡ s.memory_file) × (t.audit ≡ s.audit)

same_but_mark : (s t : Service) (high : ℕ) → t ≡ record s { max_updated = high } → SameButMark s t
same_but_mark s t high p =
    (ap (λ x. x.g) p, ap (λ x. x.digest) p, ap (λ x. x.memory_file) p, ap (λ x. x.audit) p)

-- A write that is refused for any reason but a failed save leaves the graph, the digest, the file and
-- the audit log as they were.
pub write-refused :
    (c : Encoding) (s : Service) (origin : String) (given : Node) (now : ℕ) (minted : Option String)
    (e : MemoryError)
    → (add_or_update_node c s origin given now minted).1 ≡ err e
    → e ≢ persist_failed
    → SameButMark s (add_or_update_node c s origin given now minted).0
unfolding add_or_update_node create_node update_node
write-refused c s origin given now minted e h k = elim (Bool-cases (origin == "")) [
  | inl f ↦ rw f (refl, refl, refl, refl)
  | inr f ↦
      elim (Option-cases
        (validate_node (record given { status = or_default "active" given.status }))) [
          | inr (x, g) ↦ rw (f, g) (refl, refl, refl, refl)
          | inl g ↦ elim (Option-cases (find_node given.id s.g.nodes)) [
            | inr (old, m) ↦
                rw (f, g, m)
                  (same_but_mark s _ _ (commit_refused c _ origin _ _ e (rw (f, g, m) at h) k))
            | inl m ↦ elim (Bool-cases (leb max_nodes (length s.g.nodes))) [
              | inl r ↦ rw (f, g, m, r) (refl, refl, refl, refl)
              | inr r ↦ elim (Option-cases (if given.id == "" then minted else some given.id)) [
                | inl i ↦ rw (f, g, m, r, i) (refl, refl, refl, refl)
                | inr (id, i) ↦
                    rw (f, g, m, r, i)
                      (same_but_mark s _ _
                        (commit_refused c _ origin _ _ e (rw (f, g, m, r, i) at h) k))
              ]
            ]
          ]
        ]
]
