-- ===== src/Memory/Writes.antt =====
-- src/cland/internal/memory/service.go, `AddOrUpdateNode`: the stamp of a write, what a write may change,
-- and its caps.
use minti.Base.{
  ℕ, String, true, List, [], ◌∷◌, ◌++◌, ◌≤◌, ◌<◌, Option, none, some, Result, ok, err, ◌==◌, ltb,
  leb, length, if◌then◌else◌, ◌≡◌, ◌⊎◌, inl, inr, refl, sym, ap, ◌∙◌, arith, In, Bool-cases,
  Option-cases,
}
use minti.Memory.{
  Node, Encoding, MemoryError, cap_exceeded, persist_failed, max_nodes, validate_node,
}
use minti.Memory.Service.{
  Service, raise_over, stamp, fits, persist, replace_node, find_node, commit_node, created, updated,
  advance, create_node, update_node, add_or_update_node, or_default,
}

-- The mark lies at or above the time of every node.
abbrev pub IsMarked : Service → Type 0
IsMarked s = (m : Node) → In m s.g.nodes → m.updated_at ≤ s.max_updated

-- The stamp of a write lies above the mark, whatever the clock says, and not before the clock.
pub stamp_above : (s : Service) (now : ℕ) → (s.max_updated < stamp s now) × (now ≤ stamp s now)
unfolding stamp
stamp_above s now = ground arith

pub raise_over-high : (high : ℕ) (ns : List Node) → high ≤ raise_over high ns
unfolding raise_over
raise_over-high high [] = omega arith
raise_over-high high (n ∷ ns) =
    ground (arith, raise_over-high (if ltb high n.updated_at then n.updated_at else high) ns)

pub raise_over-covers :
    (m : Node) (high : ℕ) (ns : List Node) → In m ns → m.updated_at ≤ raise_over high ns
unfolding raise_over
raise_over-covers m high [] h = absurd h
raise_over-covers m high (n ∷ ns) (inl p) =
    let top = raise_over-high (if ltb high n.updated_at then n.updated_at else high) ns in
    let q : m.updated_at ≡ n.updated_at = ap (λ k. k.updated_at) p in ground arith
raise_over-covers m high (n ∷ ns) (inr h) =
    raise_over-covers m (if ltb high n.updated_at then n.updated_at else high) ns h

pub In-of_replace_node :
    (m n : Node) (ns : List Node) → In m (replace_node n ns) → (m ≡ n) ⊎ In m ns
unfolding replace_node
In-of_replace_node m n [] h = inr h
In-of_replace_node m n (k ∷ ns) h = elim (Bool-cases (k.id == n.id)) [
  | inl e ↦
      let h' : (m ≡ n) ⊎ In m ns = rw e at h in elim h' [ inl p ↦ inl p | inr q ↦ inr (inr q) ]
  | inr e ↦
      let h' : (m ≡ k) ⊎ In m (replace_node n ns) = rw e at h in
      elim h' [
        | inl p ↦ inr (inl p)
        | inr q ↦ elim (In-of_replace_node m n ns q) [ inl p ↦ inl p | inr r ↦ inr (inr r) ]
      ]
]

pub length-replace_node : (n : Node) (ns : List Node) → length (replace_node n ns) ≡ length ns
unfolding replace_node
length-replace_node n [] = refl
length-replace_node n (k ∷ ns) = ground (arith, length-replace_node n ns)

-- A committed write returns the node, and holds the candidate, whose size was accepted.
pub commit_node_ok :
    (c : Encoding) (s : Service) (origin : String) (n stored : Node) (candidate : List Node)
    → (commit_node c s origin n candidate).1 ≡ ok stored
    → (stored ≡ n)
      × ((commit_node c s origin n candidate).0.g.nodes ≡ candidate)
      × (fits c s candidate s.g.edges ≡ true)
unfolding commit_node persist
commit_node_ok c s origin n stored candidate h = elim (Bool-cases (fits c s candidate s.g.edges)) [
  | inl e ↦ elim (Bool-cases s.writable) [
    | inl f ↦
        let h' : ◌≡◌ {A = Result MemoryError Node} (ok n) (ok stored) = rw (e, f) at h in
        rw (e, f) (ground arith, refl, refl)
    | inr f ↦
        let h' : ◌≡◌ {A = Result MemoryError Node} (err persist_failed) (ok stored) =
          rw (e, f) at h in
        ground arith
  ]
  | inr e ↦
      let h' : ◌≡◌ {A = Result MemoryError Node} (err cap_exceeded) (ok stored) = rw e at h in
      ground arith
]

-- A node write from which a node is stored: what it is made of.
pub data Written (c : Encoding) (s : Service) (origin : String) (given : Node) (now : ℕ)
    (stored : Node) (t : Service) : Type 0 where
  by_create :
      (id : String)
      → find_node given.id s.g.nodes ≡ none
      → length s.g.nodes < max_nodes
      → stored
        ≡ created
            (record given { status = or_default "active" given.status })
            id
            origin
            now
            (stamp s now)
      → t.g.nodes ≡ s.g.nodes ++ stored ∷ []
      → fits c s t.g.nodes s.g.edges ≡ true
      → Written c s origin given now stored t
  by_update :
      (old : Node)
      → find_node given.id s.g.nodes ≡ some old
      → stored
        ≡ updated (record given { status = or_default "active" given.status }) old (stamp s now)
      → t.g.nodes ≡ replace_node stored s.g.nodes
      → fits c s t.g.nodes s.g.edges ≡ true
      → Written c s origin given now stored t

err_is_not_ok :
    {A : Type 0} (e : MemoryError) (n : A) → ◌≡◌ {A = Result MemoryError A} (err e) (ok n) → ⊥
err_is_not_ok e n h = ground arith

write_created :
    (c : Encoding) (s : Service) (origin : String) (given : Node) (now : ℕ) (minted : Option String)
    (stored : Node)
    → find_node given.id s.g.nodes ≡ none
    → (create_node c s origin
        (record given { status = or_default "active" given.status })
        now
        minted).1
      ≡ ok stored
    → Written c s origin given now stored
        (create_node c s origin
          (record given { status = or_default "active" given.status })
          now
          minted).0
unfolding create_node fits
write_created c s origin given now minted stored new h =
    elim (Bool-cases (leb max_nodes (length s.g.nodes))) [
      | inl e ↦ absurd (err_is_not_ok _ stored (rw e at h))
      | inr e ↦ elim (Option-cases (if given.id == "" then minted else some given.id)) [
        | inl f ↦ absurd (err_is_not_ok _ stored (rw (e, f) at h))
        | inr (id, f) ↦
            let n : Node = record given { status = or_default "active" given.status } in
            let made : Node = created n id origin now (stamp s now) in
            let (p, q, r) =
              commit_node_ok c (advance s (stamp s now)) origin made stored (s.g.nodes ++ made ∷ [])
                (rw (e, f) at h) in
            rw (e, f)
              (by_create id new (ground arith) p (q ∙ ap (λ w. s.g.nodes ++ w ∷ []) (sym p))
                (rw q r))
      ]
    ]

write_updated :
    (c : Encoding) (s : Service) (origin : String) (given : Node) (now : ℕ) (old stored : Node)
    → find_node given.id s.g.nodes ≡ some old
    → (update_node c s origin
        (record given { status = or_default "active" given.status })
        old
        now).1
      ≡ ok stored
    → Written c s origin given now stored
        (update_node c s origin
          (record given { status = or_default "active" given.status })
          old
          now).0
unfolding update_node fits
write_updated c s origin given now old stored there h =
    let n : Node = record given { status = or_default "active" given.status } in
    let made : Node = updated n old (stamp s now) in
    let (p, q, r) =
      commit_node_ok c (advance s (stamp s now)) origin made stored (replace_node made s.g.nodes)
        h in
    by_update old there p (q ∙ ap (λ w. replace_node w s.g.nodes) (sym p)) (rw q r)

-- A write that returns a node created it or updated the stored one.
pub write_cases :
    (c : Encoding) (s : Service) (origin : String) (given : Node) (now : ℕ) (minted : Option String)
    (stored : Node)
    → (add_or_update_node c s origin given now minted).1 ≡ ok stored
    → Written c s origin given now stored (add_or_update_node c s origin given now minted).0
unfolding add_or_update_node
write_cases c s origin given now minted stored h = elim (Bool-cases (origin == "")) [
  | inl e ↦ absurd (err_is_not_ok _ stored (rw e at h))
  | inr e ↦
      elim (Option-cases
        (validate_node (record given { status = or_default "active" given.status }))) [
          | inr (x, f) ↦ absurd (err_is_not_ok x stored (rw (e, f) at h))
          | inl f ↦ elim (Option-cases (find_node given.id s.g.nodes)) [
            | inl g ↦
                rw (e, f, g)
                  (write_created c s origin given now minted stored g (rw (e, f, g) at h))
            | inr (old, g) ↦
                rw (e, f, g) (write_updated c s origin given now old stored g (rw (e, f, g) at h))
          ]
        ]
]
