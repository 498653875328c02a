-- ===== src/Memory/Applying.antt =====
-- src/cland/internal/memory/service.go, all operations: the mark covers the nodes, the cached digest is
-- that of the file, and two members that apply each other's graphs agree on the digest.
use minti.Base.{
  ℕ, String, Bool, true, List, [], ◌∷◌, ◌++◌, ◌≤◌, Option, none, some, ◌==◌, leb, length, any, ◌||◌,
  if◌then◌else◌, ◌≡◌, ◌⊎◌, inl, inr, refl, sym, ap, ◌∙◌, arith, eq_iff, In, In-of_append,
  Bool-cases, Option-cases,
}
use minti.Memory.{Node, Edge, Graph, Encoding, max_nodes, max_edges, validate_node, validate_edge}
use minti.Memory.GraphMerge.{merge, digest, edge_key}
use minti.Memory.Lookups.{HasDistinctIds}
use minti.Memory.Merging.{HasNoTies}
use minti.Memory.Converging.{merge-digest_agrees}
use minti.Memory.Service.{
  Service, AuditEvent, stamp, fits, persist, find_node, commit_node, created, updated, advance,
  create_node, update_node, add_or_update_node, or_default, add_edge, take_over, apply_remote,
  replace, import_graph, record_system_event,
}
use minti.Memory.Writes.{IsMarked, stamp_above, raise_over-covers, In-of_replace_node}

-- The cached digest is that of the graph in the file, if there is one.
abbrev pub IsFiled : Encoding → Service → Type 0
IsFiled c s = (f : Graph) → s.memory_file ≡ some f → s.digest ≡ digest c f

-- What the operations change. A random id is an argument of a write.
pub data Operation : Type 0 where
  write : (origin : String) → Node → (now : ℕ) → (minted : Option String) → Operation
  link : (origin : String) → Edge → (now : ℕ) → Operation
  sync : Option Graph → (from : String) → Operation
  import : Option Graph → (mode from : String) → Operation
  substitute : Option Graph → (from : String) → Operation
  record_event : (kind subject qualifier title : String) (now : ℕ) → Operation
  set_writable : Bool → Operation

abbrev pub step : Encoding → Service → Operation → Service
step c s (write origin n now minted) = (add_or_update_node c s origin n now minted).0
step c s (link origin e now) = (add_edge c s origin e now).0
step c s (sync g from) = (apply_remote c s g from).0
step c s (import g mode from) = (import_graph c s g mode from).0
step c s (substitute g from) = (replace c s g from).0
step c s (record_event kind subject qualifier title now) =
    (record_system_event c s kind subject qualifier title now).0
step c s (set_writable w) = record s { writable = w }

abbrev pub run : Encoding → Service → List Operation → Service
run c s [] = s
run c s (o ∷ os) = run c (step c s o) os

abbrev pub IsSound : Encoding → Service → Type 0
IsSound c s = IsMarked s × IsFiled c s

commit-IsSound :
    (c : Encoding) (s : Service) (origin : String) (n : Node) (candidate : List Node)
    → IsSound c s
    → ((m : Node) → In m candidate → m.updated_at ≤ s.max_updated)
    → IsSound c (commit_node c s origin n candidate).0
unfolding commit_node persist
commit-IsSound c s origin n candidate h k = elim (Bool-cases (fits c s candidate s.g.edges)) [
  | inl f ↦ elim (Bool-cases s.writable) [
    | inl w ↦ rw (f, w) (k, λ g p. ground arith)
    | inr w ↦ rw (f, w) (k, h.1)
  ]
  | inr f ↦ rw f h
]

take_over-IsSound :
    (c : Encoding) (s : Service) (merged : Graph) (event : AuditEvent)
    → IsFiled c s
    → IsSound c (take_over c s merged event).0
unfolding take_over persist
take_over-IsSound c s merged event h = elim (Bool-cases s.writable) [
  | inl w ↦ rw w ((λ m k. raise_over-covers m s.max_updated merged.nodes k), λ g p. ground arith)
  | inr w ↦ rw w ((λ m k. raise_over-covers m s.max_updated merged.nodes k), h)
]

stamped_covers :
    (s : Service) (now : ℕ) (made m : Node)
    → IsMarked s
    → made.updated_at ≡ stamp s now
    → (m ≡ made) ⊎ In m s.g.nodes
    → m.updated_at ≤ stamp s now
stamped_covers s now made m h e (inl p) =
    let q : m.updated_at ≡ made.updated_at = ap (λ k. k.updated_at) p in ground arith
stamped_covers s now made m h e (inr k) = ground (arith, h m k, stamp_above s now)

last_or_before : (m made : Node) (ns : List Node) → In m (ns ++ made ∷ []) → (m ≡ made) ⊎ In m ns
last_or_before m made ns k = elim (In-of_append m ns (made ∷ []) k) [
  | inl p ↦ inr p
  | inr (inl p) ↦ inl p
  | inr (inr p) ↦ absurd p
]

create-IsSound :
    (c : Encoding) (s : Service) (origin : String) (n : Node) (now : ℕ) (minted : Option String)
    → IsSound c s
    → IsSound c (create_node c s origin n now minted).0
unfolding create_node created
create-IsSound c s origin n now minted h = elim (Bool-cases (leb max_nodes (length s.g.nodes))) [
  | inl e ↦ rw e h
  | inr e ↦ elim (Option-cases (if n.id == "" then minted else some n.id)) [
    | inl f ↦ rw (e, f) h
    | inr (id, f) ↦
        rw (e, f)
          (commit-IsSound c (advance s (stamp s now)) origin _ _
            ((λ m k. ground (arith, h.0 m k, stamp_above s now)), h.1)
            (λ m k.
              stamped_covers s now (created n id origin now (stamp s now)) m h.0 refl
                (last_or_before m _ s.g.nodes k)))
  ]
]

update-IsSound :
    (c : Encoding) (s : Service) (origin : String) (n old : Node) (now : ℕ)
    → IsSound c s
    → IsSound c (update_node c s origin n old now).0
unfolding update_node updated
update-IsSound c s origin n old now h =
    commit-IsSound c (advance s (stamp s now)) origin _ _
      ((λ m k. ground (arith, h.0 m k, stamp_above s now)), h.1)
      (λ m k.
        stamped_covers s now (updated n old (stamp s now)) m h.0 refl
          (In-of_replace_node m _ s.g.nodes k))

write-IsSound :
    (c : Encoding) (s : Service) (origin : String) (given : Node) (now : ℕ) (minted : Option String)
    → IsSound c s
    → IsSound c (add_or_update_node c s origin given now minted).0
unfolding add_or_update_node
write-IsSound c s origin given now minted h = elim (Bool-cases (origin == "")) [
  | inl f ↦ rw f h
  | inr f ↦
      elim (Option-cases
        (validate_node (record given { status = or_default "active" given.status }))) [
          | inr (x, g) ↦ rw (f, g) h
          | inl g ↦ elim (Option-cases (find_node given.id s.g.nodes)) [
            | inl m ↦ rw (f, g, m) (create-IsSound c s origin _ now minted h)
            | inr (old, m) ↦ rw (f, g, m) (update-IsSound c s origin _ old now h)
          ]
        ]
]

link-IsSound :
    (c : Encoding) (s : Service) (origin : String) (e : Edge) (now : ℕ)
    → IsSound c s
    → IsSound c (add_edge c s origin e now).0
unfolding add_edge persist
link-IsSound c s origin e now h = elim (Bool-cases (origin == "")) [
  | inl f ↦ rw f h
  | inr f ↦ elim (Option-cases (validate_edge e)) [
    | inr (x, g) ↦ rw (f, g) h
    | inl g ↦ elim (Bool-cases (any (λ old. edge_key old == edge_key e) s.g.edges)) [
      | inl d ↦ rw (f, g, d) h
      | inr d ↦ elim (Bool-cases (leb max_edges (length s.g.edges))) [
        | inl r ↦ rw (f, g, d, r) h
        | inr r ↦
            elim (Bool-cases (
              fits c s s.g.nodes
                (s.g.edges ++ record e { created_at = now; created_by = origin } ∷ []))) [
                  | inr i ↦ rw (f, g, d, r, i) h
                  | inl i ↦ elim (Bool-cases s.writable) [
                    | inl w ↦ rw (f, g, d, r, i, w) (h.0, λ k p. ground arith)
                    | inr w ↦ rw (f, g, d, r, i, w) h
                  ]
                ]
      ]
    ]
  ]
]

replace-IsSound :
    (c : Encoding) (s : Service) (g : Option Graph) (from : String)
    → IsSound c s
    → IsSound c (replace c s g from).0
unfolding replace
replace-IsSound c s none from h = h
replace-IsSound c s (some g) from h = take_over-IsSound c (advance s 0) _ _ h.1

sync-IsSound :
    (c : Encoding) (s : Service) (g : Option Graph) (from : String)
    → IsSound c s
    → IsSound c (apply_remote c s g from).0
unfolding apply_remote
sync-IsSound c s none from h = h
sync-IsSound c s (some g) from h =
    elim (Bool-cases (digest c (merge c (some s.g) (some g)) == s.digest)) [
      | inl e ↦ rw e h
      | inr e ↦ rw e (take_over-IsSound c s _ _ h.1)
    ]

import-IsSound :
    (c : Encoding) (s : Service) (g : Option Graph) (mode from : String)
    → IsSound c s
    → IsSound c (import_graph c s g mode from).0
unfolding import_graph
import-IsSound c s g mode from h = elim (Bool-cases (mode == "" || mode == "merge")) [
  | inl e ↦ elim (Bool-cases (digest c (merge c (some s.g) g) == s.digest)) [
    | inl f ↦ rw (e, f) h
    | inr f ↦ rw (e, f) (take_over-IsSound c s _ _ h.1)
  ]
  | inr e ↦ elim (Bool-cases (mode == "replace")) [
    | inl f ↦ rw (e, f) (replace-IsSound c s g from h)
    | inr f ↦ rw (e, f) h
  ]
]

step-IsSound : (c : Encoding) (s : Service) (o : Operation) → IsSound c s → IsSound c (step c s o)
unfolding record_system_event
step-IsSound c s (write origin n now minted) h = write-IsSound c s origin n now minted h
step-IsSound c s (link origin e now) h = link-IsSound c s origin e now h
step-IsSound c s (sync g from) h = sync-IsSound c s g from h
step-IsSound c s (import g mode from) h = import-IsSound c s g mode from h
step-IsSound c s (substitute g from) h = replace-IsSound c s g from h
step-IsSound c s (record_event kind subject qualifier title now) h =
    write-IsSound c s s.self_id _ now none h
step-IsSound c s (set_writable w) h = h

-- Along any sequence of operations, failed saves included, the mark covers the time of every node, and
-- the cached digest is that of the graph in the file.
pub run-IsSound :
    (c : Encoding) (s : Service) (os : List Operation) → IsSound c s → IsSound c (run c s os)
run-IsSound c s [] h = h
run-IsSound c s (o ∷ os) h = run-IsSound c (step c s o) os (step-IsSound c s o h)

-- Applying a remote graph leaves the digest of the merge, if saves work.
pub digest-apply_remote :
    (c : Encoding) (s : Service) (remote : Graph) (from : String)
    → s.writable ≡ true
    → (apply_remote c s (some remote) from).0.digest ≡ digest c (merge c (some s.g) (some remote))
unfolding apply_remote take_over persist
digest-apply_remote c s remote from w =
    elim (Bool-cases (digest c (merge c (some s.g) (some remote)) == s.digest)) [
      | inl e ↦ rw e (sym ((eq_iff _ _).0 e))
      | inr e ↦ rw (e, w) refl
    ]

-- Two members whose saves work and that each apply the other's graph then advertise one digest, in each
-- graph no id standing twice and no two different nodes of one id being equal in (updated_at, rev, hash).
pub exchange-converges :
    (c : Encoding) (a b : Service)
    → a.writable ≡ true
    → b.writable ≡ true
    → HasDistinctIds a.g
    → HasDistinctIds b.g
    → HasNoTies c a.g b.g
    → (apply_remote c a (some b.g) b.self_id).0.digest
      ≡ (apply_remote c b (some a.g) a.self_id).0.digest
exchange-converges c a b wa wb ha hb t =
    digest-apply_remote c a b.g b.self_id wa
    ∙ merge-digest_agrees c a.g b.g ha hb t
    ∙ sym (digest-apply_remote c b a.g a.self_id wb)
