-- ===== src/Memory/Imports.antt =====
-- src/cland/internal/memory/blueprint.go and handlers.go: what is exported can be imported, stripping leaves no
-- author, and a remote member cannot replace the graph.
use minti.Base.{
  ℕ, String, Bool, true, false, ◌&&◌, Option, none, some, ◌==◌, if◌then◌else◌, ◌≡◌, inl, inr, refl,
  ap, ◌∙◌, subst, arith, eq_refl, Result, ok, err, In, In-of_keep, Bool-cases, Option-cases,
}
use minti.Memory.{Edge, Graph, Encoding}
use minti.Memory.GraphMerge.{merge}
use minti.Memory.Service.{Service}
use minti.Memory.Blueprint.{
  Blueprint, BlueprintError, blueprint_checksum, build_blueprint, selected, filter_session, is_kept,
  strip_authors, export_blueprint, validate_blueprint, session_not_found,
}
use minti.Memory.Handlers.{handle_import}

-- In memory, what is exported passes the checks.
export-valid :
    (c : Encoding) (marshal : Blueprint → String) (g : Option Graph)
    (clan_id session_filter : String) (strip : Bool) (now : ℕ) (b : Blueprint)
    → export_blueprint c marshal g clan_id session_filter strip now ≡ ok b
    → validate_blueprint c marshal (some b) ≡ none
unfolding export_blueprint validate_blueprint build_blueprint blueprint_checksum
export-valid c marshal none clan_id session_filter strip now b h = ground arith
export-valid c marshal (some g) clan_id session_filter strip now b h =
    elim (Option-cases (selected session_filter (merge c (some g) none))) [
      | inl p ↦ absurd (not_found (rw (export_blueprint, p) at h))
      | inr (chosen, p) ↦ built chosen (rw (export_blueprint, p) at h)
    ]
  where
    not_found : ◌≡◌ {A = Result BlueprintError Blueprint} (err session_not_found) (ok b) → ⊥
    not_found q = ground arith

    built :
        (chosen : Graph)
        → ◌≡◌ {A = Result BlueprintError Blueprint}
            (ok (
              build_blueprint c marshal
                (if strip then strip_authors c chosen else chosen)
                clan_id
                session_filter
                now))
            (ok b)
        → validate_blueprint c marshal (some b) ≡ none
    built chosen q =
        let made =
          build_blueprint c marshal (if strip then strip_authors c chosen else chosen) clan_id
            session_filter now in
        let same : made ≡ b = ground arith in
        subst (λ w. validate_blueprint c marshal (some w) ≡ none) same
          (rw (eq_refl (blueprint_checksum c marshal made)) refl)

-- A blueprint that is exported, whatever the session and whether authors are stripped, and written as JSON is
-- read back and passes the checks of an import, if decoding its JSON gives it back, which needs its texts to be
-- UTF-8.
pub validate-export :
    (c : Encoding) (marshal marshal_indent : Blueprint → String)
    (unmarshal : String → Option Blueprint) (g : Option Graph) (clan_id session_filter : String)
    (strip : Bool) (now : ℕ) (b : Blueprint)
    → unmarshal (marshal_indent b) ≡ some b
    → export_blueprint c marshal g clan_id session_filter strip now ≡ ok b
    → validate_blueprint c marshal (unmarshal (marshal_indent b)) ≡ none
validate-export c marshal marshal_indent unmarshal g clan_id session_filter strip now b read h =
    ap (validate_blueprint c marshal) read
    ∙ export-valid c marshal g clan_id session_filter strip now b h

-- An import with the mode "replace" that does not come from the machine itself changes nothing.
pub remote_replace_refused :
    (c : Encoding) (marshal : Blueprint → String) (s : Service) (origin : String)
    (blueprint : Option Blueprint)
    → (handle_import c marshal s origin false
        (some (record { blueprint = blueprint; mode = "replace" }))).0
      ≡ s
unfolding handle_import
remote_replace_refused c marshal s origin blueprint = elim (Bool-cases (origin == "")) [
  | inl p ↦ rw p refl
  | inr p ↦ elim (Option-cases (validate_blueprint c marshal blueprint)) [
    | inl q ↦ rw (p, q) refl
    | inr (e, q) ↦ rw (p, q) refl
  ]
]

-- The edges of an exported session connect nodes that are exported too.
pub session_edges_closed :
    (session : String) (g : Graph) (e : Edge)
    → In e (filter_session session g).edges
    → (is_kept session g e.from ≡ true) × (is_kept session g e.to ≡ true)
unfolding filter_session
session_edges_closed session g e m =
    let (k, p) = In-of_keep (λ e. is_kept session g e.from && is_kept session g e.to) e g.edges m in
    (ground arith, ground arith)
