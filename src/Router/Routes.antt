-- ===== src/Router/Routes.antt =====
-- src/cland/internal/router/router.go: which headers go on, and whether a request arrives at a runtime when
-- each member routes it by its own view of the clan.
use Prim.Native.String.{◌++◌ as append}
use minti.Base.{
  [], ◌∷◌, keep, Bool-cases, inl, inr, ℕ, zero, suc, String, Bool, true, false, Option, none, some,
  ◌==◌, if◌then◌else◌, ◌≡◌, ◌↔◌, refl, ap, arith, In, In-keep, In-of_keep,
}
use minti.Peers.{Registry}
use minti.Router.{
  Request, Upstream, Response, Router, handle_reasoning, Headers, is_hop_by_hop, is_minti_auth,
  copy_forwardable_headers, find_peer_addr,
}

-- Of a request's headers exactly those go on that are neither hop-by-hop nor of the authentication.
pub forwarded_iff :
    (name value : String) (headers : Headers)
    → In (name, value) (copy_forwardable_headers headers)
      ↔ (In (name, value) headers × (is_hop_by_hop name ≡ false) × (is_minti_auth name ≡ false))
unfolding copy_forwardable_headers
forwarded_iff name value headers = (
  λ m. let (k, p) = In-of_keep test (name, value) headers m in (k, ground arith, ground arith),
  λ h. In-keep test (name, value) headers h.0 (ground arith),
)
  where
    test : String × String → Bool
    test h = if is_hop_by_hop h.0 then false else if is_minti_auth h.0 then false else true

keep_idem :
    (p : String × String → Bool) (headers : Headers) → keep p (keep p headers) ≡ keep p headers
unfolding keep
keep_idem p [] = refl
keep_idem p (h ∷ headers) = elim (Bool-cases (p h)) [
  | inl e ↦ rw e (rw e (ap (λ l. h ∷ l) (keep_idem p headers)))
  | inr e ↦ rw e (keep_idem p headers)
]

pub copy_forwardable_headers_idem :
    (headers : Headers)
    → copy_forwardable_headers (copy_forwardable_headers headers) ≡ copy_forwardable_headers headers
unfolding copy_forwardable_headers
copy_forwardable_headers_idem headers = keep_idem _ headers

-- The members of a clan: their routers and registries, whom each takes for the Orchestrator, their runtimes,
-- which URLs parse, and which member a URL reaches, with the path that it asks for.
pub record Network : Type 0 where
  pub router : (member_id : String) → Router
  pub current_orchestrator : (member_id : String) → String
  pub registry : (member_id : String) → Registry
  pub runtime : (member_id : String) → Upstream → Option Response
  pub builds : (url : String) → Bool
  pub dial : (url : String) → String × String

-- A request as the member at the other end receives it.
abbrev pub received : Upstream → (path : String) → Request
received up path = record { method = up.method; path = path; headers = up.headers; body = up.body }

-- What `handleReasoning` of a member answers when its peer client reaches the `handleReasoning` of the others,
-- and a request that went through `limit` members has no answer yet, so that the client before gives up.
unfoldable pub answer : Network → (limit : ℕ) → (member_id : String) → Request → Response
answer n zero member_id req =
    (handle_reasoning
      (record { builds = n.builds; local_do = n.runtime member_id; peer_do = λ up. none })
      (n.router member_id) (n.current_orchestrator member_id) (n.registry member_id) req).1
answer n (suc limit) member_id req =
    (handle_reasoning
      (record {
        builds = n.builds;
        local_do = n.runtime member_id;
        peer_do = λ up. some (answer n limit (n.dial up.url).0 (received up (n.dial up.url).1));
      })
      (n.router member_id) (n.current_orchestrator member_id) (n.registry member_id) req).1

-- The URL under which a member proxies a path to an address.
abbrev pub peer_url : (address path : String) → String
peer_url address path = append "https://" (append address path)

-- A member takes another for the Orchestrator, has an address for it, and the URL there reaches it.
abbrev pub IsProxy : Network → (member_id orchestrator path : String) → Type 0
IsProxy n m o path =
    (n.current_orchestrator m ≡ o)
    × ((o == "") ≡ false)
    × ((o == (n.router m).self_id) ≡ false)
    × ((find_peer_addr (n.registry m) o == "") ≡ false)
    × (n.builds (peer_url (find_peer_addr (n.registry m) o) path) ≡ true)
    × (n.dial (peer_url (find_peer_addr (n.registry m) o) path) ≡ (o, path))
