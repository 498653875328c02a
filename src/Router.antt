-- ===== src/Router.antt =====
-- src/cland/internal/router/router.go: where a request for reasoning is sent, and with which headers. A header
-- map is the list of its (name, value) pairs, the names in canonical form as net/http keeps them.
-- Streaming is copying the body.
pub mod Routes
use Prim.Native.String.{◌++◌ as append}
use minti.Base.{
  ℕ, String, Bool, true, false, not, ◌&&◌, List, [], ◌∷◌, ◌++◌, ◌+◌, ◌%◌, ◌^◌, Option, none, some,
  ◌==◌, any, keep, if◌then◌else◌,
}
use minti.Peers.{Member, Registry, snapshot_members}

abbrev pub Headers : Type 0
Headers = List (String × String)

pub record Request : Type 0 where
  pub method : String
  pub path : String
  pub headers : Headers
  pub body : String

-- A request to the runtime of this machine or to a peer.
pub record Upstream : Type 0 where
  pub method : String
  pub url : String
  pub headers : Headers
  pub body : String

pub record Response : Type 0 where
  pub status : ℕ
  pub headers : Headers
  pub body : String

-- The two audit events of each route: the status that came back, or that there was none.
pub data AuditEvent : Type 0 where
  self_route : (path : String) (status : Option ℕ) → AuditEvent
  peer_proxy : (path peer_addr : String) (status : Option ℕ) → AuditEvent

-- The counters are uint64.
pub record Router : Type 0 where
  pub self_id : String
  pub runtime_base_url : String
  pub requests : ℕ
  pub self_routes : ℕ
  pub peer_proxies : ℕ
  pub rejects_non_orch : ℕ
  pub audit : List AuditEvent

-- What is not the router's: the runtime, the peer client, and whether a URL parses.
pub record Env : Type 0 where
  pub builds : (url : String) → Bool
  pub local_do : Upstream → Option Response
  pub peer_do : Upstream → Option Response

abbrev pub hop_by_hop : List String
hop_by_hop =
    "Connection" ∷ "Keep-Alive" ∷ "Proxy-Authenticate" ∷ "Proxy-Authorization" ∷ "Te" ∷ "Trailer"
    ∷ "Transfer-Encoding" ∷ "Upgrade" ∷ "Host" ∷ []

abbrev pub minti_auth : List String
minti_auth = "X-Minti-Member" ∷ "X-Minti-Timestamp" ∷ "X-Minti-Nonce" ∷ "X-Minti-Hmac" ∷ []

unfoldable pub is_hop_by_hop : String → Bool
is_hop_by_hop name = any (λ h. h == name) hop_by_hop

unfoldable pub is_minti_auth : String → Bool
is_minti_auth name = any (λ h. h == name) minti_auth

-- `copyForwardableHeaders` into an empty map.
unfoldable pub copy_forwardable_headers : Headers → Headers
copy_forwardable_headers =
    keep (λ h. if is_hop_by_hop h.0 then false else if is_minti_auth h.0 then false else true)

-- The headers that `streamResponse` copies.
unfoldable pub response_headers : Headers → Headers
response_headers = keep (λ h. not (is_hop_by_hop h.0))

unfoldable pub stream_response : Response → Response
stream_response r = record r { headers = response_headers r.headers }

-- `http.Error`
abbrev pub http_error : ℕ → String → Response
http_error status body = record { status = status; headers = []; body = body }

abbrev pub forwarded : Request → (url : String) → Upstream
forwarded req url = record {
  method = req.method;
  url = url;
  headers = copy_forwardable_headers req.headers;
  body = req.body;
}

abbrev pub audited : AuditEvent → Router → Router
audited event r = record r { audit = r.audit ++ event ∷ [] }

unfoldable pub proxy_local : Env → Router → Request → Router × Response
proxy_local e r req =
    let url = append r.runtime_base_url req.path in
    if e.builds url
    then elim (e.local_do (forwarded req url)) [
      | none ↦ (audited (self_route req.path none) r, http_error 502 "local runtime")
      | some resp ↦ (audited (self_route req.path (some resp.status)) r, stream_response resp)
    ]
    else (r, http_error 500 "build upstream")

unfoldable pub proxy_peer : Env → Router → Request → (peer_addr : String) → Router × Response
proxy_peer e r req peer_addr =
    let url = append "https://" (append peer_addr req.path) in
    if e.builds url
    then elim (e.peer_do (forwarded req url)) [
      | none ↦ (audited (peer_proxy req.path peer_addr none) r, http_error 502 "peer proxy")
      | some resp ↦
          (audited (peer_proxy req.path peer_addr (some resp.status)) r, stream_response resp)
    ]
    else (r, http_error 500 "build upstream")

-- The first member of the snapshot with the id.
unfoldable pub address_of : (member_id : String) → List Member → String
address_of member_id [] = ""
address_of member_id (m ∷ ms) =
    if m.member_id == member_id then m.address else address_of member_id ms

unfoldable pub find_peer_addr : Registry → (member_id : String) → String
find_peer_addr registry member_id = address_of member_id (snapshot_members registry)

-- Where `handleReasoning` sends a request.
pub data Route : Type 0 where
  no_orchestrator : Route
  to_self : Route
  address_unknown : (orchestrator : String) → Route
  to_peer : (address : String) → Route

unfoldable pub choose_route : (self_id current_orchestrator : String) → Registry → Route
choose_route self_id current_orchestrator registry =
    let addr = find_peer_addr registry current_orchestrator in
    if current_orchestrator == ""
    then no_orchestrator
    else if current_orchestrator == self_id
    then to_self
    else if addr == ""
    then address_unknown current_orchestrator
    else to_peer addr

abbrev pub add_one : ℕ → ℕ
add_one n = (n + 1) % 2 ^ 64

-- What `handleReasoning` does on a route, the request being counted already.
unfoldable pub follow : Env → Router → Request → Route → Router × Response
follow e r req no_orchestrator = (r, http_error 503 "no orchestrator elected yet")
follow e r req to_self = proxy_local e (record r { self_routes = add_one r.self_routes }) req
follow e r req (address_unknown orchestrator) = (
  record r { rejects_non_orch = add_one r.rejects_non_orch },
  record {
    status = 503;
    headers = ("X-Minti-Expected-Orchestrator", orchestrator) ∷ [];
    body = "orchestrator address not in peer registry";
  },
)
follow e r req (to_peer address) =
    proxy_peer e (record r { peer_proxies = add_one r.peer_proxies }) req address

unfoldable pub handle_reasoning :
    Env → Router → (current_orchestrator : String) → Registry → Request → Router × Response
handle_reasoning e r current_orchestrator registry req =
    follow e (record r { requests = add_one r.requests }) req
      (choose_route r.self_id current_orchestrator registry)
