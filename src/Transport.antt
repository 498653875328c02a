-- ===== src/Transport.antt =====
-- src/cland/internal/transport/server.go and client.go, src/cland/internal/crypto/hmac.go: the request
-- MAC, what a client stamps on a request, and the middleware that every authenticated handler runs
-- behind. Here a time counts nanoseconds from the Unix epoch; TLS and the pin are not part of it.
pub mod Nonces
pub mod Recent
pub mod Replays
pub mod Guarding
pub mod Stamping
use Prim.Native.String.{◌++◌ as append, len}
use minti.Base.{
  ℕ, String, Bool, true, false, List, [], ◌∷◌, ◌++◌, ◌+◌, ◌*◌, Option, none, some, ◌==◌, ◌||◌, ltb,
  not, if◌then◌else◌, ℤ, pos, negsuc,
}
use minti.Toolexec.{Crypto, KeyProvider}
use minti.Toolexec.Keys.{grace_key}

-- `crypto` with what else the standard library does here: `strings.ToUpper`, and `strconv.ParseInt` in base 10
-- into an int64.
pub record Codec : Type 0 where
  pub crypto : Crypto
  pub to_upper : String → String
  pub parse_int : String → Option ℤ

-- A request with the four X-Minti headers, a missing header being "".
pub record Request : Type 0 where
  pub method : String
  pub path : String
  pub body : String
  pub member : String
  pub timestamp : String
  pub nonce : String
  pub mac : String

-- `Canonical`
unfoldable pub canonical :
    Codec → (method path body : String) (timestamp : ℤ) (nonce : String) → String
canonical c method path body timestamp nonce = append (c.to_upper method) (
    append "\n" (
      append path (
        append "\n" (
          append (c.crypto.sha256 body)
            (append "\n" (append (c.crypto.format_int timestamp) (append "\n" nonce)))))))

unfoldable pub compute_mac :
    Codec → (key method path body : String) (timestamp : ℤ) (nonce : String) → String
compute_mac c key method path body timestamp nonce =
    c.crypto.hex_encode (c.crypto.hmac key (canonical c method path body timestamp nonce))

-- `hmac.Equal` of the bytes; what the computed MAC decodes to is the code's `b, _`.
unfoldable pub equal_bytes : Option String → Option String → Bool
equal_bytes none expected = false
equal_bytes (some a) none = a == ""
equal_bytes (some a) (some b) = a == b

unfoldable pub verify_mac :
    Codec → (key method path body : String) (timestamp : ℤ) (nonce provided : String) → Bool
verify_mac c key method path body timestamp nonce provided =
    equal_bytes (c.crypto.hex_decode (c.crypto.to_lower provided))
      (c.crypto.hex_decode (compute_mac c key method path body timestamp nonce))

-- `Client.Do` up to sending: the time is in milliseconds, the nonce a fresh one.
unfoldable pub stamp_request :
    Codec → KeyProvider → (member_id : String) → Request → (millis : ℕ) (nonce : String) → Request
stamp_request c keys member_id r millis nonce = record r {
  member = member_id;
  timestamp = c.crypto.format_int (pos millis);
  nonce = nonce;
  mac = compute_mac c keys.current r.method r.path r.body (pos millis) nonce;
}

abbrev pub timestamp_skew_max : ℕ
timestamp_skew_max = 60000000000

abbrev pub max_body : ℕ
max_body = 8388608

-- `skew > TimestampSkewMax || skew < -TimestampSkewMax` for `time.Since(time.UnixMilli(millis))`
unfoldable pub is_skewed : (now : ℕ) (millis : ℤ) → Bool
is_skewed now (pos millis) =
    ltb (millis * 1000000 + timestamp_skew_max) now
    || ltb (now + timestamp_skew_max) (millis * 1000000)
is_skewed now (negsuc n) = ltb timestamp_skew_max (now + (n + 1) * 1000000)

-- The current key first, then the grace key if there is one.
unfoldable pub mac_matches : Codec → KeyProvider → (now : ℕ) → Request → (millis : ℤ) → Bool
mac_matches c keys now r millis =
    if verify_mac c keys.current r.method r.path r.body millis r.nonce r.mac
    then true
    else elim (grace_key now keys) [
      | none ↦ false
      | some grace ↦ verify_mac c grace r.method r.path r.body millis r.nonce r.mac
    ]

-- Why a request is refused; only the audit log has it.
pub data Refusal : Type 0 where
  body_read : Refusal
  missing_headers : Refusal
  bad_timestamp : Refusal
  timestamp_skew : Refusal
  hmac_mismatch : Refusal
  replay : Refusal

-- The checks before the nonce, in the code's order; none is the refusal if they all pass.
unfoldable pub refuse_early : Codec → KeyProvider → (now grace_now : ℕ) → Request → Option Refusal
refuse_early c keys now grace_now r =
    if ltb max_body (len r.body)
    then some body_read
    else if r.member == "" || r.timestamp == "" || r.nonce == "" || r.mac == ""
    then some missing_headers
    else elim (c.parse_int r.timestamp) [
      | none ↦ some bad_timestamp
      | some millis ↦
          if is_skewed now millis
          then some timestamp_skew
          else if mac_matches c keys grace_now r millis
          then none
          else some hmac_mismatch
    ]
