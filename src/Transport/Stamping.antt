-- ===== src/Transport/Stamping.antt =====
-- src/cland/internal/transport/client.go, `Do`, with src/cland/internal/transport/server.go: the checks that
-- a client's stamp passes at the server.
use minti.Base.{
  ℕ, String, true, false, ◌+◌, ◌*◌, ◌≤◌, none, some, ltb, ◌≡◌, ◌⊎◌, inl, inr, refl, arith, ◌==◌,
  eq_refl, Bool-cases, pos,
}
use Prim.Native.String.{len}
use minti.Toolexec.{KeyProvider}
use minti.Toolexec.Keys.{grace_key}
use minti.Transport.{
  Codec, Request, compute_mac, equal_bytes, verify_mac, stamp_request, timestamp_skew_max, max_body,
  is_skewed, mac_matches, refuse_early,
}

-- What the standard library does with one stamp: the time is written as a text that is read back, and the
-- MAC in lower case as a text that decodes.
pub record IsReadable (c : Codec) (millis : ℕ) (mac : String) : Type 0 where
  pub parses : c.parse_int (c.crypto.format_int (pos millis)) ≡ some (pos millis)
  pub written : (c.crypto.format_int (pos millis) == "") ≡ false
  pub lower : c.crypto.to_lower mac ≡ mac
  pub bytes : String
  pub decodes : c.crypto.hex_decode mac ≡ some bytes
  pub present : (mac == "") ≡ false

verify-compute :
    (c : Codec) (key method path body nonce : String) (millis : ℕ)
    → IsReadable c millis (compute_mac c key method path body (pos millis) nonce)
    → verify_mac c key method path body
        (pos millis)
        nonce
        (compute_mac c key method path body (pos millis) nonce)
      ≡ true
unfolding verify_mac equal_bytes
verify-compute c key method path body nonce millis h = rw (h.lower, h.decodes) (eq_refl h.bytes)

-- A server whose current key or grace key is the client's current key accepts the client's stamp, the
-- nonce aside, while its clock is within 60 seconds of the stamp and the body within 8 MiB; the clock is read
-- again for the grace key.
pub stamp-passes :
    (c : Codec) (client server : KeyProvider) (member_id : String) (r : Request)
    (millis now grace_now : ℕ) (nonce : String)
    → IsReadable c millis (compute_mac c client.current r.method r.path r.body (pos millis) nonce)
    → (member_id == "") ≡ false
    → (nonce == "") ≡ false
    → len r.body ≤ max_body
    → now ≤ millis * 1000000 + timestamp_skew_max
    → millis * 1000000 ≤ now + timestamp_skew_max
    → (server.current ≡ client.current) ⊎ (grace_key grace_now server ≡ some client.current)
    → refuse_early c server now grace_now (stamp_request c client member_id r millis nonce) ≡ none
unfolding refuse_early stamp_request is_skewed mac_matches
stamp-passes c client server member_id r millis now grace_now nonce h named given small late early
      keys =
    let small' : ltb max_body (len r.body) ≡ false = ground arith in
    let late' : ltb (millis * 1000000 + timestamp_skew_max) now ≡ false = ground arith in
    let early' : ltb (now + timestamp_skew_max) (millis * 1000000) ≡ false = ground arith in
    rw
      (
        refuse_early,
        small',
        named,
        h.written,
        given,
        h.present,
        h.parses,
        late',
        early',
        matches keys,
      )
      refl
  where
    mac : String
    mac = compute_mac c client.current r.method r.path r.body (pos millis) nonce

    own : verify_mac c client.current r.method r.path r.body (pos millis) nonce mac ≡ true
    own = verify-compute c client.current r.method r.path r.body nonce millis h

    matches :
        (server.current ≡ client.current) ⊎ (grace_key grace_now server ≡ some client.current)
        → mac_matches c server grace_now
            (stamp_request c client member_id r millis nonce)
            (pos millis)
          ≡ true
    matches (inl p) = rw (p, own) refl
    matches (inr p) =
        elim (Bool-cases
          (verify_mac c server.current r.method r.path r.body (pos millis) nonce mac)) [
            | inl q ↦ rw q refl
            | inr q ↦ rw (q, p, own) refl
          ]
