-- ===== src/Toolexec/Rotation.antt =====
-- src/cland/internal/toolexec/token.go with src/cland/internal/crypto/keyprovider.go: tokens across
-- a rotation of the key.
use minti.Base.{
  ℕ, ◌+◌, ◌≤◌, String, true, none, some, List, [], ◌∷◌, ◌≡◌, ◌≢◌, arith, eq_iff, eq_refl,
  le→ltb-false,
}
use minti.Toolexec.{Token, Crypto, KeyProvider}
use minti.Toolexec.Signing.{sign, verify_hmac, canonical, matches_any}
use minti.Toolexec.Keys.{grace_key, rotate}
use minti.Toolexec.Execute.{key_or_nil}

-- The keys that the handler passes on at `now`.
abbrev pub keys_at : (now : ℕ) → KeyProvider → List String
keys_at now p = p.current ∷ key_or_nil (grace_key now p) ∷ []

-- What encoding/hex and strings.ToLower do to the bytes of a digest, which are not none.
pub record IsHex (c : Crypto) : Type 0 where
  pub decodes : (s : String) → c.hex_decode (c.to_lower (c.hex_encode s)) ≡ some s
  pub nonempty : (k m : String) → c.hex_encode (c.hmac k m) ≢ ""

sign-verify :
    (c : Crypto) (key : String) (keys : List String) (t : Token)
    → IsHex c
    → matches_any c (canonical c t) (c.hmac key (canonical c t)) keys ≡ true
    → verify_hmac c keys (sign c key t) ≡ none
unfolding sign verify_hmac
sign-verify c key keys t hex h =
    rw (hex.decodes (c.hmac key (canonical c t)), h)
      (ground (
        arith,
        hex.nonempty key (canonical c t),
        eq_iff (c.hex_encode (c.hmac key (canonical c t))) "",
      ))

matches_first :
    (c : Crypto) (message key grace : String)
    → key ≢ ""
    → matches_any c message (c.hmac key message) (key ∷ grace ∷ []) ≡ true
unfolding matches_any
matches_first c message key grace h = ground (arith, eq_iff key "", eq_refl (c.hmac key message))

matches_second :
    (c : Crypto) (message current key : String)
    → key ≢ ""
    → matches_any c message (c.hmac key message) (current ∷ key ∷ []) ≡ true
unfolding matches_any
matches_second c message current key h = ground (arith, eq_iff key "", eq_refl (c.hmac key message))

rotate_gives :
    (new_key : String) (grace_dur at : ℕ) (p p' : KeyProvider)
    → rotate new_key grace_dur at p ≡ some p'
    → (new_key ≢ "")
      × (p' ≡ (record { current = new_key; grace = some p.current; grace_expiry = at + grace_dur }))
unfolding rotate
rotate_gives new_key grace_dur at p p' h = (ground (arith, eq_iff new_key ""), ground arith)

-- A token signed under the key of the time verifies after a rotation to any other key, at every
-- moment up to the end of the grace window; and so does, at any time, one signed under the new key.
pub rotate-verify_hmac :
    (c : Crypto) (new_key : String) (grace_dur at now : ℕ) (p p' : KeyProvider) (t : Token)
    → IsHex c
    → p.current ≢ ""
    → rotate new_key grace_dur at p ≡ some p'
    → (now ≤ at + grace_dur → verify_hmac c (keys_at now p') (sign c p.current t) ≡ none)
      × (verify_hmac c (keys_at now p') (sign c new_key t) ≡ none)
unfolding key_or_nil
rotate-verify_hmac c new_key grace_dur at now p p' t hex some_key rotated =
    let (nonempty, made) = rotate_gives new_key grace_dur at p p' rotated in
    let m = canonical c t in
    rw made (
      λ le. sign-verify c p.current _ t hex (
          rw (le→ltb-false (at + grace_dur) now le)
            (matches_second c m new_key p.current some_key)),
      sign-verify c new_key _ t hex (matches_first c m new_key _ nonempty),
    )
