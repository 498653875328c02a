-- ===== src/Transport/Guarding.antt =====
-- src/cland/internal/transport/server.go, `authMiddleware`: a handler runs only for a request that passes all
-- checks, a client's stamp passes them, and a request is not accepted twice.
use minti.Base.{
  ℕ, String, Bool, true, false, List, [], ◌∷◌, ◌++◌, ◌+◌, ◌≤◌, ◌<◌, Option, none, some, ◌≡◌, inl,
  inr, refl, sym, ap, ◌∙◌, subst, arith, ◌==◌, Bool-cases, Option-cases, ℤ, pos, negsuc,
}
use minti.Toolexec.{KeyProvider}
use minti.Transport.{Codec, Request, is_skewed, mac_matches, Refusal, replay, refuse_early}
use minti.Transport.Nonces.{NonceCache, check_and_store}
use minti.Transport.Replays.{Call, run, IsValid, AreWithin, calls_of, replay_refused}

-- The server's nonces and the denials that it wrote to the audit log.
pub record Guard : Type 0 where
  pub nonces : NonceCache
  pub denials : List Refusal

abbrev pub deny : Refusal → Guard → Guard
deny refusal g = record g { denials = g.denials ++ refusal ∷ [] }

-- The clock as one request reads it: for its timestamp, for the grace key and for its nonce.
pub record Clock : Type 0 where
  pub skew_at : ℕ
  pub grace_at : ℕ
  pub nonce_at : ℕ

-- The nonce is stored only after the other checks passed.
unfoldable pub admit : Request → Guard → Option Refusal → NonceCache × Bool → Guard × Option String
admit r g (some refusal) _ = (deny refusal g, none)
admit r g none (nonces, true) = (record g { nonces = nonces }, some r.member)
admit r g none (nonces, false) = (deny replay (record g { nonces = nonces }), none)

-- The state, and the origin that the handler is given if the request is accepted.
unfoldable pub authenticate : Codec → KeyProvider → Clock → Request → Guard → Guard × Option String
authenticate c keys now r g =
    admit r g (refuse_early c keys now.skew_at now.grace_at r)
      (check_and_store r.member r.nonce now.nonce_at g.nonces)

-- `authMiddleware` around a handler that changes a state and answers with a status.
unfoldable pub auth_middleware :
    {S : Type 0}
    → Codec
    → KeyProvider
    → Clock
    → (next : (origin : String) → Request → S → S × ℕ) → Request
    → Guard
    → S
    → Guard × S × ℕ
auth_middleware c keys now next r g s = elim (authenticate c keys now r g).1 [
  | none ↦ ((authenticate c keys now r g).0, s, 401)
  | some origin ↦ ((authenticate c keys now r g).0, (next origin r s).0, (next origin r s).1)
]

-- What an accepted request passed.
accepted_by :
    (c : Codec) (keys : KeyProvider) (now : Clock) (r : Request) (g : Guard) (origin : String)
    → (authenticate c keys now r g).1 ≡ some origin
    → (refuse_early c keys now.skew_at now.grace_at r ≡ none)
      × ((check_and_store r.member r.nonce now.nonce_at g.nonces).1 ≡ true)
      × ((authenticate c keys now r g).0.nonces
          ≡ (check_and_store r.member r.nonce now.nonce_at g.nonces).0)
unfolding authenticate admit
accepted_by c keys now r g origin h =
    elim (Option-cases (refuse_early c keys now.skew_at now.grace_at r)) [
      | inr (x, p) ↦ absurd (no_origin (rw p at h))
      | inl p ↦ elim (Bool-cases (check_and_store r.member r.nonce now.nonce_at g.nonces).1) [
        | inl q ↦ (p, q, rw (authenticate, p, q) refl)
        | inr q ↦ absurd (no_origin (rw (p, q) at h))
      ]
    ]
  where
    no_origin : ◌≡◌ {A = Option String} none (some origin) → ⊥
    no_origin q = ground arith

-- An early check that passes says that the timestamp is within 60 seconds.
timely :
    (c : Codec) (keys : KeyProvider) (now grace_now : ℕ) (r : Request)
    → refuse_early c keys now grace_now r ≡ none
    → (millis : ℤ) × (c.parse_int r.timestamp ≡ some millis) × (is_skewed now millis ≡ false)
unfolding refuse_early
timely c keys now grace_now r h = elim (Option-cases (c.parse_int r.timestamp)) [
  | inl p ↦ absurd (ground arith)
  | inr (millis, p) ↦ elim (Bool-cases (is_skewed now millis)) [
    | inl q ↦ absurd (ground arith)
    | inr q ↦ (millis, p, q)
  ]
]

-- Two times at which one timestamp is within 60 seconds are at most 120 seconds apart.
skew_window :
    (first again : ℕ) (millis : ℤ)
    → is_skewed first millis ≡ false
    → is_skewed again millis ≡ false
    → again ≤ first + 120000000000
unfolding is_skewed
skew_window first again (pos millis) h k = ground arith
skew_window first again (negsuc n) h k = ground arith

-- A request that was accepted is not accepted again with any keys at any later time, if the cache keeps
-- nonces for 120 seconds and as long as the second request takes from its timestamp to its nonce at least, the
-- first one does not see the clock go back, and the calls of the nonce cache in between come before the second
-- and are for the request's member fewer than the cap.
pub accepted_once :
    (c : Codec) (keys later_keys : KeyProvider) (first again : Clock) (delay : ℕ) (r : Request)
    (g : Guard) (origin : String) (calls : List Call) (later : Guard)
    → IsValid g.nonces
    → 120000000000 + delay ≤ g.nonces.ttl
    → first.skew_at ≤ first.nonce_at
    → again.nonce_at ≤ again.skew_at + delay
    → (authenticate c keys first r g).1 ≡ some origin
    → AreWithin r.member again.nonce_at calls
    → calls_of r.member calls < g.nonces.cap_per_member
    → later.nonces ≡ run calls (authenticate c keys first r g).0.nonces
    → (authenticate c later_keys again r later).1 ≡ none
accepted_once c keys later_keys first again delay r g origin calls later valid long forward soon
      accepted before few reached =
    elim (Option-cases (authenticate c later_keys again r later).1) [
      | inl p ↦ p
      | inr (other, p) ↦ absurd (
          twice (accepted_by c keys first r g origin accepted)
            (accepted_by c later_keys again r later other p))
    ]
  where
    earlier :
        (calls : List Call) (near far : ℕ)
        → near ≤ far
        → AreWithin r.member near calls
        → AreWithin r.member far calls
    earlier [] near far q h = tt
    earlier (call ∷ calls) near far q h =
        ((λ p. ground (arith, h.0 p)), earlier calls near far q h.1)

    twice :
        (refuse_early c keys first.skew_at first.grace_at r ≡ none)
          × ((check_and_store r.member r.nonce first.nonce_at g.nonces).1 ≡ true)
          × ((authenticate c keys first r g).0.nonces
              ≡ (check_and_store r.member r.nonce first.nonce_at g.nonces).0)
        → (refuse_early c later_keys again.skew_at again.grace_at r ≡ none)
          × ((check_and_store r.member r.nonce again.nonce_at later.nonces).1 ≡ true)
          × ((authenticate c later_keys again r later).0.nonces
              ≡ (check_and_store r.member r.nonce again.nonce_at later.nonces).0)
        → ⊥
    twice (passed, fresh, kept) (passed', fresh', kept') =
        let (millis, parsed, near) = timely c keys first.skew_at first.grace_at r passed in
        let (millis', parsed', near') =
          timely c later_keys again.skew_at again.grace_at r passed' in
        let same : millis ≡ millis' = ground arith in
        let window =
          skew_window first.skew_at again.skew_at millis near
            (subst (λ m. is_skewed again.skew_at m ≡ false) (sym same) near') in
        let in_time : again.nonce_at ≤ first.nonce_at + g.nonces.ttl = ground arith in
        let refused =
          replay_refused r.member r.nonce first.nonce_at again.nonce_at calls g.nonces valid fresh
            (earlier calls again.nonce_at (first.nonce_at + g.nonces.ttl) in_time before) few
            in_time in
        let state : later.nonces
            ≡ run calls (check_and_store r.member r.nonce first.nonce_at g.nonces).0 =
          reached ∙ ap (run calls) kept in
        let refused' : (check_and_store r.member r.nonce again.nonce_at later.nonces).1 ≡ false =
          subst (λ w. (check_and_store r.member r.nonce again.nonce_at w).1 ≡ false) (sym state)
            refused in
        ground arith

-- The checks before the nonce do not read which member is named, as long as one is.
pub refuse_early_member :
    (c : Codec) (keys : KeyProvider) (now grace_now : ℕ) (r : Request) (other : String)
    → (r.member == "") ≡ false
    → (other == "") ≡ false
    → refuse_early c keys now grace_now (record r { member = other })
      ≡ refuse_early c keys now grace_now r
unfolding refuse_early mac_matches
refuse_early_member c keys now grace_now r other h k = rw (h, k) refl

-- A request that is accepted as one member's is accepted with the same MAC as that of any other member
-- that has not used its nonce: the member is not covered by the MAC.
pub accepted_as_another :
    (c : Codec) (keys : KeyProvider) (now : Clock) (r : Request) (g later : Guard)
    (origin other : String)
    → (authenticate c keys now r g).1 ≡ some origin
    → (r.member == "") ≡ false
    → (other == "") ≡ false
    → (check_and_store other r.nonce now.nonce_at later.nonces).1 ≡ true
    → (authenticate c keys now (record r { member = other }) later).1 ≡ some other
unfolding authenticate admit
accepted_as_another c keys now r g later origin other accepted h k fresh =
    let (passed, _, _) = accepted_by c keys now r g origin accepted in
    let passed' : refuse_early c keys now.skew_at now.grace_at (record r { member = other })
        ≡ none =
      refuse_early_member c keys now.skew_at now.grace_at r other h k ∙ passed in
    rw (authenticate, passed', fresh) refl
