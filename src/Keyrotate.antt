-- ===== src/Keyrotate.antt =====
-- src/cland/internal/keyrotate: the two-phase rotation of the clan's key. `store.go`, `types.go` and
-- `member.go` are here, a member's side; the keys are those of the key provider. Auditing is left out.
pub mod Coordinator
pub mod Agreement
use minti.Base.{
  ℕ, ◌+◌, String, Bool, true, false, Option, none, some, List, ◌==◌, not, eqb, ltb, if◌then◌else◌,
  Result, ok, err,
}
use minti.Toolexec.{KeyProvider}
use minti.Toolexec.Keys.{rotate}

pub data KeyrotateError : Type 0 where
  bad_encoding : KeyrotateError
  bad_key : KeyrotateError
  already_pending : KeyrotateError

pub record ProposeRequest : Type 0 where
  pub propose_id : String
  pub new_key_b64 : String

pub record CommitRequest : Type 0 where
  pub propose_id : String
  pub grace_duration : ℕ

pub record Pending : Type 0 where
  pub propose_id : String
  pub new_key : String
  pub received_at : ℕ

abbrev pub member_revert_after : ℕ
member_revert_after = 90000000000

abbrev pub default_grace_duration : ℕ
default_grace_duration = 300000000000

-- `decode` stands for encoding/base64, `byte_length` for `len`.
pub record Codec : Type 0 where
  pub decode : String → Option String
  pub byte_length : String → ℕ

-- `NewKey`
unfoldable pub decoded_key : Codec → ProposeRequest → Result KeyrotateError String
decoded_key c req = elim (c.decode req.new_key_b64) [
  | none ↦ err bad_encoding
  | some key ↦ if eqb (c.byte_length key) 32 then ok key else err bad_key
]

-- Whether a propose with this id finds another one that is fresh.
unfoldable pub is_blocked : (propose_id : String) (now : ℕ) → Option Pending → Bool
is_blocked propose_id now none = false
is_blocked propose_id now (some p) =
    if p.propose_id == propose_id then false else ltb now (p.received_at + member_revert_after)

unfoldable pub has_id : (propose_id : String) → Option Pending → Bool
has_id propose_id none = false
has_id propose_id (some p) = p.propose_id == propose_id

-- `Put`: what is pending then, and the error if there is one. A second propose with the pending id
-- is accepted and changes nothing.
unfoldable pub put :
    Codec → ProposeRequest → (now : ℕ) → Option Pending → Option Pending × Option KeyrotateError
put c req now pending = elim (decoded_key c req) [
  | err e ↦ (pending, some e)
  | ok key ↦
      if has_id req.propose_id pending
      then (pending, none)
      else if is_blocked req.propose_id now pending
      then (pending, some already_pending)
      else (some (record { propose_id = req.propose_id; new_key = key; received_at = now }), none)
]

-- `Take`
unfoldable pub take : (propose_id : String) → Option Pending → Option Pending × Option String
take propose_id none = (none, none)
take propose_id (some p) =
    if p.propose_id == propose_id then (none, some p.new_key) else (some p, none)

-- `Clear`
unfoldable pub clear : (propose_id : String) → Option Pending → Option Pending × Bool
clear propose_id none = (none, false)
clear propose_id (some p) = if p.propose_id == propose_id then (none, true) else (some p, false)

-- `SweepExpired`
unfoldable pub sweep_expired : (now : ℕ) → Option Pending → Option Pending × Bool
sweep_expired now none = (none, false)
sweep_expired now (some p) =
    if ltb now (p.received_at + member_revert_after) then (some p, false) else (none, true)

-- A member: its key provider and its propose store.
pub record Keyholder : Type 0 where
  pub keys : KeyProvider
  pub pending : Option Pending

unfoldable pub propose_status : Option KeyrotateError → ℕ
propose_status none = 200
propose_status (some bad_key) = 400
propose_status (some bad_encoding) = 409
propose_status (some already_pending) = 409

-- The handlers, with the status of the answer, for a body that decodes.
unfoldable pub handle_propose : Codec → ProposeRequest → (now : ℕ) → Keyholder → Keyholder × ℕ
handle_propose c req now m =
    let (pending, failed) = put c req now m.pending in
    (record m { pending = pending }, propose_status failed)

unfoldable pub handle_commit : CommitRequest → (now : ℕ) → Keyholder → Keyholder × ℕ
handle_commit req now m =
    let (pending, found) = take req.propose_id m.pending in
    let taken = record m { pending = pending } in
    let grace = if eqb req.grace_duration 0 then default_grace_duration else req.grace_duration in
    elim found [
      | none ↦ (taken, 409)
      | some key ↦ elim (rotate key grace now m.keys) [
        | none ↦ (taken, 500)
        | some keys ↦ (record taken { keys = keys }, 200)
      ]
    ]

unfoldable pub handle_abort : (propose_id : String) → Keyholder → Keyholder × ℕ
handle_abort propose_id m = (record m { pending = (clear propose_id m.pending).0 }, 200)
