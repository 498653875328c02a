-- ===== src/Clan.antt =====
-- src/cland/internal/state/state.go: what a member keeps on disk, and the store that reads and writes it.
-- A time is a number of nanoseconds, 0 for Go's zero time. `LoadClan` parses the file anew on each
-- call, so no two values that it returns are aliased. The file system is the store's four flags: a
-- read or a write of a file fails while its flag is off.
pub mod RevocationList
pub mod RosterMerge
pub mod RevocationUnion
pub mod RosterProgress
pub mod RosterIds
use minti.Base.{
  ℕ, String, Bool, false, not, List, [], Option, none, some, Result, ok, err, ◌==◌, if◌then◌else◌,
}

pub record RosterMember : Type 0 where
  pub member_id : String
  pub pub_key_b64 : String
  pub state : String  -- admitted | active | revoked
  pub admitted_at : ℕ
  pub last_seen_at : ℕ

pub record Clan : Type 0 where
  pub clan_id : String
  pub clan_key_b64 : String
  pub clan_cert_pem : String
  pub clan_cert_pin : String
  pub clan_cert_priv_key_b64 : String
  pub role : String
  pub joined_at : ℕ
  pub roster : List RosterMember
  pub current_orchestrator : String
  pub current_term : ℕ  -- uint64
  pub pinned_orchestrator : Bool
  pub current_scribe : String
  pub pinned_scribe : Bool

-- Go's zero value `Clan{}`, the unaffiliated member.
abbrev pub zero_clan : Clan
zero_clan = record {
  clan_id = "";
  clan_key_b64 = "";
  clan_cert_pem = "";
  clan_cert_pin = "";
  clan_cert_priv_key_b64 = "";
  role = "";
  joined_at = 0;
  roster = [];
  current_orchestrator = "";
  current_term = 0;
  pinned_orchestrator = false;
  current_scribe = "";
  pinned_scribe = false;
}

pub record Revocation : Type 0 where
  pub member_id : String
  pub pub_key_hash : String
  pub revoked_at : ℕ
  pub revoked_by : String
  pub reason : String

pub record Revocations : Type 0 where
  pub entries : List Revocation

-- `(c *Clan) IsActive()`, of a pointer that may be nil.
unfoldable pub is_active : Option Clan → Bool
is_active none = false
is_active (some c) = not (c.clan_id == "")

pub data StoreError : Type 0 where
  read_failed write_failed : StoreError

-- `none` for a file that does not exist.
pub record Store : Type 0 where
  pub clan_file : Option Clan
  pub revocations_file : Option Revocations
  pub clan_readable : Bool
  pub clan_writable : Bool
  pub revocations_readable : Bool
  pub revocations_writable : Bool

unfoldable pub load_clan : Store → Result StoreError (Option Clan)
load_clan s = if s.clan_readable then ok s.clan_file else err read_failed

-- The rename is atomic: on an error the old file stands.
unfoldable pub save_clan : Clan → Store → Store × Option StoreError
save_clan c s =
    if s.clan_writable then (record s { clan_file = some c }, none) else (s, some write_failed)

unfoldable pub or_empty : Option Revocations → Revocations
or_empty none = record { entries = [] }
or_empty (some r) = r

unfoldable pub load_revocations : Store → Result StoreError Revocations
unfolding or_empty
load_revocations s =
    if s.revocations_readable then ok (or_empty s.revocations_file) else err read_failed

unfoldable pub save_revocations : Revocations → Store → Store × Option StoreError
save_revocations r s =
    if s.revocations_writable
    then (record s { revocations_file = some r }, none)
    else (s, some write_failed)
