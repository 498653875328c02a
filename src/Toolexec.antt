-- ===== src/Toolexec.antt =====
-- src/cland/internal/toolexec: the tokens that allow a tool call on another member, and the state
-- with which the target checks them. Times are nanoseconds since the epoch; a token's own times are
-- milliseconds and may be negative, as the wire's int64.
pub mod Signing
pub mod Replay
pub mod Limits
pub mod Keys
pub mod Execute
pub mod Windows
pub mod Checks
pub mod Rotation
pub mod Cache
pub mod Once
use minti.Base.{ℕ, ◌+◌, ◌*◌, String, Bool, Option, List, ℤ, pos, negsuc, pos_part, neg_part, ltb}

pub record Token : Type 0 where
  pub request_id : String
  pub origin_member : String
  pub target_member : String
  pub tool : String
  pub args_hash : String
  pub approved_at : ℤ
  pub exp : ℤ
  pub sig : String

pub data ToolError : Type 0 where
  sig_mismatch : ToolError
  wrong_target : ToolError
  expired : ToolError
  approved_in_future : ToolError
  malformed_token : ToolError

-- What the standard library does for this package: `hmac` is HMAC-SHA256 on raw bytes, `sha256` is
-- hexadecimal already, `format_int` is `strconv.FormatInt` in base 10.
pub record Crypto : Type 0 where
  pub hmac : (key message : String) → String
  pub sha256 : String → String
  pub hex_encode : String → String
  pub hex_decode : String → Option String
  pub to_lower : String → String
  pub format_int : ℤ → String

-- `request_id` to the time at which it may be forgotten.
pub record ReplayCache : Type 0 where
  pub entries : List (String × ℕ)
  pub max_size : ℕ
  pub ttl : ℕ
  pub overflow : ℕ

pub record RateLimiter : Type 0 where
  pub buckets : List (String × List ℕ)
  pub max_burst : ℕ
  pub window : ℕ

pub record KeyProvider : Type 0 where
  pub current : String
  pub grace : Option String
  pub grace_expiry : ℕ

abbrev pub clock_skew_tolerance : ℕ
clock_skew_tolerance = 60000000000

abbrev pub default_max_token_lifetime : ℕ
default_max_token_lifetime = 600000000000

-- `time.UnixMilli`, whose parts below are those of the count of nanoseconds.
abbrev pub nanos : ℕ → ℕ
nanos ms = ms * 1000000

-- `time.UnixMilli(a).Sub(time.UnixMilli(b)) > d`
abbrev pub is_later_by : ℕ → (a b : ℤ) → Bool
is_later_by d a b =
    ltb (d + nanos (pos_part b) + nanos (neg_part a)) (nanos (pos_part a) + nanos (neg_part b))

-- `time.UnixMilli(a).After(now)`
abbrev pub is_after : (a : ℤ) (now : ℕ) → Bool
is_after a now = ltb (now + nanos (neg_part a)) (nanos (pos_part a))

-- `time.UnixMilli(a).Sub(now) > d`
abbrev pub is_ahead_by : ℕ → (a : ℤ) (now : ℕ) → Bool
is_ahead_by d a now = ltb (d + now + nanos (neg_part a)) (nanos (pos_part a))
