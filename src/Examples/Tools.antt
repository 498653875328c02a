-- ===== src/Examples/Tools.antt =====
-- The theorems on tool execution, applied to a sample token.
use minti.Base.{
  ℕ, true, none, some, [], ◌∷◌, ◌≡◌, ◌⊎◌, refl, ap, arith, pos, Result, ok, lookup, keep,
}
use minti.Toolexec.{Token, Crypto, KeyProvider}
use minti.Toolexec.Signing.{sign, verify_hmac, verify_claims, matches_any}
use minti.Toolexec.Keys.{rotate}
use minti.Toolexec.Replay.{new_replay_cache, check_and_store, is_remembered, make_room}
use minti.Toolexec.Limits.{new_rate_limiter, allow, stamps_or_empty}
use minti.Toolexec.Execute.{
  ExecuteRequest, Env, Handler, handle_execute, check_replay, limit, run_tool, audit, key_or_nil,
}
use minti.Toolexec.Checks.{IsApproved, handle_execute-guarded}
use minti.Toolexec.Once.{run_all, handle_execute-once}
use minti.Toolexec.Rotation.{IsHex, keys_at, rotate-verify_hmac}
use minti.Toolexec.Windows.{allow_all, times_of, allow_all-independent}
use minti.Examples.{apart}
use minti.Window.{admit, admit_all}

-- A stand-in for the cryptography: a digest is its key, and nothing is encoded.
abbrev toy : Crypto
toy = record {
  hmac = λ key message. key;
  sha256 = λ s. s;
  hex_encode = λ s. s;
  hex_decode = λ s. some s;
  to_lower = λ s. s;
  format_int = λ n. "0";
}

abbrev token : Token
token = record {
  request_id = "r1";
  origin_member = "bob";
  target_member = "ann";
  tool = "mcp-fs.read";
  args_hash = "{}";
  approved_at = pos 1000;
  exp = pos 2000;
  sig = "k";
}

abbrev request : ExecuteRequest
request = record { token = token; args = "{}" }

abbrev keys : KeyProvider
keys = record { current = "k"; grace = none; grace_expiry = 0 }

abbrev world : ℕ → Env
world now = record {
  crypto = toy;
  keys = keys;
  key_clock = now;
  now = now;
  limiter_clock = now;
  is_object = λ a. true;
  execute = λ tool args. record { server = "minti-mcp-fs"; tool = "read"; outcome = ok "" };
}

abbrev handler : Handler
handler = record {
  self_id = "ann";
  max_lifetime = 600000000000;
  replay = new_replay_cache 0 0;
  rate_limiter = some (new_rate_limiter 0 0);
  audit_log = [];
  calls = [];
}

token_called : (handle_execute (world 1500000000) (ok request) handler).0.calls ≡ request ∷ []
unfolding handle_execute verify_hmac matches_any verify_claims check_replay check_and_store
    is_remembered lookup make_room limit allow run_tool audit key_or_nil admit keep stamps_or_empty
token_called = refl

handle_execute-once_example :
    (handle_execute
      (world 1600000000)
      (ok request)
      (handle_execute (world 1500000000) (ok request) handler).0).0.calls
    ≡ (handle_execute (world 1500000000) (ok request) handler).0.calls
unfolding run_all
handle_execute-once_example =
    handle_execute-once (world 1500000000) request handler [] (world 1600000000) request
      (omega arith) (omega arith) token_called (omega arith) refl

handle_execute-guarded_example :
    ((handle_execute (world 1500000000) (ok request) handler).0.calls ≡ [])
    ⊎ ((req : ExecuteRequest) × (◌≡◌ {A = Result Token ExecuteRequest} (ok request) (ok req))
        × ((handle_execute (world 1500000000) (ok request) handler).0.calls ≡ req ∷ [])
        × IsApproved (world 1500000000) handler req)
handle_execute-guarded_example = handle_execute-guarded (world 1500000000) (ok request) handler

abbrev rotated : KeyProvider
rotated = record { current = "new"; grace = some "k"; grace_expiry = 310 }

-- Signatures that are never empty.
abbrev marked : Crypto
marked = record toy { hmac = λ key message. "mac" }

marked-IsHex : IsHex marked
marked-IsHex = record { decodes = λ s. refl; nonempty = λ k m. apart "mac" "" refl }

rotate-verify_hmac_example : verify_hmac marked (keys_at 300 rotated) (sign marked "k" token) ≡ none
unfolding rotate
rotate-verify_hmac_example =
    (rotate-verify_hmac marked "new" 300 10 300 keys rotated token marked-IsHex (apart "k" "" refl)
        refl).0
      (omega arith)

allow_all-independent_example :
    (allow_all "bob" (("bob", 1) ∷ ("eve", 2) ∷ ("bob", 3) ∷ []) (new_rate_limiter 1 60, [])).1
    ≡ (admit_all 1 60 (times_of "bob" (("bob", 1) ∷ ("eve", 2) ∷ ("bob", 3) ∷ [])) ([], [])).1
allow_all-independent_example =
    ap (λ x. x.1)
      (allow_all-independent "bob" (("bob", 1) ∷ ("eve", 2) ∷ ("bob", 3) ∷ []) 1 60
        (apart "bob" "" refl))
