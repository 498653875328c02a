-- ===== src/Toolexec/Keys.antt =====
-- src/cland/internal/crypto/keyprovider.go: the current key and, for a while after a rotation, the
-- one before it.
use minti.Base.{ℕ, ◌+◌, String, Option, none, some, ◌==◌, ltb, if◌then◌else◌}
use minti.Toolexec.{KeyProvider}

-- None is the error for an empty key.
abbrev pub new_key_provider : String → Option KeyProvider
new_key_provider key =
    if key == "" then none else some (record { current = key; grace = none; grace_expiry = 0 })

-- None is `nil, false`.
abbrev pub grace_key : (now : ℕ) → KeyProvider → Option String
grace_key now p = if ltb p.grace_expiry now then none else p.grace

unfoldable pub rotate : (new_key : String) (grace_dur now : ℕ) → KeyProvider → Option KeyProvider
rotate new_key grace_dur now p =
    if new_key == ""
    then none
    else some (record { current = new_key; grace = some p.current; grace_expiry = now + grace_dur })

abbrev pub drop_grace : KeyProvider → KeyProvider
drop_grace p = record p { grace = none; grace_expiry = 0 }
