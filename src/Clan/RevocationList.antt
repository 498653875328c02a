-- ===== src/Clan/RevocationList.antt =====
-- src/cland/internal/state/state.go: the digest of a revocation list, and its merge.
use Prim.Native.String.{◌++◌ as append}
use minti.Base.{
  String, Bool, List, [], ◌∷◌, ◌++◌, map, ◌==◌, if◌then◌else◌, any, sort_slice, str_lt,
}
use minti.Clan.{Revocation, Revocations}

-- `strings.Join(ids, "\n")`
unfoldable pub join_lines : List String → String
join_lines [] = ""
join_lines (s ∷ []) = s
join_lines (s ∷ t ∷ r) = append s (append "\n" (join_lines (t ∷ r)))

abbrev pub ids : List Revocation → List String
ids = map (λ e. e.member_id)

-- The bytes that `Digest` hashes, nothing for an empty list.
unfoldable pub digest_input : List Revocation → String
digest_input [] = ""
digest_input (e ∷ es) = join_lines (sort_slice str_lt (ids (e ∷ es)))

-- `sha256` stands for crypto/sha256 with its hexadecimal encoding.
unfoldable pub digest : (sha256 : String → String) → Revocations → String
digest sha256 r = sha256 (digest_input r.entries)

-- `seen[id]`
unfoldable pub is_seen : String → List String → Bool
is_seen id seen = any (λ s. s == id) seen

-- One loop of `Merge`: the entries that it appends, and the ids then seen.
unfoldable pub fresh_entries : List String → List Revocation → List Revocation
fresh_entries seen [] = []
fresh_entries seen (e ∷ es) =
    let again = fresh_entries seen es in
    let fresh = e ∷ fresh_entries (e.member_id ∷ seen) es in
    if is_seen e.member_id seen then again else fresh

unfoldable pub seen_after : List String → List Revocation → List String
seen_after seen [] = seen
seen_after seen (e ∷ es) =
    seen_after (if is_seen e.member_id seen then seen else e.member_id ∷ seen) es

unfoldable pub merge : Revocations → Revocations → Revocations
merge r other = record {
  entries = fresh_entries [] r.entries ++ fresh_entries (seen_after [] r.entries) other.entries;
}
