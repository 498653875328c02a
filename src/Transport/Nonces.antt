-- ===== src/Transport/Nonces.antt =====
-- src/cland/internal/transport/nonce.go: the nonces seen of each member, bounded and kept for a while. A
-- bucket has a map and a list with the same nonces, oldest first; of the map's values only the presence
-- is used.
use minti.Base.{
  ℕ, String, Bool, true, false, List, [], ◌∷◌, ◌++◌, ◌+◌, none, some, ltb, leb, eqb, length,
  if◌then◌else◌, lookup, insert, delete, is_some,
}

pub record NonceEntry : Type 0 where
  pub nonce : String
  pub added : ℕ

pub record Bucket : Type 0 where
  pub entries : List (String × NonceEntry)
  pub lru : List NonceEntry

pub record NonceCache : Type 0 where
  pub members : List (String × Bucket)
  pub cap_per_member : ℕ
  pub ttl : ℕ

-- `NewNonceCache`; an argument of 0 stands for one that is not positive.
unfoldable pub new_nonce_cache : (cap_per_member ttl : ℕ) → NonceCache
new_nonce_cache cap_per_member ttl = record {
  members = [];
  cap_per_member = if eqb cap_per_member 0 then 10000 else cap_per_member;
  ttl = if eqb ttl 0 then 300000000000 else ttl;
}

abbrev pub new_bucket : Bucket
new_bucket = record { entries = []; lru = [] }

unfoldable pub bucket_of : (member : String) → NonceCache → Bucket
bucket_of member c = elim (lookup member c.members) [ none ↦ new_bucket | some b ↦ b ]

-- The sweep from the front: it stops at the first entry that is not older than `ttl`.
unfoldable pub sweep : (ttl now : ℕ) → List (String × NonceEntry) → List NonceEntry → Bucket
sweep ttl now entries [] = record { entries = entries; lru = [] }
sweep ttl now entries (e ∷ rest) =
    let swept = sweep ttl now (delete e.nonce entries) rest in
    if leb now (e.added + ttl) then record { entries = entries; lru = e ∷ rest } else swept

-- The eviction from the front while there are more than `cap`.
unfoldable pub evict : (cap : ℕ) → List (String × NonceEntry) → List NonceEntry → Bucket
evict cap entries [] = record { entries = entries; lru = [] }
evict cap entries (e ∷ rest) =
    let evicted = evict cap (delete e.nonce entries) rest in
    if ltb cap (length (e ∷ rest)) then evicted else record { entries = entries; lru = e ∷ rest }

unfoldable pub push : (cap : ℕ) → NonceEntry → Bucket → Bucket
push cap e b = evict cap (insert e.nonce e b.entries) (b.lru ++ e ∷ [])

abbrev pub with_bucket : (member : String) → Bucket → NonceCache → NonceCache
with_bucket member b c = record c { members = insert member b c.members }

-- The cache, and whether the nonce is a new one.
unfoldable pub check_and_store : (member nonce : String) (now : ℕ) → NonceCache → NonceCache × Bool
check_and_store member nonce now c =
    let old = bucket_of member c in
    let swept = sweep c.ttl now old.entries old.lru in
    if is_some (lookup nonce swept.entries) then (with_bucket member swept c, false) else (
      with_bucket member (push c.cap_per_member (record { nonce = nonce; added = now }) swept) c,
      true,
    )

-- `MemberSize`
unfoldable pub member_size : (member : String) → NonceCache → ℕ
member_size member c = length (bucket_of member c).lru

abbrev pub total : List (String × Bucket) → ℕ
total [] = 0
total ((member, b) ∷ rest) = length b.lru + total rest

-- `Size`
unfoldable pub size : NonceCache → ℕ
size c = total c.members
