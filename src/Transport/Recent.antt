-- ===== src/Transport/Recent.antt =====
-- src/cland/internal/transport/nonce.go: what the sweep and the eviction of one bucket leave.
use minti.Base.{
  ℕ, String, true, false, List, [], ◌∷◌, ◌++◌, ◌+◌, ◌≤◌, ◌<◌, suc, some, ltb, leb, length,
  length-append, if◌then◌else◌, lookup, insert, delete, lookup-insert, lookup-delete, is_some, map,
  ◌≡◌, ◌↔◌, ◌⊎◌, inl, inr, refl, sym, ap, subst, arith, ◌==◌, eq_iff, In, In-of_append,
  In-append_left, In-append_right, IsDistinct, Bool-cases,
}
use minti.Transport.Nonces.{NonceEntry, Bucket, sweep, evict, push}

abbrev pub nonces : List NonceEntry → List String
nonces = map (λ e. e.nonce)

-- The map has exactly the nonces of the list, and the list has none twice.
pub record IsPaired (b : Bucket) : Type 0 where
  pub same : (n : String) → (is_some (lookup n b.entries) ≡ true) ↔ In n (nonces b.lru)
  pub distinct : IsDistinct (nonces b.lru)

-- `e` stands in the list with at most `k` entries after it.
abbrev pub IsRecent : NonceEntry → ℕ → List NonceEntry → Type 0
IsRecent e k [] = ⊥
IsRecent e k (x ∷ rest) = ((x ≡ e) × (length rest ≤ k)) ⊎ IsRecent e k rest

pub evict-bounded :
    (cap : ℕ) (entries : List (String × NonceEntry)) (lru : List NonceEntry)
    → length (evict cap entries lru).lru ≤ cap
unfolding evict
evict-bounded cap entries [] = omega arith
evict-bounded cap entries (e ∷ rest) =
    ground (arith, evict-bounded cap (delete e.nonce entries) rest)

pub sweep-shorter :
    (ttl now : ℕ) (entries : List (String × NonceEntry)) (lru : List NonceEntry)
    → length (sweep ttl now entries lru).lru ≤ length lru
unfolding sweep
sweep-shorter ttl now entries [] = omega arith
sweep-shorter ttl now entries (e ∷ rest) =
    ground (arith, sweep-shorter ttl now (delete e.nonce entries) rest)

-- Removing the front entry from the map and the list.
IsPaired-delete :
    (entries : List (String × NonceEntry)) (e : NonceEntry) (rest : List NonceEntry)
    → IsPaired (record { entries = entries; lru = e ∷ rest })
    → IsPaired (record { entries = delete e.nonce entries; lru = rest })
IsPaired-delete entries e rest h = record {
  same = λ n. elim (Bool-cases (e.nonce == n)) [
    | inl p ↦
        rw (lookup-delete e.nonce n entries, p)
          (
            λ q. ground arith,
            λ m.
                absurd
                  (h.distinct.0 (subst (λ w. In w (nonces rest)) (sym ((eq_iff e.nonce n).0 p)) m)),
          )
    | inr p ↦
        rw (lookup-delete e.nonce n entries, p)
          (
            λ q. elim ((h.same n).0 q) [
              | inl r ↦ absurd (ground (arith, (eq_iff e.nonce n).1 (sym r)))
              | inr m ↦ m
            ],
            λ m. (h.same n).1 (inr m),
          )
  ];
  distinct = h.distinct.1;
}

pub sweep-IsPaired :
    (ttl now : ℕ) (entries : List (String × NonceEntry)) (lru : List NonceEntry)
    → IsPaired (record { entries = entries; lru = lru })
    → IsPaired (sweep ttl now entries lru)
unfolding sweep
sweep-IsPaired ttl now entries [] h = h
sweep-IsPaired ttl now entries (e ∷ rest) h = elim (Bool-cases (leb now (e.added + ttl))) [
  | inl p ↦ rw p h
  | inr p ↦
      rw p (sweep-IsPaired ttl now (delete e.nonce entries) rest (IsPaired-delete entries e rest h))
]

pub evict-IsPaired :
    (cap : ℕ) (entries : List (String × NonceEntry)) (lru : List NonceEntry)
    → IsPaired (record { entries = entries; lru = lru })
    → IsPaired (evict cap entries lru)
unfolding evict
evict-IsPaired cap entries [] h = h
evict-IsPaired cap entries (e ∷ rest) h = elim (Bool-cases (ltb cap (length (e ∷ rest)))) [
  | inl p ↦
      rw p (evict-IsPaired cap (delete e.nonce entries) rest (IsPaired-delete entries e rest h))
  | inr p ↦ rw p h
]

pub sweep-IsRecent :
    (ttl now : ℕ) (entries : List (String × NonceEntry)) (e : NonceEntry) (k : ℕ)
    (lru : List NonceEntry)
    → now ≤ e.added + ttl
    → IsRecent e k lru
    → IsRecent e k (sweep ttl now entries lru).lru
unfolding sweep
sweep-IsRecent ttl now entries e k [] f h = h
sweep-IsRecent ttl now entries e k (x ∷ rest) f h = elim (Bool-cases (leb now (x.added + ttl))) [
  | inl p ↦ rw p h
  | inr p ↦ rw p (sweep-IsRecent ttl now (delete x.nonce entries) e k rest f (behind p h))
]
  where
    behind : leb now (x.added + ttl) ≡ false → IsRecent e k (x ∷ rest) → IsRecent e k rest
    behind p (inl q) = let r : x.added ≡ e.added = ap (λ w. w.added) q.0 in absurd (ground arith)
    behind p (inr q) = q

pub evict-IsRecent :
    (cap : ℕ) (entries : List (String × NonceEntry)) (e : NonceEntry) (k : ℕ)
    (lru : List NonceEntry)
    → k < cap
    → IsRecent e k lru
    → IsRecent e k (evict cap entries lru).lru
unfolding evict
evict-IsRecent cap entries e k [] f h = h
evict-IsRecent cap entries e k (x ∷ rest) f h = elim (Bool-cases (ltb cap (suc (length rest)))) [
  | inl p ↦ rw p (evict-IsRecent cap (delete x.nonce entries) e k rest f (behind p h))
  | inr p ↦ rw p h
]
  where
    behind : ltb cap (suc (length rest)) ≡ true → IsRecent e k (x ∷ rest) → IsRecent e k rest
    behind p (inl q) = absurd (ground arith)
    behind p (inr q) = q

pub append-IsRecent :
    (e y : NonceEntry) (k : ℕ) (lru : List NonceEntry)
    → IsRecent e k lru
    → IsRecent e (suc k) (lru ++ y ∷ [])
append-IsRecent e y k [] h = absurd h
append-IsRecent e y k (x ∷ rest) (inl q) = inl (q.0, ground (arith, length-append rest (y ∷ [])))
append-IsRecent e y k (x ∷ rest) (inr h) = inr (append-IsRecent e y k rest h)

pub last-IsRecent : (e : NonceEntry) (lru : List NonceEntry) → IsRecent e 0 (lru ++ e ∷ [])
last-IsRecent e [] = inl (refl, omega arith)
last-IsRecent e (x ∷ rest) = inr (last-IsRecent e rest)

pub IsRecent-In :
    (e : NonceEntry) (k : ℕ) (lru : List NonceEntry) → IsRecent e k lru → In e.nonce (nonces lru)
IsRecent-In e k [] h = h
IsRecent-In e k (x ∷ rest) (inl q) = inl (ap (λ w. w.nonce) (sym q.0))
IsRecent-In e k (x ∷ rest) (inr h) = inr (IsRecent-In e k rest h)

append-nonces :
    (lru : List NonceEntry) (e : NonceEntry) → nonces (lru ++ e ∷ []) ≡ nonces lru ++ e.nonce ∷ []
append-nonces [] e = refl
append-nonces (x ∷ rest) e = ap (λ l. x.nonce ∷ l) (append-nonces rest e)

snoc-IsDistinct :
    (xs : List String) (y : String) → IsDistinct xs → ¬ (In y xs) → IsDistinct (xs ++ y ∷ [])
snoc-IsDistinct [] y h n = (λ m. m, tt)
snoc-IsDistinct (x ∷ xs) y h n = (
  λ m. elim (In-of_append x xs (y ∷ []) m) [
    | inl k ↦ h.0 k
    | inr (inl p) ↦ n (inl (sym p))
    | inr (inr q) ↦ q
  ],
  snoc-IsDistinct xs y h.1 (λ m. n (inr m)),
)

-- A new nonce keeps the map and the list paired.
pub push-IsPaired :
    (cap : ℕ) (e : NonceEntry) (b : Bucket)
    → IsPaired b
    → is_some (lookup e.nonce b.entries) ≡ false
    → IsPaired (push cap e b)
unfolding push
push-IsPaired cap e b h new =
    evict-IsPaired cap (insert e.nonce e b.entries) (b.lru ++ e ∷ []) (record {
      same = λ n. (
        λ q.
            rw (append-nonces b.lru e) (
              forward n (Bool-cases (e.nonce == n))
                (rw (lookup-insert e.nonce n e b.entries) at q)),
        λ m.
            backward n
              (In-of_append n (nonces b.lru) (e.nonce ∷ []) (rw (append-nonces b.lru e) at m)),
      );
      distinct = rw (append-nonces b.lru e) (
          snoc-IsDistinct (nonces b.lru) e.nonce h.distinct
            (λ m. let q = (h.same e.nonce).1 m in ground arith));
    })
  where
    forward :
        (n : String)
        → ((e.nonce == n) ≡ true) ⊎ ((e.nonce == n) ≡ false)
        → is_some (if e.nonce == n then some e else lookup n b.entries) ≡ true
        → In n (nonces b.lru ++ e.nonce ∷ [])
    forward n (inl p) q =
        In-append_right n (nonces b.lru) (e.nonce ∷ []) (inl (sym ((eq_iff e.nonce n).0 p)))
    forward n (inr p) q =
        let q' : is_some (lookup n b.entries) ≡ true = rw p at q in
        In-append_left n (nonces b.lru) (e.nonce ∷ []) ((h.same n).0 q')

    backward :
        (n : String)
        → In n (nonces b.lru) ⊎ In n (e.nonce ∷ [])
        → is_some (lookup n (insert e.nonce e b.entries)) ≡ true
    backward n (inl m) =
        let q = (h.same n).1 m in rw (lookup-insert e.nonce n e b.entries) (ground arith)
    backward n (inr (inl p)) =
        rw (lookup-insert e.nonce n e b.entries) (ground (arith, (eq_iff e.nonce n).1 (sym p)))
    backward n (inr (inr q)) = absurd q
