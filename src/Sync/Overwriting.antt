-- ===== src/Sync/Overwriting.antt =====
-- src/cland/internal/rostersync/sync.go and src/cland/internal/revocations/sync.go: what becomes of the
-- file that other goroutines write during the fetch, and of the flag that a fetch is running.
use minti.Base.{
  String, false, List, some, ok, ◌==◌, ◌≡◌, ◌⊎◌, inl, inr, refl, Bool-cases, Option-cases,
  lookup-delete, eq_refl,
}
use minti.Clan.{RosterMember, Clan, Store, load_clan}
use minti.Clan.RosterMerge.{merge_roster_states, roster_digest}
use minti.Sync.{fetch, Inflight, busy, enter, leave}
use minti.Sync.RosterSync.{Syncer, Env, roster_equal, ask, maybe_sync}

-- What a synchronisation leaves on disk: what was there, what other goroutines made of it, or the
-- clan that was read before the fetch with the merged roster, in place of what they made of it.
abbrev pub IsLeft : Env → Syncer → (sender : String) → Store → Type 0
IsLeft e s sender store =
    let meanwhile = (e.meanwhile (record s { inflight = enter sender s.inflight })).store in
    (store ≡ s.store)
    ⊎ (store ≡ meanwhile)
    ⊎ ((old : Clan) × (fetched : List RosterMember) × (load_clan s.store ≡ ok (some old))
        × (fetch (e.answer (e.lookup_addr sender)) ≡ some fetched)
        × (roster_equal (merge_roster_states old.roster fetched) old.roster ≡ false)
        × (store ≡ record meanwhile {
          clan_file = some (record old { roster = merge_roster_states old.roster fetched });
        }))

-- The sender that left is not busy.
not_busy : (sender : String) (inflight : Inflight) → busy sender (leave sender inflight) ≡ false
not_busy sender inflight = rw (lookup-delete sender sender inflight, eq_refl sender) refl

ask-frees :
    (e : Env) (s : Syncer) (sender addr : String) (old : Clan)
    → busy sender (ask e s sender addr old).inflight ≡ false
unfolding ask
ask-frees e s sender addr old = elim (Option-cases (fetch (e.answer addr))) [
  | inl p ↦ rw (ask, p) (not_busy sender _)
  | inr (fetched, p) ↦ rw (ask, p) (not_busy sender _)
]

-- However a roster synchronisation ends, a sender that was not marked as being asked is not marked
-- after it, whatever other goroutines do meanwhile.
pub maybe_sync-frees :
    (e : Env) (s : Syncer) (sender their_digest : String)
    → busy sender s.inflight ≡ false
    → busy sender (maybe_sync e s sender their_digest).0.inflight ≡ false
unfolding maybe_sync load_clan
maybe_sync-frees e s sender their_digest h = elim (Bool-cases (their_digest == "")) [
  | inl p ↦ rw p h
  | inr p ↦ elim (Bool-cases s.store.clan_readable) [
    | inr r ↦ rw (p, r) h
    | inl r ↦ elim (Option-cases s.store.clan_file) [
      | inl f ↦ rw (p, r, f) h
      | inr (old, f) ↦ elim (Bool-cases (roster_digest e.sha256 old.roster == their_digest)) [
        | inl d ↦ rw (p, r, f, d) h
        | inr d ↦ elim (Bool-cases (e.lookup_addr sender == "")) [
          | inl a ↦ rw (p, r, f, d, h, a) (not_busy sender _)
          | inr a ↦ rw (p, r, f, d, h, a) (ask-frees e s sender _ old)
        ]
      ]
    ]
  ]
]
