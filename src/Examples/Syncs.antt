-- ===== src/Examples/Syncs.antt =====
-- The theorems on synchronisation, applied to a sample member.
use minti.Examples.Clans.{some_revoked-IsDistinct}
use minti.Base.{
  true, some, List, [], ◌∷◌, ◌≡◌, ◌↔◌, ◌⊎◌, refl, In, sort_slice, insert_sorted, str_lt, lookup,
}
use minti.Clan.{RosterMember, or_empty}
use minti.Clan.RevocationList.{ids, digest, digest_input, join_lines}
use minti.Sync.{fetch}
use minti.Sync.RevocationSync
use minti.Sync.RosterSync
use minti.Sync.Settling.{held, maybe_sync-union}
use minti.Examples.{clan, entry, store, others_revoked, registry}

abbrev revocation_syncer : RevocationSync.Syncer
revocation_syncer = record { store = store; registry = registry; inflight = []; audit = [] }

-- Bob is at a known address and answers with his list.
abbrev bob_answers : RevocationSync.Env
bob_answers = record {
  sha256 = λ s. s;
  lookup_addr = λ id. "10.0.0.2:7946";
  answer = λ addr. some (200, some others_revoked);
  meanwhile = λ s. s;
}

maybe_sync-union_example :
    ((RevocationSync.maybe_sync bob_answers revocation_syncer "bob" "other").1 ≡ true)
    × (In "lee" (
          ids
            (held
              (RevocationSync.maybe_sync bob_answers revocation_syncer "bob" "other").0).entries)
        ↔ (In "lee" (ids (held revocation_syncer).entries) ⊎ In "lee" (ids others_revoked.entries)))
unfolding digest digest_input sort_slice insert_sorted str_lt join_lines or_empty fetch lookup
maybe_sync-union_example =
    maybe_sync-union bob_answers revocation_syncer "bob" "other" others_revoked "lee" refl refl refl
      some_revoked-IsDistinct refl refl refl refl (λ t. refl)

abbrev other_roster : List RosterMember
other_roster = entry "eve" "active" ∷ []

abbrev roster_syncer : RosterSync.Syncer
roster_syncer = record { store = store; inflight = []; audit = [] }

-- While Bob's roster is fetched, the election records a new term.
abbrev term_recorded : RosterSync.Syncer → RosterSync.Syncer
term_recorded s = record s {
  store = record s.store { clan_file = some (record clan { current_term = 9 }) };
}

abbrev roster_env : RosterSync.Env
roster_env = record {
  sha256 = λ s. s;
  lookup_addr = λ id. "10.0.0.2:7946";
  answer = λ addr. some (200, some other_roster);
  meanwhile = term_recorded;
}
