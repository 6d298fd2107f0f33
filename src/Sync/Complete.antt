-- ===== src/Sync/Complete.antt =====
-- The state that NewGroupsState of state.go starts with.
use mathlib.Core.List.{reverse}
use croissant.Base.{
  ℕ, ◌≤◌, ◌++◌, Bool, true, false, none, some, if◌then◌else◌, List, [], ◌∷◌, String, length, load,
  string_eq, ◌≡◌, refl, sym, ◌∙◌, ap, subst, inl, inr, Option-cases,
}
use croissant.Nostr.{NostrLib, EventStore, Filter, Kind, PubKey, Timestamp}
use croissant.Groups.{Group, GroupsState}
use croissant.Process.Invariant.Defs.{WellFormed, ApplyKeepsId, GroupsOk, CountsOk}
use croissant.Startup.{load_groups_from_db}
use croissant.Startup.Established.{load_groups_from_db_ends}
use croissant.Sync.{MetadataLib, sync_group_metadata_events}
use croissant.Sync.Broadcast.{Renewed, step-Renewed, unchanged-Renewed, broadcast_all-reverse}
use croissant.Sync.Started.{renewed, sync_all, new_groups_state}

module _ (lib : NostrLib) (meta : MetadataLib) {Db E : Type 0} (es : EventStore Db E)
    (relay_key : PubKey) (now : Timestamp) (moderation_kinds : List Kind) where
  renewed-Renewed :
      (has_relay : Bool) (s s' : GroupsState Db) (group_id : String) (group : Group)
      → Renewed lib meta es relay_key now s s'
      → load s'.groups group_id ≡ some group
      → Renewed lib meta es relay_key now s (
          renewed lib meta es relay_key now moderation_kinds has_relay s'
            (sync_group_metadata_events lib meta es relay_key now group s'.db))
  renewed-Renewed true s s' group_id group r found =
      step-Renewed lib meta es relay_key now s s' group_id group r found
  renewed-Renewed false s s' group_id group r found = record {
    groups_kept = r.groups_kept;
    members_kept = r.members_kept;
    deletions_kept = r.deletions_kept;
    cache_kept = r.cache_kept;
    index_kept = r.index_kept;
    url_kept = r.url_kept;
    broadcasts_grow = r.broadcasts_grow;
  }

  sync_all-Renewed :
      (has_relay : Bool) (order : List String) (s s' : GroupsState Db)
      → Renewed lib meta es relay_key now s s'
      → Renewed lib meta es relay_key now s
          (sync_all lib meta es relay_key now moderation_kinds has_relay order s')
  unfolding sync_all
  sync_all-Renewed has_relay [] s s' r = r
  sync_all-Renewed has_relay (group_id ∷ more) s s' r =
      elim (Option-cases (load s'.groups group_id)) [
        | inl gone ↦ rw (gone, sync_all) (sync_all-Renewed has_relay more s s' r)
        | inr (group, found) ↦
            rw (found, sync_all)
              (sync_all-Renewed has_relay more s
                (renewed lib meta es relay_key now moderation_kinds has_relay s'
                  (sync_group_metadata_events lib meta es relay_key now group s'.db))
                (renewed-Renewed has_relay s s' group_id group r found))
      ]

  -- The groups are renewed one after the other, each in the store that the ones before it left; what
  -- each yields is broadcast in its order, where there is a relay. An id without a group is passed
  -- over.
  pub data SyncsEach (has_relay : Bool)
      : List String → GroupsState Db → GroupsState Db → Type 0 where
    all_renewed : (s : GroupsState Db) → SyncsEach has_relay [] s s
    passes_over :
        (group_id : String) (more_ids : List String) (s s' : GroupsState Db)
        → load s.groups group_id ≡ none
        → SyncsEach has_relay more_ids s s'
        → SyncsEach has_relay (group_id ∷ more_ids) s s'
    renews_one :
        (group_id : String) (group : Group) (more_ids : List String) (s t s' : GroupsState Db)
        → load s.groups group_id ≡ some group
        → t.groups ≡ s.groups
        → t.db ≡ (sync_group_metadata_events lib meta es relay_key now group s.db).0
        → t.broadcasts ≡ (
            if has_relay
            then reverse (sync_group_metadata_events lib meta es relay_key now group s.db).1
              ++ s.broadcasts
            else s.broadcasts)
        → SyncsEach has_relay more_ids t s'
        → SyncsEach has_relay (group_id ∷ more_ids) s s'

  renewed-broadcasts :
      (has_relay : Bool) (s : GroupsState Db) (group : Group)
      → (renewed lib meta es relay_key now moderation_kinds has_relay s
          (sync_group_metadata_events lib meta es relay_key now group s.db)).broadcasts
        ≡ (if has_relay
            then reverse (sync_group_metadata_events lib meta es relay_key now group s.db).1
              ++ s.broadcasts
            else s.broadcasts)
  renewed-broadcasts true s group =
      broadcast_all-reverse lib meta es relay_key now
        (sync_group_metadata_events lib meta es relay_key now group s.db).1 s.broadcasts
  renewed-broadcasts false s group = refl

  sync_all-SyncsEach :
      (has_relay : Bool) (order : List String) (s : GroupsState Db)
      → SyncsEach has_relay order s
          (sync_all lib meta es relay_key now moderation_kinds has_relay order s)
  unfolding sync_all
  sync_all-SyncsEach has_relay [] s = all_renewed s
  sync_all-SyncsEach has_relay (group_id ∷ more) s = elim (Option-cases (load s.groups group_id)) [
    | inl gone ↦
        rw (gone, sync_all)
          (passes_over group_id more s _ gone (sync_all-SyncsEach has_relay more s))
    | inr (group, found) ↦
        rw (found, sync_all)
          (renews_one group_id group more s _ _ found refl refl
            (renewed-broadcasts has_relay s group)
            (sync_all-SyncsEach has_relay more (
              renewed lib meta es relay_key now moderation_kinds has_relay s
                (sync_group_metadata_events lib meta es relay_key now group s.db))))
  ]

  sync_all_silent :
      (order : List String) (s : GroupsState Db)
      → (sync_all lib meta es relay_key now moderation_kinds false order s).broadcasts
        ≡ s.broadcasts
  unfolding sync_all
  sync_all_silent [] s = refl
  sync_all_silent (group_id ∷ more) s = elim (Option-cases (load s.groups group_id)) [
    | inl gone ↦ rw (gone, sync_all) (sync_all_silent more s)
    | inr (group, found) ↦
        rw (found, sync_all)
          (sync_all_silent more (
            renewed lib meta es relay_key now moderation_kinds false s
              (sync_group_metadata_events lib meta es relay_key now group s.db)))
  ]

  Renewed-WellFormed :
      (s s' : GroupsState Db)
      → Renewed lib meta es relay_key now s s'
      → WellFormed s
      → WellFormed s'
  Renewed-WellFormed s s' r v = record {
    groups_ok = subst GroupsOk (sym r.groups_kept) v.groups_ok;
    cache_ok = ap length r.cache_kept ∙ v.cache_ok;
    counts_ok = subst CountsOk (sym r.members_kept) v.counts_ok;
  }

  -- When the store yields no more events than it was asked for on a filter that names no ids,
  -- NewGroupsState does not panic. It leaves a well-formed state: the groups, counts and deletions that
  -- were loaded. Each group that the range over them yields has its metadata events renewed, in its
  -- turn, in the store that the ones before it left. Only the store and the broadcasts change with that:
  -- the broadcasts are these renewals, and without a relay there are none. The library's actions keep a
  -- group's id.
  pub new_groups_state_ends :
      ApplyKeepsId lib
      → ((db : Db) (f : Filter) (n : ℕ) → f.ids ≡ none → length (es.query_events db f n) ≤ n)
      → (has_relay : Bool) (order : GroupsState Db → List String) (db : Db) (relay_url : String)
      → (s s' : GroupsState Db) × (load_groups_from_db lib es moderation_kinds db relay_url
          ≡ some s)
        × (new_groups_state lib meta es relay_key now moderation_kinds has_relay order db relay_url
            ≡ some s')
        × WellFormed s'
        × Renewed lib meta es relay_key now s s'
        × SyncsEach has_relay (order s) s s'
        × (has_relay ≡ false → s'.broadcasts ≡ s.broadcasts)
  unfolding new_groups_state
  new_groups_state_ends same_id bounded has_relay order db relay_url =
      let (s, found, v) =
        load_groups_from_db_ends lib es moderation_kinds same_id bounded db relay_url in
      let s' = sync_all lib meta es relay_key now moderation_kinds has_relay (order s) s in
      let r =
        sync_all-Renewed has_relay (order s) s s (unchanged-Renewed lib meta es relay_key now s) in
      (
        s,
        s',
        found,
        rw (found, new_groups_state) refl,
        Renewed-WellFormed s s' r v,
        r,
        sync_all-SyncsEach has_relay (order s) s,
        λ silent.
            subst
              (λ b.
                (sync_all lib meta es relay_key now moderation_kinds b (order s) s).broadcasts
                ≡ s.broadcasts)
              (sym silent) (sync_all_silent (order s) s),
      )
