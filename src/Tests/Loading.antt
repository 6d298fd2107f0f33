-- ===== src/Tests/Loading.antt =====
-- The relay of Tests/World.antt started from its store, and its metadata events.
use croissant.Base.{
  keys, false, none, load, ◌++◌, string_eq, ℕ, zero, suc, ◌≤◌, some, List, [], ◌∷◌, All, length,
  is_empty, ◌&&◌, ◌≡◌, arith,
}
use croissant.Nostr.{Action, prepared, EventStore, Event, Kind, NipGroup}
use croissant.Groups.{Group, DeletedGroup, GroupsState, empty_state}
use croissant.Deleted.{moderation_filter, load_deleted_group_state}
use croissant.Deleted.Snapshot.{IsPast, IsBefore, load_deleted_group_state_lem}
use croissant.Process.Invariant.Defs.{WellFormed}
use croissant.Startup.{load_groups_from_db}
use croissant.Sync.{MetadataLib, candidates, sync_group_metadata_events}
use croissant.Sync.Started.{new_groups_state}
use croissant.Sync.Broadcast.{Renewed}
use croissant.Sync.Complete.{SyncsEach, new_groups_state_ends}
use croissant.Sync.Freshness.{IsRenewalOf, sync_group_metadata_events-IsRenewalOf}
use croissant.Tests.World.{Db, nostr, memory, cheese, event, message}
use croissant.Tests.Processing.{nostr-ApplyKeepsId}

abbrev first_of : ℕ → List Event → List Event
first_of zero evts = []
first_of (suc n) [] = []
first_of (suc n) (e ∷ evts) = e ∷ first_of n evts

length-first_of : (n : ℕ) (evts : List Event) → length (first_of n evts) ≤ n
length-first_of zero evts = omega arith
length-first_of (suc n) [] = omega arith
length-first_of (suc n) (e ∷ evts) = omega (arith, length-first_of n evts)

-- The store of Tests/World.antt, with its limit kept.
abbrev bounded : EventStore Db ℕ
bounded = record memory { query_events = λ db f n. first_of n (memory.query_events db f n) }

-- The creation of "goat" under "cheese", which was created before.
abbrev creations : Db
creations =
    event 4 9007 1 (("h" ∷ "goat" ∷ []) ∷ ("parent" ∷ "cheese" ∷ []) ∷ [])
    ∷ event 3 9007 1 (("h" ∷ "cheese" ∷ []) ∷ [])
    ∷ []

abbrev pub plain : Kind → NipGroup → Event
plain kind group = event 0 kind 99 (("d" ∷ group.id ∷ []) ∷ [])

abbrev pub metadata : MetadataLib
metadata = record {
  to_metadata_event = plain 39000;
  to_admins_event = plain 39001;
  to_members_event = plain 39002;
  to_roles_event = plain 39003;
  tags_eq = λ a b. is_empty a && is_empty b;
}

sync_group_metadata_events-IsRenewalOf_example :
    All
      (IsRenewalOf nostr metadata memory 99 1010 "cheese"
        (candidates nostr metadata memory 99 1010 cheese))
      (sync_group_metadata_events nostr metadata memory 99 1010 cheese (message ∷ [])).1
unfolding cheese croissant.Groups.new_group croissant.Groups.empty_state
sync_group_metadata_events-IsRenewalOf_example =
    sync_group_metadata_events-IsRenewalOf nostr metadata memory 99 1010 cheese (message ∷ [])

-- The relay where "goat" was deleted at the time 1000.
abbrev goat_deleted : DeletedGroup
goat_deleted = record { id = "goat"; deleted_at = 1000; deleted_by = 1 }

abbrev after_deletion : GroupsState Db
unfolding empty_state
after_deletion = record (empty_state creations "wss://relay") {
  deleted_groups = ("goat", goat_deleted) ∷ [];
}

load_deleted_group_state_lem_example :
    ((deleted : DeletedGroup)
      → load after_deletion.deleted_groups "goat" ≡ some deleted
      → (group : Group) × (load_deleted_group_state nostr memory
            (9007 ∷ 9008 ∷ [])
            after_deletion
            "goat"
          ≡ some (group, deleted))
        × (group.id ≡ "goat"))
    × (load after_deletion.deleted_groups "goat" ≡ none
        → load_deleted_group_state nostr memory (9007 ∷ 9008 ∷ []) after_deletion "goat" ≡ none)
    × ((db : Db) (later : List Event) (deleted : DeletedGroup)
        → load after_deletion.deleted_groups "goat" ≡ some deleted
        → All (IsPast deleted.deleted_at) later
        → memory.query_events after_deletion.db
            (moderation_filter nostr memory (9007 ∷ 9008 ∷ []) "goat")
            50000
          ≡ later
            ++ memory.query_events db
                (moderation_filter nostr memory (9007 ∷ 9008 ∷ []) "goat")
                50000
        → load_deleted_group_state nostr memory (9007 ∷ 9008 ∷ []) after_deletion "goat"
          ≡ load_deleted_group_state nostr memory
              (9007 ∷ 9008 ∷ [])
              (record after_deletion { db = db })
              "goat")
    × ((db : Db) (event : Event) (act : Action) (deleted : DeletedGroup) (group : Group)
        → load_deleted_group_state nostr memory
            (9007 ∷ 9008 ∷ [])
            (record after_deletion { db = db })
            "goat"
          ≡ some (group, deleted)
        → IsBefore deleted.deleted_at event
        → nostr.prepare_moderation_action event ≡ prepared act
        → memory.query_events after_deletion.db
            (moderation_filter nostr memory (9007 ∷ 9008 ∷ []) "goat")
            50000
          ≡ event
            ∷ memory.query_events db
                (moderation_filter nostr memory (9007 ∷ 9008 ∷ []) "goat")
                50000
        → load_deleted_group_state nostr memory (9007 ∷ 9008 ∷ []) after_deletion "goat"
          ≡ some (record group { nip = act.apply group.nip }, deleted))
load_deleted_group_state_lem_example =
    load_deleted_group_state_lem nostr memory (9007 ∷ 9008 ∷ []) nostr-ApplyKeepsId after_deletion
      "goat"

new_groups_state_ends_example :
    (s s' : GroupsState Db) × (load_groups_from_db nostr bounded
        (9007 ∷ 9008 ∷ [])
        creations
        "wss://relay"
      ≡ some s)
    × (new_groups_state nostr metadata bounded 99 1010
          (9007 ∷ 9008 ∷ [])
          false
          (λ s. keys s.groups)
          creations
          "wss://relay"
        ≡ some s')
    × WellFormed s'
    × Renewed nostr metadata bounded 99 1010 s s'
    × SyncsEach nostr metadata bounded 99 1010 (9007 ∷ 9008 ∷ []) false (keys s.groups) s s'
    × (false ≡ false → s'.broadcasts ≡ s.broadcasts)
new_groups_state_ends_example =
    new_groups_state_ends nostr metadata bounded 99 1010 (9007 ∷ 9008 ∷ []) nostr-ApplyKeepsId
      (λ db f n no_ids. length-first_of n (memory.query_events db f n)) false (λ s. keys s.groups)
      creations "wss://relay"
