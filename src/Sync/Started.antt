-- ===== src/Sync/Started.antt =====
-- NewGroupsState of state.go with the end of loadGroupsFromDB in group.go: the groups are loaded, and the
-- metadata events of each are renewed; they are broadcast where there is a relay, which run in main.go
-- makes only later. `order` is the order in which the range over the groups yields their ids.
use croissant.Base.{Bool, Option, none, some, List, [], ◌∷◌, String, load, string_eq, if◌then◌else◌}
use croissant.Nostr.{NostrLib, EventStore, Event, Kind, PubKey, Timestamp}
use croissant.Groups.{GroupsState}
use croissant.Startup.{load_groups_from_db}
use croissant.Sync.{MetadataLib, sync_group_metadata_events}
use croissant.Sync.Saved.{broadcast_all}

module _ (lib : NostrLib) (meta : MetadataLib) {Db E : Type 0} (es : EventStore Db E)
    (relay_key : PubKey) (now : Timestamp) (moderation_kinds : List Kind) (has_relay : Bool) where
  abbrev pub renewed : GroupsState Db → Db × List Event → GroupsState Db
  renewed s (db, yielded) = record s {
    db = db;
    broadcasts =
        if has_relay
        then broadcast_all lib meta es relay_key now yielded s.broadcasts
        else s.broadcasts;
  }

  unfoldable pub sync_all : List String → GroupsState Db → GroupsState Db
  unfolding sync_group_metadata_events
  sync_all [] s = s
  sync_all (group_id ∷ more) s = elim (load s.groups group_id) [
    | none ↦ sync_all more s
    | some group ↦
        sync_all more (renewed s (sync_group_metadata_events lib meta es relay_key now group s.db))
  ]

  unfoldable pub new_groups_state :
      (GroupsState Db → List String) → Db → String → Option (GroupsState Db)
  unfolding sync_all load_groups_from_db
  new_groups_state order db relay_url =
      elim (load_groups_from_db lib es moderation_kinds db relay_url) [
        | none ↦ none
        | some s ↦ some (sync_all (order s) s)
      ]
