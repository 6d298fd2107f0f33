-- ===== src/Sync/Saved.antt =====
-- handleEventSaved of state.go: an event that was saved is processed, and the metadata events of the
-- groups that it affected are renewed and broadcast.
use croissant.Base.{ℕ, none, some, List, [], ◌∷◌, String, load, string_eq}
use croissant.Nostr.{NostrLib, EventStore, Event, PubKey, Timestamp}
use croissant.Groups.{GroupsState}
use croissant.Process.Phases.{Outcome, panics, out_of_fuel, processed}
use croissant.Process.{process_event}
use croissant.Sync.{MetadataLib, sync_group_metadata_events}

-- `detached` is an affected group that has left the map: its pointer is not followed here.
pub data Saved (Db : Type 0) : Type 0 where
  stopped : Saved Db
  starved : Saved Db
  detached : Saved Db
  saved : GroupsState Db → Saved Db

module _ (lib : NostrLib) (meta : MetadataLib) {Db E : Type 0} (es : EventStore Db E)
    (relay_key : PubKey) (now : Timestamp) where
  abbrev pub broadcast_all : List Event → List Event → List Event
  broadcast_all [] broadcasts = broadcasts
  broadcast_all (updated ∷ more) broadcasts = broadcast_all more (updated ∷ broadcasts)

  abbrev pub synced : GroupsState Db → Db × List Event → GroupsState Db
  synced s (db, yielded) = record s { db = db; broadcasts = broadcast_all yielded s.broadcasts }

  unfoldable pub sync_affected : List String → GroupsState Db → Saved Db
  unfolding sync_group_metadata_events
  sync_affected [] s = saved s
  sync_affected (group_id ∷ more) s = elim (load s.groups group_id) [
    | none ↦ detached
    | some group ↦
        sync_affected more
          (synced s (sync_group_metadata_events lib meta es relay_key now group s.db))
  ]

  abbrev pub after_event : Outcome Db → Saved Db
  after_event panics = stopped
  after_event out_of_fuel = starved
  after_event (processed s affected) = sync_affected affected s

  unfoldable pub handle_event_saved : ℕ → GroupsState Db → Event → Saved Db
  unfolding sync_affected process_event
  handle_event_saved fuel s event = after_event (process_event lib es now fuel s event)
