-- ===== src/Relay.antt =====
-- The hooks of relay.go that reach the store: StoreEvent, which undoes the placeholder that rejectEvent
-- stored when the event of a group's creation could not be saved.
pub mod Rollback
use croissant.Base.{
  Bool, true, false, not, ◌&&◌, Option, none, some, String, delete, ◌==◌, nat_eq, string_eq,
  if◌then◌else◌,
}
use croissant.Nostr.{NostrLib, EventStore, Event}
use croissant.Nostr.Kinds
use croissant.Groups.{GroupsState}
use croissant.Groups.Tags.{get_group_id_from_event}

module _ (lib : NostrLib) {Db E : Type 0} (es : EventStore Db E) (is_dup : E → Bool) where
  -- State.Groups.Delete(groupId), where the event names a group.
  unfoldable pub roll_back : GroupsState Db → Option String → GroupsState Db
  roll_back s none = s
  roll_back s (some group_id) = record s { groups = delete s.groups group_id }

  abbrev after_save : Event → GroupsState Db → Option E → GroupsState Db × Option E
  after_save event s none = (s, none)
  after_save event s (some err) =
      if not (is_dup err) && event.kind == Kinds.create_group
      then (roll_back s (get_group_id_from_event lib event), some err)
      else (s, some err)

  -- `is_dup` tells eventstore.ErrDupEvent from other errors.
  unfoldable pub store_event : GroupsState Db → Event → GroupsState Db × Option E
  unfolding roll_back
  store_event s event =
      let (db, err) = es.save_event s.db event in after_save event (record s { db = db }) err
