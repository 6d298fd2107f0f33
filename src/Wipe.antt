-- ===== src/Wipe.antt =====
-- wipe.go: the owner removes a group and its events. `logged` is the answer of GetLoggedUser. The events
-- that a query yields are those of the store when it began, also while they are deleted.
pub mod Events
pub mod Gate
use croissant.Base.{
  Bool, true, false, Option, none, some, List, [], ◌∷◌, String, load, delete, keys, contains, ◌==◌,
  nat_eq, string_eq, if◌then◌else◌,
}
use croissant.Nostr.{EventStore, Event, EventId, Filter, PubKey, empty_filter}
use croissant.Groups.{Group, GroupsState}
use croissant.Process.Members.{remove_all}

pub data Response : Type 0 where
  unauthorized not_found redirected : Response

abbrev pub tagged : String → String → Filter
tagged key group_id = record empty_filter { tags = (key, group_id ∷ []) ∷ [] }

module _ {Db E : Type 0} (es : EventStore Db E) (owner : PubKey) where
  -- deleteEvent: an id that was seen is skipped, and an error of the store only logged.
  abbrev pub delete_unseen : List EventId × Db → Event → List EventId × Db
  delete_unseen (deleted, db) evt =
      if contains deleted evt.id
      then (deleted, db)
      else (evt.id ∷ deleted, (es.delete_event db evt.id).0)

  unfoldable pub delete_events : List Event → List EventId × Db → List EventId × Db
  delete_events [] r = r
  delete_events (evt ∷ evts) r = delete_events evts (delete_unseen r evt)

  abbrev found : Db → String → String → List Event
  found db key group_id = es.query_events db (tagged key group_id) 10000000

  unfoldable pub delete_group_events : Db → String → List EventId × Db
  unfolding delete_events
  delete_group_events db group_id =
      let (deleted, db') = delete_events (found db "h" group_id) ([], db) in
      delete_events (found db' "d" group_id) (deleted, db')

  -- The counts go down for each member, the group leaves the map.
  unfoldable pub wipe : GroupsState Db → String → Group → GroupsState Db
  unfolding delete_group_events remove_all
  wipe s group_id group = record s {
    db = (delete_group_events s.db group_id).1;
    all_members = remove_all (keys group.members) s.all_members;
    groups = delete s.groups group_id;
  }

  abbrev pub is_owner : Option PubKey → Bool
  is_owner none = false
  is_owner (some pk) = pk == owner

  unfoldable pub wipe_group_handler :
      GroupsState Db → Option PubKey → String → GroupsState Db × Response
  unfolding wipe
  wipe_group_handler s logged group_id =
      if is_owner logged
      then elim (load s.groups group_id) [
        | none ↦ (s, not_found)
        | some group ↦ (wipe s group_id group, redirected)
      ]
      else (s, unauthorized)
