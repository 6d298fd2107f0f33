-- ===== src/Startup.antt =====
-- loadGroupsFromDB of group.go, which NewGroupsState of state.go starts from: the groups, rebuilt from
-- the moderation events in the store. `moderation_kinds` is the library's ModerationEventKinds. A none
-- is a panic: more than 50 events from the store for a limit of 50.
pub mod Established
use croissant.Base.{
  ℕ, zero, suc, Bool, Option, none, some, List, [], ◌∷◌, String, Map, load, store, delete, set,
  keys, ◌==◌, nat_eq, string_eq, if◌then◌else◌,
}
use croissant.Nostr.{
  NostrLib, EventStore, Event, EventId, Kind, Filter, NipGroup, PubKey, Action, Prepared, prepared,
  invalid, empty_filter,
}
use croissant.Nostr.Kinds
use croissant.Groups.{Group, GroupsState, empty_state}
use croissant.Groups.Tags.{get_group_id_from_event}
use croissant.Groups.Children.{add_parent_child}
use croissant.Process.Members.{update_all_members}
use croissant.Process.Moderation.{fresh_group}

-- The scan of a group's moderation events: its deletion, if it meets one, or all of them.
pub data Scan : Type 0 where
  deleted_by_event : Event → Scan
  all_events : List Event → Scan

abbrev and_event : Event → Scan → Scan
and_event evt (deleted_by_event deletion) = deleted_by_event deletion
and_event evt (all_events evts) = all_events (evt ∷ evts)

abbrev pub scan : List Event → Scan
scan [] = all_events []
scan (evt ∷ evts) =
    let rest = scan evts in
    if evt.kind == Kinds.delete_group then deleted_by_event evt else and_event evt rest

-- i := 49; … group.last50[i] = evt.ID; i-- with one more than i as the number.
abbrev pub fill_last50 : ℕ → List Event → List EventId → Option (List EventId)
fill_last50 n [] last50 = some last50
fill_last50 zero (evt ∷ evts) last50 = none
fill_last50 (suc i) (evt ∷ evts) last50 = fill_last50 i evts (set last50 i evt.id)

module _ (lib : NostrLib) {Db E : Type 0} (es : EventStore Db E)
    (moderation_kinds : List Kind) where
  abbrev pub apply_prepared : Prepared → Group × Map PubKey ℕ → Group × Map PubKey ℕ
  apply_prepared (invalid why) (group, counts) = (group, counts)
  apply_prepared (prepared act) (group, counts) =
      (record group { nip = act.apply group.nip }, update_all_members act.shape counts)

  -- for i := len(events) - 1; i >= 0; i--: the last of the list first.
  unfoldable pub replay : List Event → Group × Map PubKey ℕ → Group × Map PubKey ℕ
  replay [] start = start
  replay (evt ∷ evts) start = apply_prepared (lib.prepare_moderation_action evt) (replay evts start)

  abbrev pub of_group : List Kind → String → Filter
  of_group kinds group_id = record empty_filter { kinds = kinds; tags = ("h", group_id ∷ []) ∷ [] }

  -- The group is stored under its own id.
  abbrev pub put_loaded :
      GroupsState Db → Group × Map PubKey ℕ → Option (List EventId) → Option (GroupsState Db)
  put_loaded s (group, counts) none = none
  put_loaded s (group, counts) (some last50) = some (record s {
    groups = store s.groups group.id (record group { last50 = last50 });
    all_members = counts;
    deleted_groups = delete s.deleted_groups group.id;
  })

  abbrev pub load_scanned : GroupsState Db → Event → String → Scan → Option (GroupsState Db)
  load_scanned s evt group_id (deleted_by_event event) = some (record s {
    deleted_groups =
        store s.deleted_groups group_id
          (record { id = group_id; deleted_at = event.created_at; deleted_by = event.pub_key });
  })
  load_scanned s evt group_id (all_events events) =
      let loaded = replay events (fresh_group lib es s evt group_id, s.all_members) in
      put_loaded s loaded
        (fill_last50 50 (es.query_events s.db (of_group [] group_id) 50) loaded.0.last50)

  -- One event of a creation.
  unfoldable pub load_one : GroupsState Db → Event → Option (GroupsState Db)
  unfolding replay
  load_one s evt = elim (get_group_id_from_event lib evt) [
    | none ↦ some s
    | some group_id ↦
        load_scanned s evt group_id
          (scan (es.query_events s.db (of_group moderation_kinds group_id) 50000))
  ]

  unfoldable pub load_each : List Event → GroupsState Db → Option (GroupsState Db)
  unfolding load_one
  load_each [] s = some s
  load_each (evt ∷ evts) s = elim (load_one s evt) [ none ↦ none | some s' ↦ load_each evts s' ]

  -- The parent's list of children, rebuilt from one child.
  abbrev pub link_child : GroupsState Db → Option Group → GroupsState Db
  link_child s none = s
  link_child s (some child) =
      if child.parent == ""
      then s
      else (add_parent_child s child.parent child.id child.last_metadata_update).0

  unfoldable pub link_children : List String → GroupsState Db → GroupsState Db
  link_children [] s = s
  link_children (id ∷ ids) s = link_children ids (link_child s (load s.groups id))

  abbrev pub linked : Option (GroupsState Db) → Option (GroupsState Db)
  linked none = none
  linked (some s) = some (link_children (keys s.groups) s)

  -- NewGroupsState, up to the renewal of the metadata events.
  unfoldable pub load_groups_from_db : Db → String → Option (GroupsState Db)
  unfolding load_each link_children
  load_groups_from_db db relay_url = linked (
      load_each
        (es.query_events db (record empty_filter { kinds = Kinds.create_group ∷ [] }) 500000)
        (empty_state db relay_url))
