-- ===== src/Deleted.antt =====
-- LoadDeletedGroupState of group.go: a deleted group as it was, rebuilt from the moderation events in the
-- store. `moderation_kinds` is the library's ModerationEventKinds.
pub mod Snapshot
use croissant.Base.{
  Bool, true, false, not, ◌||◌, Option, none, some, List, [], ◌∷◌, String, load, filter, ltb, ◌==◌,
  nat_eq, string_eq,
}
use croissant.Nostr.{
  NostrLib, EventStore, Event, Filter, Kind, Timestamp, Prepared, prepared, invalid, empty_filter,
}
use croissant.Nostr.Kinds
use croissant.Groups.{Group, GroupsState, DeletedGroup, new_group}

-- Not: event.Kind == KindSimpleGroupDeleteGroup || event.CreatedAt > deletedGroup.DeletedAt
abbrev pub counts_for : Timestamp → Event → Bool
counts_for deleted_at event =
    not (event.kind == Kinds.delete_group || ltb deleted_at event.created_at)

module _ (lib : NostrLib) {Db E : Type 0} (es : EventStore Db E)
    (moderation_kinds : List Kind) where
  abbrev pub apply_one : Prepared → Group → Group
  apply_one (invalid why) group = group
  apply_one (prepared act) group = record group { nip = act.apply group.nip }

  -- for i := len(events) - 1; i >= 0; i--: the last of the list first.
  unfoldable pub apply_events : List Event → Group → Group
  apply_events [] group = group
  apply_events (event ∷ events) group =
      apply_one (lib.prepare_moderation_action event) (apply_events events group)

  abbrev pub moderation_filter : String → Filter
  moderation_filter group_id = record empty_filter {
    kinds = moderation_kinds;
    tags = ("h", group_id ∷ []) ∷ [];
  }

  unfoldable pub load_deleted_group_state : GroupsState Db → String → Option (Group × DeletedGroup)
  unfolding apply_events
  load_deleted_group_state s group_id = elim (load s.deleted_groups group_id) [
    | none ↦ none
    | some deleted ↦
        let events =
          filter (counts_for deleted.deleted_at)
            (es.query_events s.db (moderation_filter group_id) 50000) in
        some (apply_events events (new_group s group_id), deleted)
  ]
