-- ===== src/Groups/Tags.antt =====
-- The readings of an event's tags in group.go.
use croissant.Base.{Option, none, some, String, load, ◌==◌, string_eq, if◌then◌else◌}
use croissant.Nostr.{Event, NostrLib, FoundTag}
use croissant.Groups.{Group, GroupsState}

abbrev pub value_of : Option FoundTag → Option String
value_of none = none
value_of (some t) = some t.value

module _ (lib : NostrLib) where
  unfoldable pub get_group_id_from_event : Event → Option String
  get_group_id_from_event event =
      if lib.is_metadata_kind event.kind
      then value_of (lib.find event.tags "d")
      else value_of (lib.find event.tags "h")

  abbrev nonempty : Option FoundTag → Option String
  nonempty none = none
  nonempty (some t) = if t.value == "" then none else some t.value

  -- The check len(t) >= 2 holds of every tag that Find returns.
  unfoldable pub get_parent_from_event : Event → Option String
  get_parent_from_event event = nonempty (lib.find event.tags "parent")

  abbrev find_group : {Db : Type 0} → GroupsState Db → Option String → Option Group
  find_group s none = none
  find_group s (some gid) = load s.groups gid

  unfoldable pub get_group_from_event : {Db : Type 0} → GroupsState Db → Event → Option Group
  get_group_from_event s event = find_group s (get_group_id_from_event event)
