-- ===== src/Process/Moderation.antt =====
-- The moderation actions in process_event.go.
use croissant.Base.{
  ◌+◌, ◌%◌, Option, none, some, List, [], ◌∷◌, String, load, store, delete, append_unique, set,
  ◌==◌, nat_eq, string_eq, if◌then◌else◌,
}
use croissant.Nostr.{NostrLib, EventStore, Event, EventId, FoundTag, Action}
use croissant.Nostr.Kinds
use croissant.Groups.{Group, GroupsState, new_group, update_group}
use croissant.Groups.Tags.{get_group_id_from_event, get_parent_from_event}
use croissant.Groups.Children.{add_parent_child, remove_parent_child}
use croissant.Process.Members.{update_all_members}
use croissant.Process.Phases.{
  Outcome, panics, processed, Phase, returns, goes_on, and_then, note_parent, unsigned, issue,
}

module _ (lib : NostrLib) {Db E : Type 0} (es : EventStore Db E) where
  -- The group with its parent from the event's tags.
  unfoldable pub fresh_group : GroupsState Db → Event → String → Group
  fresh_group s event group_id = elim (get_parent_from_event lib event) [
    | none ↦ new_group s group_id
    | some parent ↦ record (new_group s group_id) { parent = parent }
  ]

  -- if group.Parent != "" { addParentChild … }
  unfoldable pub link_parent : GroupsState Db → Event → String → String → Phase Db
  link_parent s event group_id parent =
      if parent == ""
      then goes_on s []
      else note_parent [] (add_parent_child s parent group_id event.created_at)

  abbrev pub add_creator : Event → String → String → Event
  add_creator event group_id role =
      unsigned event.created_at Kinds.put_user
        (("h" ∷ group_id ∷ []) ∷ ("p" ∷ lib.pubkey_hex event.pub_key ∷ role ∷ []) ∷ [])

  -- group.Roles[0]
  abbrev pub put_creator :
      (GroupsState Db → Event → Outcome Db)
      → Event
      → String
      → List String
      → List String
      → GroupsState Db
      → Phase Db
  put_creator rec event group_id [] affected s = returns panics
  put_creator rec event group_id (role ∷ roles) affected s =
      issue lib es rec (add_creator event group_id role) affected s

  -- A kind:9007 event: the group is stored and linked, and its creator put into it.
  unfoldable pub create :
      (GroupsState Db → Event → Outcome Db) → GroupsState Db → Event → String → Phase Db
  unfolding fresh_group link_parent issue
  create rec s event group_id =
      let group = fresh_group s event group_id in
      let s' = record s {
        groups = store s.groups group_id group;
        deleted_groups = delete s.deleted_groups group_id;
      } in
      and_then (link_parent s' event group_id group.parent)
        λ s affected. put_creator rec event group_id group.roles (append_unique affected group_id) s

  -- The loop over the "e" tags of a kind:9005 event. The cache is an array of 128 ids, so the index
  -- is never out of range.
  unfoldable pub delete_one : GroupsState Db → EventId → Db × Option E → GroupsState Db
  delete_one s id (db, some e) = record s { db = db }
  delete_one s id (db, none) =
      let index = (s.deleted_cache_index + 1) % 0x1_0000_0000 in
      record s {
        db = db;
        deleted_cache = set s.deleted_cache (index % 128) id;
        deleted_cache_index = index;
      }

  unfoldable pub delete_target : GroupsState Db → FoundTag → GroupsState Db
  unfolding delete_one
  delete_target s tag = elim (lib.id_from_hex tag.value) [
    | none ↦ s
    | some id ↦ delete_one s id (es.delete_event s.db id)
  ]

  unfoldable pub delete_targets : List FoundTag → GroupsState Db → GroupsState Db
  unfolding delete_target
  delete_targets [] s = s
  delete_targets (tag ∷ tags) s = delete_targets tags (delete_target s tag)

  -- if group.Parent != "" { removeParentChild … }
  unfoldable pub unlink_parent : GroupsState Db → Event → Group → List String → Phase Db
  unlink_parent s event group affected =
      if group.parent == ""
      then goes_on s affected
      else note_parent affected (remove_parent_child s group.parent group.id event.created_at)

  -- A kind:9008 event: the group leaves the active map, and its deletion is recorded.
  unfoldable pub drop_group : GroupsState Db → Event → Group → List String → Phase Db
  unfolding unlink_parent
  drop_group s event group affected = and_then (unlink_parent s event group affected) λ s affected.
      returns (
        processed
          (record s {
            groups = delete s.groups group.id;
            deleted_groups = store s.deleted_groups group.id (record {
              id = group.id;
              deleted_at = event.created_at;
              deleted_by = event.pub_key;
            });
          })
          affected)

  -- action.Apply(&group.Group), and the counts of AllMembers.
  unfoldable pub apply_action : Action → String → GroupsState Db → GroupsState Db
  apply_action act group_id s = record s {
    groups = update_group s.groups group_id (λ g. record g { nip = act.apply g.nip });
    all_members = update_all_members act.shape s.all_members;
  }

  -- if event.Kind == KindSimpleGroupDeleteEvent { … } else if … DeleteGroup { … }
  unfoldable pub by_kind : Event → String → GroupsState Db → List String → Phase Db
  unfolding delete_targets drop_group
  by_kind event group_id s affected =
      if event.kind == Kinds.delete_event
      then goes_on (delete_targets (lib.find_all event.tags "e") s) affected
      else if event.kind == Kinds.delete_group
      then elim (load s.groups group_id) [
        | none ↦ returns panics
        | some group ↦ drop_group s event group affected
      ]
      else goes_on s affected

  -- The action on the group `group_id`, which is live, and what follows from its kind.
  unfoldable pub act_on : Event → Action → String → GroupsState Db → List String → Phase Db
  unfolding apply_action by_kind
  act_on event act group_id s affected =
      by_kind event group_id (apply_action act group_id s) affected

  -- The branch of a moderation event. Where it creates no group and its group is not live, the nil
  -- group's lock is taken.
  unfoldable pub moderate :
      (GroupsState Db → Event → Outcome Db) → GroupsState Db → Event → Action → Phase Db
  unfolding act_on create
  moderate rec s event act =
      if event.kind == Kinds.create_group
      then elim (get_group_id_from_event lib event) [
        | none ↦ returns (processed s [])
        | some group_id ↦ and_then (create rec s event group_id) (act_on event act group_id)
      ]
      else elim (get_group_id_from_event lib event) [
        | none ↦ returns panics
        | some group_id ↦ elim (load s.groups group_id) [
          | none ↦ returns panics
          | some _ ↦ act_on event act group_id s []
        ]
      ]
