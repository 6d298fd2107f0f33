-- ===== src/Process/Reactions.antt =====
-- What process_event.go does with any event of a live group. `now` is the clock's answer to Now.
use croissant.Base.{
  Option, none, some, List, [], ◌∷◌, String, load, store, has, append_unique, ◌==◌, ◌&&◌, nat_eq,
  string_eq, if◌then◌else◌,
}
use croissant.Nostr.{NostrLib, EventStore, Event, Timestamp, FoundTag}
use croissant.Nostr.Kinds
use croissant.Groups.{Group, GroupsState}
use croissant.Groups.Tags.{get_group_id_from_event}
use croissant.Process.Phases.{
  Outcome, panics, Phase, returns, goes_on, and_then, unsigned, push_last50, issue,
}

module _ (lib : NostrLib) {Db E : Type 0} (es : EventStore Db E) (now : Timestamp) where
  abbrev pub code_value : Option FoundTag → String
  code_value none = ""
  code_value (some t) = t.value

  abbrev pub add_user : Event → String → Event
  add_user event group_id = unsigned now Kinds.put_user (
      ("h" ∷ group_id ∷ [])
      ∷ ("p" ∷ lib.pubkey_hex event.pub_key ∷ [])
      ∷ ("code" ∷ code_value (lib.find event.tags "code") ∷ [])
      ∷ [])

  abbrev pub self_removal : Event → String → Event
  self_removal event group_id = unsigned now Kinds.remove_user (
      ("h" ∷ group_id ∷ [])
      ∷ ("p" ∷ lib.pubkey_hex event.pub_key ∷ [])
      ∷ ("self-removal" ∷ [])
      ∷ [])

  -- React to a join request: it was validated, so the requester is put into the group.
  unfoldable pub join :
      (GroupsState Db → Event → Outcome Db)
      → Event
      → Group
      → GroupsState Db
      → List String
      → Phase Db
  join rec event group s affected =
      if event.kind == Kinds.join_request
      then issue lib es rec (add_user event group.id) affected s
      else goes_on s affected

  -- React to a leave request of a member.
  unfoldable pub leave :
      (GroupsState Db → Event → Outcome Db)
      → Event
      → Group
      → GroupsState Db
      → List String
      → Phase Db
  leave rec event group s affected =
      if event.kind == Kinds.leave_request && has group.members event.pub_key
      then issue lib es rec (self_removal event group.id) affected s
      else goes_on s affected

  -- Add to "previous" for tag checking.
  unfoldable pub remember : Event → String → GroupsState Db → List String → Phase Db
  remember event group_id s affected = elim (load s.groups group_id) [
    | none ↦ goes_on s affected
    | some group ↦ elim (push_last50 group event.id) [
      | none ↦ returns panics
      | some group' ↦ goes_on (record s { groups = store s.groups group_id group' }) affected
    ]
  ]

  -- What every event of a live group is followed by.
  unfoldable pub react :
      (GroupsState Db → Event → Outcome Db) → Event → GroupsState Db → List String → Phase Db
  unfolding join leave remember
  react rec event s affected = elim (get_group_id_from_event lib event) [
    | none ↦ goes_on s affected
    | some group_id ↦ elim (load s.groups group_id) [
      | none ↦ goes_on s affected
      | some group ↦
          and_then (join rec event group s (append_unique affected group_id))
            λ s affected. and_then (leave rec event group s affected) (remember event group_id)
    ]
  ]
