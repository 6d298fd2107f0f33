-- ===== src/Process.antt =====
-- ProcessEvent of process_event.go: what a stored event does to the state.
pub mod Members
pub mod Phases
pub mod Moderation
pub mod Reactions
pub mod Effects
pub mod Fuel
pub mod Invariant
use croissant.Base.{
  ℕ, zero, suc, ◌+◌, ◌-◌, ◌%◌, Bool, true, false, Option, none, some, List, [], ◌∷◌, ◌++◌, String,
  Map, load, store, delete, has, append_unique, set, ltb, ◌==◌, ◌&&◌, nat_eq, string_eq,
  if◌then◌else◌,
}
use croissant.Nostr.{
  NostrLib, EventStore, Event, EventId, Tag, Timestamp, FoundTag, Signed, Shape, Action, Prepared,
  prepared, invalid,
}
use croissant.Nostr.Kinds
use croissant.Groups.{Group, GroupsState, DeletedGroup, new_group, update_group}
use croissant.Groups.Tags.{
  get_group_id_from_event, get_parent_from_event, get_group_from_event, value_of,
}
use croissant.Groups.Children.{add_parent_child, remove_parent_child}
use croissant.Process.Phases.{
  Outcome, panics, out_of_fuel, processed, Phase, returns, goes_on, and_then, finish, note_parent,
  unsigned, push_last50, issue,
}
use croissant.Process.Moderation.{moderate}
use croissant.Process.Reactions.{react}

module _ (lib : NostrLib) {Db E : Type 0} (es : EventStore Db E) (now : Timestamp) where
  -- ProcessEvent, over the function that its recursive calls go to.
  unfoldable pub process_with :
      (GroupsState Db → Event → Outcome Db) → GroupsState Db → Event → Outcome Db
  unfolding moderate react
  process_with rec s event = finish (
      and_then
        (elim (lib.prepare_moderation_action event) [
          | invalid _ ↦ goes_on s []
          | prepared act ↦ moderate lib es rec s event act
        ])
        (react lib es now rec event))

  -- The fuel bounds the depth of the recursion.
  unfoldable pub process_event : ℕ → GroupsState Db → Event → Outcome Db
  unfolding process_with
  process_event zero s event = out_of_fuel
  process_event (suc fuel) s event = process_with (process_event fuel) s event
