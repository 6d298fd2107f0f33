-- ===== src/Process/Invariant.antt =====
-- ProcessEvent of process_event.go keeps the invariant of Invariant/Defs.antt.
pub mod Defs
pub mod States
pub mod Calls
pub mod Moderating
pub mod Reacting
use croissant.Base.{
  zero, append_unique, has, ◌&&◌, Entries, Entries-store, Entries-delete, ℕ, suc, Option, none,
  some, List, [], ◌∷◌, String, Map, load, store, delete, length, length-set, ◌==◌, nat_eq,
  string_eq, ◌≡◌, ◌<◌, refl, arith, Bool-cases, inl, inr, ◌∙◌, Option-cases, leb, contains, erase,
  ◌++◌,
}
use croissant.Nostr.{
  Prepared-cases, NostrLib, EventStore, Event, NipGroup, Action, prepared, Shape, PubKeyRoles,
  PubKey, Timestamp, FoundTag,
}
use croissant.Nostr.Kinds
use croissant.Groups.{Group, GroupsState, new_group, update_group}
use croissant.Groups.Tags.{get_group_id_from_event, get_parent_from_event}
use croissant.Groups.Children.{add_parent_child, remove_parent_child, with_children}
use croissant.Process.Members.{
  count_up, count_down, put_all, remove_all, update_all_members, count_of,
}
use croissant.Process.Phases.{
  Outcome, panics, out_of_fuel, processed, Phase, returns, goes_on, and_then, finish, note_parent,
  issue, issue_saved, push_last50, last_index, after_nested, with_signature,
}
use croissant.Process.Moderation.{
  put_creator, add_creator, create, apply_action, by_kind, delete_targets, delete_target,
  delete_one, drop_group, act_on, moderate, fresh_group, link_parent, unlink_parent,
}
use croissant.Process.Reactions.{add_user, self_removal, join, leave, remember, react}
use croissant.Process.{process_with, process_event}
use croissant.Process.Invariant.Defs.{
  IsGroupAt, GroupsOk, CountsOk, WellFormed, ApplyKeepsId, Leads, Sat, and_then-Sat, finish-Leads,
}
use croissant.Process.Invariant.Moderating.{moderate-WellFormed}
use croissant.Process.Invariant.Reacting.{react-WellFormed}

module _ (lib : NostrLib) {Db E : Type 0} (es : EventStore Db E)
    (rec : GroupsState Db → Event → Outcome Db)
    (keeps : (s : GroupsState Db) (event : Event)
      → WellFormed s
      → Leads WellFormed (rec s event)) where
  process_with-WellFormed :
      ApplyKeepsId lib
      → (now : Timestamp) (event : Event) (s : GroupsState Db) → WellFormed s
      → Leads WellFormed (process_with lib es now rec s event)
  unfolding process_with
  process_with-WellFormed same_id now event s v =
      elim (Prepared-cases (lib.prepare_moderation_action event)) [
        | inl (why, e) ↦
            rw (e, Leads, process_with)
              (finish-Leads WellFormed (react lib es now rec event s [])
                (react-WellFormed lib es rec keeps now event s [] v))
        | inr (act, e) ↦
            rw (e, Leads, process_with)
              (finish-Leads WellFormed _ (
                and_then-Sat WellFormed (moderate lib es rec s event act)
                  (react lib es now rec event)
                  (moderate-WellFormed lib es rec keeps same_id event act s e v)
                  (react-WellFormed lib es rec keeps now event)))
      ]

module _ (lib : NostrLib) {Db E : Type 0} (es : EventStore Db E) (now : Timestamp)
    (same_id : ApplyKeepsId lib) where
  -- From a well-formed state, on any event and with any fuel, ProcessEvent ends in a well-formed state
  -- wherever it ends in one: each group stands under its own id with a ring of 50 recent ids, the ring of
  -- deleted ids has 128, and every count of AllMembers is positive. It is assumed that the library's
  -- actions keep a group's id.
  pub process_event-WellFormed :
      (fuel : ℕ) (s : GroupsState Db) (event : Event)
      → WellFormed s
      → Leads WellFormed (process_event lib es now fuel s event)
  unfolding process_event
  process_event-WellFormed zero s event v = tt
  process_event-WellFormed (suc fuel) s event v =
      process_with-WellFormed lib es (process_event lib es now fuel)
        (λ s event. process_event-WellFormed fuel s event) same_id now event s v
