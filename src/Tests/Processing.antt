-- ===== src/Tests/Processing.antt =====
-- Events processed by the relay of Tests/World.antt.
use croissant.Base.{
  ◌+◌, ◌-◌, true, false, some, List, [], ◌∷◌, String, load, count, map, nat_eq, string_eq, ◌==◌,
  ◌≡◌, ◌≢◌, refl, Bool-cases, sym, ap, Entries-store, inl, inr,
}
use croissant.Nostr.{Event, PubKey, PubKeyRoles, Shape, Action, NipGroup, prepared}
use croissant.Groups.{GroupsState, Group, new_group, empty_state}
use croissant.Groups.Children.{add_parent_child, remove_parent_child}
use croissant.Groups.Children.Inverse.{remove_parent_child-add_parent_child}
use croissant.Process.{process_event}
use croissant.Process.Members.{update_all_members}
use croissant.Process.Phases.{out_of_fuel, processed}
use croissant.Process.Fuel.{process_event_ends}
use croissant.Process.Invariant.{process_event-WellFormed}
use croissant.Process.Invariant.Defs.{IsGroupAt, WellFormed, Leads, ApplyKeepsId}
use croissant.Process.Effects.Counts.{members_count, update_all_members-counts}
use croissant.Process.Effects.Deletion.{Dropped, process_event-Dropped}
use croissant.Tests.World.{nostr, memory, world, cheese, event, message, Db}

process_event_ends_example : process_event nostr memory 1010 2 world message ≢ out_of_fuel
process_event_ends_example = process_event_ends nostr memory 1010 0 world message

-- The deletion of "cheese" by key 1.
abbrev deletion : Event
deletion = event 3 9008 1 (("h" ∷ "cheese" ∷ []) ∷ [])

process_event-Dropped_example :
    (s' : GroupsState Db) × (affected : List String) × (process_event nostr memory 1010 2 world
        deletion
      ≡ processed s' affected)
    × Dropped world deletion "cheese" "" s' affected
unfolding world cheese new_group empty_state croissant.Groups.Tags.get_group_id_from_event
process_event-Dropped_example =
    process_event-Dropped nostr memory 1010 1 world deletion refl refl refl refl refl refl

update_all_members-counts_example :
    ((targets : List PubKeyRoles)
      → members_count (update_all_members (Shape.put_user targets) ((1, 2) ∷ [])) 1
        ≡ members_count ((1, 2) ∷ []) 1 + count 1 (map (λ t. t.pub_key) targets))
    × ((targets : List PubKey)
        → members_count (update_all_members (Shape.remove_user targets) ((1, 2) ∷ [])) 1
          ≡ members_count ((1, 2) ∷ []) 1 - count 1 targets)
update_all_members-counts_example = update_all_members-counts ((1, 2) ∷ []) 1

remove_parent_child-add_parent_child_example :
    let (s1, _, added) = add_parent_child world "cheese" "goat" 5 in
    let (s2, _, removed) = remove_parent_child s1 "cheese" "goat" 6 in
    (added ≡ true)
    × (add_parent_child s1 "cheese" "goat" 6 ≡ (s1, some "cheese", false))
    × (removed ≡ true)
    × ((p : Group) × (load s2.groups "cheese" ≡ some p) × (p.children ≡ []))
    × ((j : String) → ("cheese" == j) ≡ false → load s2.groups j ≡ load world.groups j)
unfolding world cheese new_group empty_state
remove_parent_child-add_parent_child_example =
    remove_parent_child-add_parent_child "cheese" "goat" world 5 6 refl refl

-- Both actions of the test library leave the group as it is.
kept :
    (shape : Shape) (act : Action)
    → prepared (record { shape = shape; apply = λ g. g }) ≡ prepared act
    → (g : NipGroup) → (act.apply g).id ≡ g.id
kept shape act e g =
    let same : record { shape = shape; apply = λ g. g } ≡ act = cc e in
    ap (λ a. (a.apply g).id) (sym same)

pub nostr-ApplyKeepsId : ApplyKeepsId nostr
nostr-ApplyKeepsId event act e g = elim (Bool-cases (event.kind == 9007)) [
  | inl creates ↦ kept Shape.create_group act (rw creates at e) g
  | inr other ↦ elim (Bool-cases (event.kind == 9008)) [
    | inl deletes ↦ kept Shape.delete_group act (rw (other, deletes) at e) g
    | inr neither ↦ cc (rw (other, neither) at e)
  ]
]

world-WellFormed : WellFormed world
unfolding world cheese new_group empty_state
world-WellFormed = record {
  groups_ok = Entries-store IsGroupAt [] "cheese" cheese (λ id g e. cc) (refl, refl);
  cache_ok = refl;
  counts_ok = λ pk n e. cc;
}

process_event-WellFormed_example :
    Leads WellFormed (process_event nostr memory 1010 2 world message)
process_event-WellFormed_example =
    process_event-WellFormed nostr memory 1010 nostr-ApplyKeepsId 2 world message world-WellFormed
