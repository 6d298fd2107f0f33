-- ===== src/Tests/Writing.antt =====
-- Events published to the group "cheese" of Tests/World.antt.
use croissant.Base.{
  ℕ, Bool, true, false, none, some, List, [], ◌∷◌, String, ◌≡◌, ◌↔◌, ◌⊎◌, refl, nat_eq, string_eq,
  load, store, is_empty, ◌==◌, Bool-cases, eq_of_beq, inl, inr, subst,
}
use croissant.Nostr.{EventStore, Event, FoundTag}
use croissant.Verdict.{accept}
use croissant.Groups.{Group, GroupsState, new_group, empty_state}
use croissant.Groups.Hierarchy.{Ends, gone, root, would_create_cycle, create_keeps_Ends}
use croissant.Groups.Tags.{get_parent_from_event}
use croissant.Process.Moderation.{fresh_group}
use croissant.Write.{
  check_supported_kinds, reject_event, reject_for_group, reject_in_group, reject_create,
  check_content, check_parent, is_recent, check_previous,
}
use croissant.Write.Presence.{has_presence}
use croissant.Write.GiftWraps.{
  AllKeys, SenderPasses, caches_after, reject_gift_wrap_event_iff, reject_gift_wrap_event,
  check_recipients,
}
use croissant.Write.Moderation.{roles_of, has_primary_role, check_delete, targets_of}
use croissant.Write.Checks.{check_delete_iff, NoAdmins}
use croissant.Write.Access.{IsOrdinary, accepted_delete_by_admin}
use croissant.Write.Creation.{ParentOk, placed, accepted_creation}
use croissant.Relay.{store_event}
use croissant.Relay.Rollback.{failed_creation_rolled_back}
use croissant.Tests.World.{Db, nostr, memory, cache, empty_caches, settings, event, world, cheese}

-- Every key has a profile on the relays of the settings, and nothing limits creations.
abbrev everyone : List String → ℕ → Bool
everyone relays pk = true

abbrev one_profile : List String → ℕ → Bool
one_profile relays pk = pk == 1

-- The relay where key 1 deletes the group.
abbrev deletion : Event
deletion = event 3 9008 1 (("h" ∷ "cheese" ∷ []) ∷ [])

deletion-IsOrdinary : IsOrdinary nostr memory cache settings everyone none 1010 deletion
deletion-IsOrdinary = record {
  not_relay = refl;
  not_wrap = refl;
  not_profile = refl;
  not_create = refl;
  not_join = refl;
  not_owner_deletes = refl;
}

accepted_delete_by_admin_example :
    (group : Group) × (htag : FoundTag) × (nostr.find deletion.tags "h" ≡ some htag)
    × (load world.groups htag.value ≡ some group)
    × (has_primary_role (roles_of group deletion.pub_key) ≡ true)
unfolding world cheese new_group empty_state reject_event croissant.Write.Moderation.check_prepared
    croissant.Write.check_supported_kinds
accepted_delete_by_admin_example =
    accepted_delete_by_admin nostr memory cache settings everyone none 1010 world none deletion
      empty_caches deletion-IsOrdinary refl refl refl refl

-- Key 1 creates a group under "cheese".
abbrev creation : Event
creation = event 4 9007 1 (("h" ∷ "goat" ∷ []) ∷ ("parent" ∷ "cheese" ∷ []) ∷ [])

accepted_creation_example :
    (htag : FoundTag) × (nostr.find creation.tags "h" ≡ some htag)
    × (load world.groups htag.value ≡ none)
    × ParentOk nostr memory cache settings everyone none 1010 world creation htag.value
    × ((reject_event nostr memory cache settings everyone none 1010 world none creation
          empty_caches).2
        ≡ placed nostr memory cache settings everyone none 1010 world htag.value)
    × (((id : String) → Ends world.groups id)
        → (id : String)
        → Ends
            (store
              (reject_event nostr memory cache settings everyone none 1010 world none creation
                empty_caches).2.groups
              htag.value
              (fresh_group nostr memory
                (reject_event nostr memory cache settings everyone none 1010 world none creation
                  empty_caches).2
                creation
                htag.value))
            id)
unfolding world cheese new_group empty_state reject_event get_parent_from_event would_create_cycle
    croissant.Groups.Hierarchy.cycle_loop has_presence
accepted_creation_example =
    accepted_creation nostr memory cache settings everyone none 1010 world none creation
      empty_caches refl refl refl

-- "cheese" and "goat" with their chains of parents.
abbrev goat : Group
goat = record cheese { parent = "cheese" }

cheese-Ends : (id : String) → Ends world.groups id
unfolding world cheese new_group empty_state
cheese-Ends id = elim (Bool-cases ("cheese" == id)) [
  | inl same ↦
      subst (Ends world.groups) (eq_of_beq "cheese" id same) (root "cheese" cheese refl refl)
  | inr other ↦ gone id (rw other refl)
]

check_delete_iff_example : (check_delete memory world.db cheese false (2 ∷ []) ≡ accept) ↔ (
    (is_empty (targets_of memory world.db (2 ∷ [])) ≡ false)
    × ((false ≡ true) ⊎ NoAdmins memory world.db cheese (targets_of memory world.db (2 ∷ []))))
check_delete_iff_example = check_delete_iff memory world.db cheese false (2 ∷ [])

-- A gift-wrap from key 1 to key 2.
abbrev wrap : Event
wrap = event 5 1059 3 (("p" ∷ "b2" ∷ []) ∷ [])

-- Key 2 has no profile, its sender has one.
reject_gift_wrap_event_iff_example :
    let looked_up =
      check_recipients nostr cache settings one_profile
        (nostr.find_all wrap.tags "p")
        false
        empty_caches in
    ((reject_gift_wrap_event nostr cache settings one_profile (some 1) wrap empty_caches).0
      ≡ accept)
    ↔ ((settings.gift_wraps_enabled ≡ true)
        × AllKeys nostr cache settings one_profile (nostr.find_all wrap.tags "p")
        × SenderPasses nostr cache settings one_profile
            (some 1)
            (caches_after nostr cache settings one_profile looked_up))
reject_gift_wrap_event_iff_example =
    reject_gift_wrap_event_iff nostr cache settings one_profile (some 1) wrap empty_caches

-- A store that saves nothing.
abbrev full_disk : EventStore Db ℕ
full_disk = record memory { save_event = λ db e. (db, some 7) }

failed_creation_rolled_back_example :
    let d =
      reject_event nostr full_disk cache settings everyone none 1010 world none creation
        empty_caches in
    let r = store_event nostr full_disk (λ err. err == 1) d.2 creation in
    (r.1 ≡ some 7) × ((id : String) → load r.0.groups id ≡ load world.groups id)
unfolding world cheese new_group empty_state reject_event get_parent_from_event would_create_cycle
    croissant.Groups.Hierarchy.cycle_loop has_presence
failed_creation_rolled_back_example =
    failed_creation_rolled_back nostr full_disk cache settings everyone none 1010 (λ err. err == 1)
      world none creation empty_caches refl refl refl refl refl refl
