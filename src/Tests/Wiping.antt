-- ===== src/Tests/Wiping.antt =====
-- The owner, key 98, wipes the group "cheese" of Tests/World.antt.
use croissant.Base.{true, some, [], ◌∷◌, load, ◌≡◌, ◌≢◌, nat_eq, string_eq}
use croissant.Groups.{Group}
use croissant.Wipe.{wipe_group_handler, is_owner, redirected, delete_group_events}
use croissant.Wipe.Events.{GroupDeleted, delete_group_events-GroupDeleted}
use croissant.Wipe.Gate.{Wiped, wipe_group_handler-Wiped}
use croissant.Tests.World.{memory, message, world}

wipe_group_handler-Wiped_example :
    let (s', response) = wipe_group_handler memory 98 world (some 98) "cheese" in
    (response ≡ redirected
      → (is_owner memory 98 (some 98) ≡ true)
        × ((group : Group) × (load world.groups "cheese" ≡ some group)
            × Wiped memory 98 world "cheese" group s'))
    × (is_owner memory 98 (some 98) ≡ true
        → (group : Group) → load world.groups "cheese" ≡ some group
        → response ≡ redirected)
    × (response ≢ redirected → s' ≡ world)
wipe_group_handler-Wiped_example = wipe_group_handler-Wiped memory 98 world (some 98) "cheese"

delete_group_events-GroupDeleted_example :
    let (deleted, db') = delete_group_events memory 98 (message ∷ message ∷ []) "cheese" in
    GroupDeleted memory 98 (message ∷ message ∷ []) "cheese" deleted db'
delete_group_events-GroupDeleted_example =
    delete_group_events-GroupDeleted memory 98 (message ∷ message ∷ []) "cheese"
