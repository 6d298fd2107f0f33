-- ===== src/Tests/Reading.antt =====
-- Reading the private group "cheese" of Tests/World.antt.
use croissant.Base.{
  true, false, none, some, [], ◌∷◌, String, ◌≡◌, ◌↔◌, ◌⊎◌, refl, All, count, nat_eq, string_eq,
  Bool-cases, eq_of_beq, inl, inr, subst, ◌==◌, ◌≤◌, arith,
}
use croissant.Nostr.{Filter, empty_filter}
use croissant.Nostr.Kinds
use croissant.Verdict.{accept}
use croissant.Groups.{Group, new_group, empty_state}
use croissant.Groups.Tags.{get_group_from_event}
use croissant.Read.{query, reject_request, hide_event_from_reader, authed_are_the_same_as_p_tagged}
use croissant.Read.Visibility.{
  Hides, IsOpen, content_of, hide_event_iff, broad_query-IsOpen, ids_query_unfiltered,
}
use croissant.Read.Requests.{IsGranted, reject_request_iff}
use croissant.Read.Recipients.{IsDistinct, p_tags_are_authed}
use croissant.Tests.World.{nostr, memory, world, cheese, message}

abbrev of_cheese : Filter
of_cheese = record empty_filter { tags = ("h", "cheese" ∷ []) ∷ [] }

abbrev by_id : Filter
by_id = record empty_filter { ids = some (2 ∷ []) }

hide_event_iff_example : (hide_event_from_reader nostr world of_cheese message (2 ∷ []) ≡ true) ↔ (
    (message.kind ≡ Kinds.profile_metadata → ⊥)
    × ((get_group_from_event nostr world message ≡ none)
        ⊎ ((g : Group) × (get_group_from_event nostr world message ≡ some g)
            × Hides of_cheese message (2 ∷ []) g)))
hide_event_iff_example = hide_event_iff nostr world of_cheese message (2 ∷ [])

broad_query-IsOpen_example :
    All (IsOpen nostr world) (query nostr world memory world.db (1 ∷ []) false empty_filter)
unfolding croissant.Read.requested_group_ids
broad_query-IsOpen_example =
    broad_query-IsOpen nostr world memory world.db (1 ∷ []) false empty_filter refl refl

ids_query_unfiltered_example :
    (reject_request nostr world [] by_id ≡ accept)
    × (query nostr world memory (message ∷ []) [] false by_id
        ≡ memory.query_events (message ∷ []) by_id 1500)
unfolding world cheese new_group empty_state get_group_from_event croissant.Read.requested_group_ids
    croissant.Groups.Tags.get_group_id_from_event
ids_query_unfiltered_example =
    ids_query_unfiltered nostr world memory (message ∷ []) false by_id refl refl refl refl
      (content_of cheese refl refl (λ e. cc), tt)

reject_request_iff_example :
    (reject_request nostr world (2 ∷ []) of_cheese ≡ accept)
    ↔ IsGranted nostr world (2 ∷ []) of_cheese
reject_request_iff_example = reject_request_iff nostr world (2 ∷ []) of_cheese

two_keys-IsDistinct : IsDistinct ("a1" ∷ "b2" ∷ [])
two_keys-IsDistinct a = elim (Bool-cases ("a1" == a)) [
  | inl same ↦ subst (λ a. count a ("a1" ∷ "b2" ∷ []) ≤ 1) (eq_of_beq "a1" a same) (omega arith)
  | inr other ↦ ground arith
]

p_tags_are_authed_example :
    (authed_are_the_same_as_p_tagged nostr.pubkey_hex (1 ∷ 2 ∷ []) ("b2" ∷ "a1" ∷ []) ≡ true)
    ↔ ((a : String) → count a ("b2" ∷ "a1" ∷ []) ≡ count a ("a1" ∷ "b2" ∷ []))
p_tags_are_authed_example =
    p_tags_are_authed nostr.pubkey_hex (1 ∷ 2 ∷ []) ("b2" ∷ "a1" ∷ []) two_keys-IsDistinct
