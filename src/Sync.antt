-- ===== src/Sync.antt =====
-- SyncGroupMetadataEvents of group.go and handleEventSaved of state.go: the metadata events of a group,
-- renewed in the store and broadcast. Both callers of the iteration let it run to its end.
pub mod Freshness
pub mod Saved
pub mod Broadcast
pub mod Started
pub mod Complete
use Prim.Native.String.{compare as compare_text}
use Prim.Native.Nat.{Ordering}
use croissant.Base.{
  ℕ, suc, ◌+◌, Bool, true, false, Option, none, some, List, [], ◌∷◌, ◌++◌, String, map, load, ltb,
  ◌==◌, string_eq, if◌then◌else◌,
}
use croissant.Nostr.{
  NipGroup, NostrLib, EventStore, Event, Filter, PubKey, Tag, Timestamp, empty_filter, zero_id,
}
use croissant.Groups.{Group, GroupsState}
use croissant.Process.Phases.{Outcome, panics, out_of_fuel, processed, with_signature}

-- What the library makes of a group, unsigned, and its comparison of tags.
pub record MetadataLib : Type 0 where
  pub to_metadata_event : NipGroup → Event
  pub to_admins_event : NipGroup → Event
  pub to_members_event : NipGroup → Event
  pub to_roles_event : NipGroup → Event
  pub tags_eq : List Tag → List Tag → Bool

-- slices.Sort
abbrev text_le : String → String → Bool
text_le a b = elim (compare_text a b) [ Ordering.gt ↦ false | _ ↦ true ]

abbrev insert : String → List String → List String
insert x [] = x ∷ []
insert x (y ∷ ys) = let rest = insert x ys in if text_le x y then x ∷ y ∷ ys else y ∷ rest

abbrev sort : List String → List String
sort [] = []
sort (x ∷ xs) = insert x (sort xs)

-- nostr.Event{}
abbrev pub no_event : Event
no_event = record { id = zero_id; pub_key = 0; created_at = 0; kind = 0; tags = []; content = "" }

-- for existing := range … { current = existing }
abbrev last_or : Event → List Event → Event
last_or current [] = current
last_or current (existing ∷ more) = last_or existing more

module _ (lib : NostrLib) (meta : MetadataLib) {Db E : Type 0} (es : EventStore Db E)
    (relay_key : PubKey) (now : Timestamp) where
  abbrev parent_tag : String → List Tag
  parent_tag parent = if parent == "" then [] else ("parent" ∷ parent ∷ []) ∷ []

  abbrev with_links : Group → Event → Event
  with_links group metadata = record metadata {
    tags =
        (metadata.tags ++ parent_tag group.parent)
        ++ map (λ child. "child" ∷ child ∷ []) (sort group.children);
  }

  unfoldable pub candidates : Group → List Event
  candidates group =
      with_links group (meta.to_metadata_event group.nip)
      ∷ meta.to_admins_event group.nip
      ∷ meta.to_members_event group.nip
      ∷ meta.to_roles_event group.nip
      ∷ []

  abbrev pub stored_filter : String → Event → Filter
  stored_filter group_id updated = record empty_filter {
    kinds = updated.kind ∷ [];
    authors = relay_key ∷ [];
    tags = ("d", group_id ∷ []) ∷ [];
  }

  abbrev pub current_event : Db → String → Event → Event
  current_event db group_id updated =
      last_or no_event (es.query_events db (stored_filter group_id updated) 1)

  -- if current.CreatedAt >= updated.CreatedAt { updated.CreatedAt = current.CreatedAt + 1 }
  abbrev pub bump : Event → Event → Event
  bump current updated =
      if ltb current.created_at updated.created_at
      then updated
      else record updated { created_at = suc current.created_at }

  -- updated.Sign(s.secretKey); an error leaves the event as it is.
  abbrev pub sign_or_keep : Event → Event
  sign_or_keep event = elim (lib.sign event) [
    | none ↦ event
    | some signed ↦ with_signature event signed
  ]

  abbrev replaced : Event → Db × (List Event × Option E) → Db × List Event
  replaced updated (db, (old, some err)) = (db, [])
  replaced updated (db, (old, none)) =
      if ltb now (updated.created_at + 180) then (db, updated ∷ []) else (db, [])

  -- The body of the loop: the store after it, and what it yields.
  unfoldable pub sync_one : String → Db → Event → Db × List Event
  sync_one group_id db updated =
      let current = current_event db group_id updated in
      let renewed = sign_or_keep (bump current updated) in
      if meta.tags_eq current.tags updated.tags
      then (db, [])
      else replaced renewed (es.replace_event db renewed)

  unfoldable pub sync_each : String → List Event → Db → Db × List Event
  unfolding sync_one
  sync_each group_id [] db = (db, [])
  sync_each group_id (updated ∷ more) db =
      let (db', yielded) = sync_one group_id db updated in
      let (db'', others) = sync_each group_id more db' in (db'', yielded ++ others)

  unfoldable pub sync_group_metadata_events : Group → Db → Db × List Event
  unfolding candidates sync_each
  sync_group_metadata_events group db = sync_each group.id (candidates group) db
