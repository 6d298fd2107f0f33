-- ===== src/Write/Creation.antt =====
-- What rejectEvent of reject_event.go guarantees of a kind:9007 event that it lets through, and what
-- process_event.go then stores.
use croissant.Base.{
  true, false, ◌&&◌, Option, none, some, String, load, store, ltb, ◌+◌, ◌==◌, nat_eq, string_eq,
  ◌≡◌, arith, refl, Option-cases, Bool-cases, inl, inr, ◌∙◌,
}
use croissant.Nostr.{NostrLib, EventStore, Event, PubKey, FoundTag, Timestamp}
use croissant.Nostr.Kinds
use croissant.Verdict.{Verdict, accept, reject, Verdict-cases}
use croissant.Groups.{Group, GroupsState, new_group}
use croissant.Groups.Tags.{get_parent_from_event}
use croissant.Groups.Hierarchy.{
  would_create_cycle, would_create_cycle-store, Ends, create_keeps_Ends, root_keeps_Ends,
}
use croissant.Process.Moderation.{fresh_group}
use croissant.Write.Presence.{Settings, Lru, Caches, Pool}
use croissant.Write.Moderation.{roles_of, has_primary_role}
use croissant.Write.{
  check_parent, reject_create, reject_for_group, reject_event, after_presence, limited,
}

module _ (lib : NostrLib) {Db E C : Type 0} (es : EventStore Db E) (lru : Lru C)
    (settings : Settings) (pool : Pool) (limiter : Option (Event → Verdict)) (now : Timestamp) where
  -- The parent that the event declares is live, the creator is an admin of it, and the link closes no
  -- cycle.
  abbrev pub ParentOk : GroupsState Db → Event → String → Type 0
  ParentOk s event group_id =
      (parent_id : String)
      → get_parent_from_event lib event ≡ some parent_id
      → (parent : Group) × (load s.groups parent_id ≡ some parent)
        × (has_primary_role (roles_of parent event.pub_key) ≡ true)
        × (would_create_cycle s group_id parent_id ≡ false)

  -- The state with the placeholder that rejectEvent stores.
  abbrev pub placed : GroupsState Db → String → GroupsState Db
  placed s group_id = record s { groups = store s.groups group_id (new_group s group_id) }

  fresh_parent :
      (s : GroupsState Db) (event : Event) (group_id parent_id : String)
      → get_parent_from_event lib event ≡ some parent_id
      → (fresh_group lib es s event group_id).parent ≡ parent_id
  unfolding fresh_group
  fresh_parent s event group_id parent_id e = rw (e, fresh_group) refl

  declared :
      (s : GroupsState Db) (event : Event) (group_id parent_id : String)
      → check_parent lib es lru settings pool limiter now s event group_id (some parent_id) ≡ accept
      → (parent : Group) × (load s.groups parent_id ≡ some parent)
        × (has_primary_role (roles_of parent event.pub_key) ≡ true)
        × (would_create_cycle s group_id parent_id ≡ false)
  unfolding check_parent
  declared s event group_id parent_id h = elim (Option-cases (load s.groups parent_id)) [
    | inl missing ↦ cc (rw (missing, check_parent) at h)
    | inr (parent, found) ↦
        let checked = rw (found, check_parent) at h in
        (parent, found, ground (arith, checked), ground (arith, checked))
  ]

  through :
      (s : GroupsState Db) (event : Event) (group_id : String) (r : Verdict × Caches C)
      → (after_presence lib es lru settings pool limiter now s event group_id r).0 ≡ accept
      → ParentOk s event group_id
        × ((after_presence lib es lru settings pool limiter now s event group_id r).2
            ≡ placed s group_id)
  through s event group_id (reject msg, caches) h = cc
  through s event group_id (accept, caches) h =
      let parent = get_parent_from_event lib event in
      elim (Verdict-cases
        (check_parent lib es lru settings pool limiter now s event group_id parent)) [
          | inl ok ↦ (
            λ parent_id e. declared s event group_id parent_id (rw e at ok),
            rw (ok, after_presence) refl,
          )
          | inr (msg, no_way) ↦ cc (rw (no_way, after_presence) at h)
        ]

  create_through :
      (s : GroupsState Db) (event : Event) (group_id : String) (caches : Caches C)
      → (reject_create lib es lru settings pool limiter now s event group_id caches).0 ≡ accept
      → (load s.groups group_id ≡ none)
        × ParentOk s event group_id
        × ((reject_create lib es lru settings pool limiter now s event group_id caches).2
            ≡ placed s group_id)
  unfolding reject_create
  create_through s event group_id caches h = elim (Option-cases (load s.groups group_id)) [
    | inr (g, taken) ↦ cc (rw (taken, reject_create) at h)
    | inl free ↦ elim (Verdict-cases (limited lib es lru settings pool limiter now event)) [
      | inr (msg, no_way) ↦ cc (rw (free, no_way, reject_create) at h)
      | inl ok ↦
          let (parent_ok, kept) = through s event group_id _ (rw (free, ok, reject_create) at h) in
          (free, parent_ok, rw (free, ok, reject_create) kept)
    ]
  ]

  -- The group that ProcessEvent stores next keeps every chain of parents ending.
  fresh-Ends :
      (s : GroupsState Db) (event : Event) (group_id : String)
      → ParentOk s event group_id
      → ((id : String) → Ends s.groups id)
      → (id : String)
      → Ends
          (store
            (placed s group_id).groups
            group_id
            (fresh_group lib es (placed s group_id) event group_id))
          id
  fresh-Ends s event group_id ok ends id =
      let s' = placed s group_id in
      let here =
        root_keeps_Ends s.groups group_id (new_group s group_id) (unfold new_group in refl) ends in
      elim (Option-cases (get_parent_from_event lib event)) [
        | inl none_declared ↦
            root_keeps_Ends s'.groups group_id (fresh_group lib es s' event group_id)
              (unfold fresh_group new_group in rw (none_declared, fresh_group)) here id
        | inr (parent_id, e) ↦
            let parent = fresh_parent s' event group_id parent_id e in
            create_keeps_Ends s' group_id (fresh_group lib es s' event group_id)
              (rw parent (
                would_create_cycle-store s group_id parent_id (new_group s group_id)
                ∙ (ok parent_id e).3))
              here id
      ]

  -- Which branch of rejectEvent a creation that is let through has taken.
  to_create :
      (s : GroupsState Db) (authed : Option PubKey) (event : Event) (caches : Caches C)
      → (event.pub_key == settings.relay_public_key) ≡ false
      → event.kind ≡ Kinds.create_group
      → (reject_event lib es lru settings pool limiter now s authed event caches).0 ≡ accept
      → (htag : FoundTag) × (lib.find event.tags "h" ≡ some htag)
        × (reject_event lib es lru settings pool limiter now s authed event caches
            ≡ reject_create lib es lru settings pool limiter now s event htag.value caches)
  unfolding reject_event reject_for_group
  to_create s authed event caches other creates h =
      elim (Bool-cases (lib.is_moderation_kind event.kind && ltb (event.created_at + 60) now)) [
        | inl old ↦ cc (rw (other, old, reject_event) at h)
        | inr recent ↦ elim (Bool-cases (lib.is_metadata_kind event.kind)) [
          | inl metadata ↦ cc (rw (other, recent, metadata, reject_event) at h)
          | inr not_metadata ↦ elim (Option-cases (lib.find event.tags "h")) [
            | inl untagged ↦
                cc (rw (other, recent, not_metadata, creates, untagged, reject_event) at h)
            | inr (htag, e) ↦ (
              htag,
              e,
              rw (other, recent, not_metadata, creates, e, reject_event, reject_for_group) refl,
            )
          ]
        ]
      ]

  -- A creation of a group that is let through, from a key other than the relay's, names by its h tag an
  -- id with no live group, and leaves a placeholder group under that id. If it declares a parent, the
  -- parent is live and the creator is an admin of it. And if every chain of parents ended before, then
  -- so does every chain once ProcessEvent stores the new group with its parent.
  pub accepted_creation :
      (s : GroupsState Db) (authed : Option PubKey) (event : Event) (caches : Caches C)
      → (event.pub_key == settings.relay_public_key) ≡ false
      → event.kind ≡ Kinds.create_group
      → let d = reject_event lib es lru settings pool limiter now s authed event caches in
        d.0 ≡ accept
        → (htag : FoundTag) × (lib.find event.tags "h" ≡ some htag)
          × (load s.groups htag.value ≡ none)
          × ParentOk s event htag.value
          × (d.2 ≡ placed s htag.value)
          × (((id : String) → Ends s.groups id)
              → (id : String)
              → Ends (store d.2.groups htag.value (fresh_group lib es d.2 event htag.value)) id)
  accepted_creation s authed event caches other creates h =
      let (htag, e, same) = to_create s authed event caches other creates h in
      let (free, parent_ok, kept) = create_through s event htag.value caches (rw same at h) in
      (
        htag,
        e,
        free,
        parent_ok,
        rw same kept,
        λ ends id. rw (same, kept) (fresh-Ends s event htag.value parent_ok ends id),
      )
