-- ===== src/Write/Access.antt =====
-- What rejectEvent of reject_event.go guarantees of an event that it lets through.
use croissant.Base.{
  ◌+◌, ◌≤◌, Bool, true, false, ◌&&◌, ◌||◌, Option, some, load, has, contains, is_empty, ltb, ◌==◌,
  nat_eq, string_eq, ◌≡◌, inl, inr, arith, Option-cases, Bool-cases,
}
use croissant.Nostr.{
  NostrLib, EventStore, Event, PubKey, FoundTag, Timestamp, Action, Shape, prepared,
}
use croissant.Nostr.Kinds
use croissant.Verdict.{Verdict, accept, or_else}
use croissant.Groups.{Group, GroupsState}
use croissant.Write.Presence.{Settings, Lru, Caches, Pool}
use croissant.Write.Moderation.{roles_of, has_primary_role, check_prepared, check_shape}
use croissant.Write.Checks.{or_else_iff}
use croissant.Write.{
  check_deleted, check_moderation, check_tags, check_content, reject_in_group, reject_for_group,
  reject_event, may_write,
}

module _ (lib : NostrLib) {Db E C : Type 0} (es : EventStore Db E) (lru : Lru C)
    (settings : Settings) (pool : Pool) (limiter : Option (Event → Verdict)) (now : Timestamp) where
  -- An event of the kinds that the rules for members apply to, from a key other than the relay's.
  pub record IsOrdinary (event : Event) : Type 0 where
    pub not_relay : (event.pub_key == settings.relay_public_key) ≡ false
    pub not_wrap : (event.kind == Kinds.gift_wrap) ≡ false
    pub not_profile : (event.kind == Kinds.profile_metadata) ≡ false
    pub not_create : (event.kind == Kinds.create_group) ≡ false
    pub not_join : (event.kind == Kinds.join_request) ≡ false
    pub not_owner_deletes :
        (event.kind == Kinds.delete_group && settings.owner_pub_key == event.pub_key) ≡ false

  -- What holds of such an event when it is let through.
  pub record MayWrite (s : GroupsState Db) (event : Event) (group : Group) : Type 0 where
    pub no_metadata : lib.is_metadata_kind event.kind ≡ false
    pub fresh : lib.is_moderation_kind event.kind ≡ true → now ≤ event.created_at + 60
    pub by_member :
        (group.restricted || group.closed) ≡ true → has group.members event.pub_key ≡ true
    pub not_deleted : contains s.deleted_cache event.id ≡ false
    pub by_role_holder :
        lib.is_moderation_kind event.kind ≡ true → is_empty (roles_of group event.pub_key) ≡ false

  in_group :
      (s : GroupsState Db) (event : Event) (group : Group) (caches : Caches C)
      → IsOrdinary event
      → (reject_in_group lib es lru settings pool limiter now s event group caches).0 ≡ accept
      → ((may_write lib es lru settings pool limiter now group event caches).0 ≡ accept)
        × (check_content lib es lru settings pool limiter now s event group ≡ accept)
  unfolding reject_in_group
  in_group s event group caches o h =
      (or_else_iff (may_write lib es lru settings pool limiter now group event caches).0
          (check_content lib es lru settings pool limiter now s event group)).0
        (rw (o.not_owner_deletes, o.not_join) at h)

  content_of :
      (s : GroupsState Db) (event : Event) (group : Group)
      → check_content lib es lru settings pool limiter now s event group ≡ accept
      → (contains s.deleted_cache event.id ≡ false)
        × (lib.is_moderation_kind event.kind ≡ true
            → check_prepared es s.db group event.pub_key (lib.prepare_moderation_action event)
              ≡ accept)
  unfolding check_content
  content_of s event group h =
      let deleted = check_deleted lib es lru settings pool limiter now s event in
      let moderation = check_moderation lib es lru settings pool limiter now s event group in
      let tags = check_tags lib es lru settings pool limiter now event group in
      let (fresh_id, rest) = (or_else_iff deleted (or_else moderation tags)).0 h in
      let (moderated, others) = (or_else_iff moderation tags).0 rest in
      (ground (arith, fresh_id), λ m. rw m at moderated)

  allowed :
      (db : Db) (group : Group) (author : PubKey) (act : Action)
      → check_prepared es db group author (prepared act) ≡ accept
      → (is_empty (roles_of group author) ≡ false)
        × (check_shape es db group (has_primary_role (roles_of group author)) act.shape ≡ accept)
  unfolding check_prepared
  allowed db group author act h = elim (Bool-cases (is_empty (roles_of group author))) [
    | inl nobody ↦ cc (rw nobody at h)
    | inr some_role ↦ (some_role, rw some_role at h)
  ]

  admin_of :
      (db : Db) (group : Group) (is_primary_role : Bool)
      → check_shape es db group is_primary_role Shape.delete_group ≡ accept
      → is_primary_role ≡ true
  unfolding check_shape
  admin_of db group is_primary_role h = ground arith

  -- The group of an ordinary event that is let through, and the checks that it passed.
  found_group :
      (s : GroupsState Db) (authed : Option PubKey) (event : Event) (caches : Caches C)
      → IsOrdinary event
      → (reject_event lib es lru settings pool limiter now s authed event caches).0 ≡ accept
      → (group : Group) × (htag : FoundTag) × (lib.find event.tags "h" ≡ some htag)
        × (load s.groups htag.value ≡ some group)
        × (lib.is_metadata_kind event.kind ≡ false)
        × ((lib.is_moderation_kind event.kind && ltb (event.created_at + 60) now) ≡ false)
        × ((reject_in_group lib es lru settings pool limiter now s event group caches).0 ≡ accept)
  unfolding reject_event reject_for_group
  found_group s authed event caches o h =
      elim (Bool-cases (lib.is_moderation_kind event.kind && ltb (event.created_at + 60) now)) [
        | inl old ↦ cc (rw (o.not_relay, old) at h)
        | inr fresh ↦ elim (Bool-cases (lib.is_metadata_kind event.kind)) [
          | inl metadata ↦ cc (rw (o.not_relay, fresh, metadata) at h)
          | inr plain ↦ elim (Option-cases (lib.find event.tags "h")) [
            | inl missing ↦
                cc (rw (o.not_relay, fresh, plain, o.not_wrap, o.not_profile, missing) at h)
            | inr (htag, e) ↦ elim (Option-cases (load s.groups htag.value)) [
              | inl gone ↦ cc (
                  rw (o.not_relay, fresh, plain, o.not_wrap, o.not_profile, e, o.not_create, gone)
                    at h)
              | inr (group, found) ↦ (
                group,
                htag,
                e,
                found,
                plain,
                fresh,
                rw (o.not_relay, fresh, plain, o.not_wrap, o.not_profile, e, o.not_create, found) at
                    h,
              )
            ]
          ]
        ]
      ]

  -- A group is deleted, by anyone but the relay's key and the owner, only by an admin of the group.
  pub accepted_delete_by_admin :
      (s : GroupsState Db) (authed : Option PubKey) (event : Event) (caches : Caches C)
      {act : Action}
      → IsOrdinary event
      → lib.is_moderation_kind event.kind ≡ true
      → lib.prepare_moderation_action event ≡ prepared act
      → act.shape ≡ Shape.delete_group
      → (reject_event lib es lru settings pool limiter now s authed event caches).0 ≡ accept
      → (group : Group) × (htag : FoundTag) × (lib.find event.tags "h" ≡ some htag)
        × (load s.groups htag.value ≡ some group)
        × (has_primary_role (roles_of group event.pub_key) ≡ true)
  accepted_delete_by_admin s authed event caches {act} o m e shape h =
      let (group, htag, tagged, found, plain, fresh, passed) =
        found_group s authed event caches o h in
      let (entry, content) = in_group s event group caches o passed in
      let checked = (content_of s event group content).1 m in
      let (_, shaped) = allowed s.db group event.pub_key act (rw e at checked) in
      (group, htag, tagged, found, admin_of s.db group _ (rw shape at shaped))
