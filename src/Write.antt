-- ===== src/Write.antt =====
-- rejectEvent of reject_event.go: whether an event that a client publishes is taken. What the function
-- gets from elsewhere is a parameter: the libraries, the store, the settings, the answers of the
-- presence relays, the rate limiter's answer and the clock.
pub mod Presence
pub mod GiftWraps
pub mod Moderation
pub mod Checks
pub mod Access
pub mod Creation
use Prim.Native.String.{◌++◌ as text_append, slice}
use croissant.Base.{
  ℕ, zero, suc, ◌+◌, Bool, true, false, not, ◌&&◌, ◌||◌, Option, none, some, List, [], ◌∷◌, String,
  load, store, has, any, contains, is_empty, ltb, ◌==◌, nat_eq, string_eq, if◌then◌else◌,
}
use croissant.Nostr.{
  NostrLib, EventStore, PubKey, EventId, Event, Filter, empty_filter, FoundTag, Timestamp, zero_id,
  Kind,
}
use croissant.Nostr.Kinds
use croissant.Text.{byte_len}
use croissant.Verdict.{Verdict, accept, reject, or_else}
use croissant.Groups.{Group, GroupsState, new_group}
use croissant.Groups.Tags.{get_parent_from_event}
use croissant.Groups.Hierarchy.{would_create_cycle}
use Presence.{Settings, Lru, Caches, Pool, has_presence, free_transit, group_create}
use GiftWraps.{reject_gift_wrap_event}
use Moderation.{roles_of, has_primary_role, check_prepared}

-- if group.SupportedKinds != nil { … }
unfoldable pub check_supported_kinds : Group → Kind → Verdict
check_supported_kinds group kind = elim group.supported_kinds [
  | none ↦ accept
  | some kinds ↦
      if is_empty kinds && group.live_kit
      then reject "blocked: this is a live audio/video group only"
      else if contains kinds kind
      then accept
      else reject "blocked: kind not supported by this group"
]

module _ (lib : NostrLib) where
  -- An id of the ring whose hexadecimal form begins with the characters; the empty places are skipped.
  abbrev pub is_recent : Group → String → Bool
  is_recent group chars =
      any (λ id. not (id == zero_id) && slice (lib.id_hex id) 0 (byte_len chars) == chars)
        group.last50

  unfoldable pub check_previous : Group → List String → Verdict
  check_previous group [] = accept
  check_previous group (chars ∷ rest) =
      if ltb 64 (byte_len chars)
      then reject (text_append "error: invalid value '" (text_append chars "' in previous tag"))
      else if is_recent group chars
      then check_previous group rest
      else reject (text_append "previous id '" (text_append chars "' wasn't found in this group"))

  abbrev pub check_previous_tag : Group → Option FoundTag → Verdict
  check_previous_tag group none = accept
  check_previous_tag group (some previous) = check_previous group (previous.value ∷ previous.rest)

module _ (lib : NostrLib) {Db E C : Type 0} (es : EventStore Db E) (lru : Lru C)
    (settings : Settings) (pool : Pool) (limiter : Option (Event → Verdict)) (now : Timestamp) where
  -- The verdict, with the presence caches and the groups as the call leaves them.
  abbrev pub Decision : Type 0
  Decision = Verdict × Caches C × GroupsState Db

  -- A check that leaves the caches alone, after one that may change them.
  abbrev and_also : Verdict × Caches C → Verdict → Verdict × Caches C
  and_also (entry, caches) v = (or_else entry v, caches)

  abbrev keeping : GroupsState Db → Verdict × Caches C → Decision
  keeping s (v, caches) = (v, caches, s)

  -- if !hasPresence(…) { return true, "restricted: missing profile in presence relays" }
  abbrev pub presence_verdict : Bool × Caches C → Verdict × Caches C
  presence_verdict (true, caches) = (accept, caches)
  presence_verdict (false, caches) =
      (reject "restricted: missing profile in presence relays", caches)

  abbrev pub limited : Event → Verdict
  limited event = elim limiter [ none ↦ accept | some f ↦ f event ]

  -- The parent that a kind:9007 event declares: it is live, its creator is an admin of it, and the link
  -- closes no cycle.
  unfoldable pub check_parent : GroupsState Db → Event → String → Option String → Verdict
  check_parent s event group_id none = accept
  check_parent s event group_id (some parent_id) = elim (load s.groups parent_id) [
    | none ↦
        reject (text_append "restricted: parent group '" (text_append parent_id "' doesn't exist"))
    | some parent ↦
        if not (has_primary_role (roles_of parent event.pub_key))
        then reject "restricted: must be an admin of the parent group"
        else if would_create_cycle s group_id parent_id
        then reject "restricted: would create a parent cycle"
        else accept
  ]

  -- A kind:9007 event for an id with no live group; on success a placeholder group is stored.
  abbrev pub after_presence : GroupsState Db → Event → String → Verdict × Caches C → Decision
  after_presence s event group_id (reject msg, caches) = (reject msg, caches, s)
  after_presence s event group_id (accept, caches) =
      elim (check_parent s event group_id (get_parent_from_event lib event)) [
        | reject msg ↦ (reject msg, caches, s)
        | accept ↦
            (accept, caches, record s { groups = store s.groups group_id (new_group s group_id) })
      ]

  unfoldable pub reject_create : GroupsState Db → Event → String → Caches C → Decision
  unfolding check_parent
  reject_create s event group_id caches = elim (load s.groups group_id) [
    | some _ ↦ (reject "duplicate: group already exists", caches, s)
    | none ↦ elim (limited event) [
      | reject msg ↦ (reject msg, caches, s)
      | accept ↦
          after_presence s event group_id
            (presence_verdict (has_presence lru settings pool caches event.pub_key group_create))
    ]
  ]

  -- The kick that the store finds first, if any, was the member's own leaving.
  abbrev was_kicked : Db → PubKey → Bool
  was_kicked db pk =
      elim (es.query_events db
        (record empty_filter {
          kinds = Kinds.remove_user ∷ [];
          tags = ("p", lib.pubkey_hex pk ∷ []) ∷ [];
        })
        1) [ [] ↦ false | rem ∷ _ ↦ not (lib.has_tag rem.tags "self-removal") ]

  abbrev has_invite : Group → Option FoundTag → Bool
  has_invite group none = false
  has_invite group (some ctag) = contains group.invite_codes ctag.value

  -- The invite code of a closed group, or the presence that an open one asks for.
  abbrev may_enter : Group → Event → Caches C → Verdict × Caches C
  may_enter group event caches =
      if group.closed
      then if has_invite group (lib.find event.tags "code")
        then (accept, caches)
        else (reject "restricted: group is closed, you need an invite code", caches)
      else presence_verdict (has_presence lru settings pool caches event.pub_key free_transit)

  unfoldable pub reject_join : GroupsState Db → Event → Group → Caches C → Verdict × Caches C
  reject_join s event group caches = and_also (may_enter group event caches) (
      if has group.members event.pub_key
      then reject "duplicate: already a member"
      else if was_kicked s.db event.pub_key
      then reject "blocked: you were removed"
      else accept)

  -- In a restricted or closed group only members write; in others presence may be asked for.
  abbrev pub may_write : Group → Event → Caches C → Verdict × Caches C
  may_write group event caches =
      if group.restricted || group.closed
      then if has group.members event.pub_key
        then (accept, caches)
        else (reject "blocked: unknown member", caches)
      else presence_verdict (has_presence lru settings pool caches event.pub_key free_transit)

  -- Prevent republishing events that were just deleted.
  abbrev pub check_deleted : GroupsState Db → Event → Verdict
  check_deleted s event =
      if contains s.deleted_cache event.id then reject "blocked: this was deleted" else accept

  -- Restrict invalid moderation actions.
  abbrev pub check_moderation : GroupsState Db → Event → Group → Verdict
  check_moderation s event group =
      if lib.is_moderation_kind event.kind
      then check_prepared es s.db group event.pub_key (lib.prepare_moderation_action event)
      else accept

  abbrev pub check_tags : Event → Group → Verdict
  check_tags event group =
      or_else (check_supported_kinds group event.kind)
        (check_previous_tag lib group (lib.find event.tags "previous"))

  -- The checks behind may_write, in their order.
  unfoldable pub check_content : GroupsState Db → Event → Group → Verdict
  check_content s event group =
      or_else (check_deleted s event)
        (or_else (check_moderation s event group) (check_tags event group))

  unfoldable pub reject_in_group : GroupsState Db → Event → Group → Caches C → Verdict × Caches C
  unfolding reject_join check_content
  reject_in_group s event group caches =
      if event.kind == Kinds.delete_group && settings.owner_pub_key == event.pub_key
      then (accept, caches)
      else if event.kind == Kinds.join_request
      then reject_join s event group caches
      else and_also (may_write group event caches) (check_content s event group)

  -- An event with an h tag.
  unfoldable pub reject_for_group : GroupsState Db → Event → String → Caches C → Decision
  unfolding reject_create reject_in_group
  reject_for_group s event group_id caches =
      if event.kind == Kinds.create_group
      then reject_create s event group_id caches
      else elim (load s.groups group_id) [
        | none ↦
            (reject (text_append "group '" (text_append group_id "' doesn't exist")), caches, s)
        | some group ↦ keeping s (reject_in_group s event group caches)
      ]

  abbrev by_h_tag : GroupsState Db → Event → Caches C → Option FoundTag → Decision
  by_h_tag s event caches none = (reject "missing group (`h`) tag", caches, s)
  by_h_tag s event caches (some htag) = reject_for_group s event htag.value caches

  -- `authed` is the key that the client authenticated with, if any.
  unfoldable pub reject_event : GroupsState Db → Option PubKey → Event → Caches C → Decision
  unfolding reject_for_group
  reject_event s authed event caches =
      if event.pub_key == settings.relay_public_key
      then (accept, caches, s)
      else if lib.is_moderation_kind event.kind && ltb (event.created_at + 60) now
      then (reject "moderation action is too old (older than 1 minute ago)", caches, s)
      else if lib.is_metadata_kind event.kind
      then (reject "restricted: group metadata events are generated internally", caches, s)
      else if event.kind == Kinds.gift_wrap
      then keeping s (reject_gift_wrap_event lib lru settings pool authed event caches)
      else if event.kind == Kinds.profile_metadata
      then (accept, caches, s)
      else by_h_tag s event caches (lib.find event.tags "h")
