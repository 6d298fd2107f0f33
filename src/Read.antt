-- ===== src/Read.antt =====
-- What a client may read: query.go, rejectRequest of state.go, and authedAreTheSameAsPTagged of
-- giftwrap.go.
pub mod Visibility
pub mod Requests
pub mod Recipients
use croissant.Base.{
  ℕ, zero, suc, Bool, true, false, ◌&&◌, ◌||◌, not, Option, none, some, List, [], ◌∷◌, String, load,
  length, is_empty, contains, ltb, ◌==◌, nat_eq, string_eq, if◌then◌else◌,
}
use croissant.Nostr.{NostrLib, EventStore, Event, Filter, PubKey}
use croissant.Nostr.Kinds
use croissant.Verdict.{Verdict, accept, reject, or_else}
use croissant.Groups.{Group, GroupsState, any_of_these_is_a_member}
use croissant.Groups.Tags.{get_group_from_event}

-- `none` is a nil slice.
unfoldable pub requested_group_ids : Filter → Option (List String)
requested_group_ids filter = elim (load filter.tags "h") [
  | none ↦ load filter.tags "d"
  | some ids ↦ if is_empty ids then load filter.tags "d" else some ids
]

abbrev pub is_nil {ℓ} : {A : Type ℓ} → Option A → Bool
is_nil none = true
is_nil (some a) = false

abbrev pub elements {ℓ} : {A : Type ℓ} → Option (List A) → List A
elements none = []
elements (some xs) = xs

-- hideEventFromReader, once the group of the event is found.
unfoldable pub hide_in_group : Filter → Event → List PubKey → Group → Bool
hide_in_group filter evt authed group =
    if group.hidden && is_nil (requested_group_ids filter) && is_nil filter.ids
    then true
    else if group.private
    then if evt.kind == Kinds.group_metadata
      then if group.hidden then not (any_of_these_is_a_member group authed) else false
      else if any_of_these_is_a_member group authed
      then false
      else false
    else false

abbrev hide_found : Filter → Event → List PubKey → Option Group → Bool
hide_found filter evt authed none = true
hide_found filter evt authed (some group) = hide_in_group filter evt authed group

-- for _, pTag := range pTags { if pTag == axs … }, for each authenticated key
abbrev pub all_p_tagged : (PubKey → String) → List PubKey → List String → Bool
all_p_tagged hex [] p_tags = true
all_p_tagged hex (a ∷ authed) p_tags = contains p_tags (hex a) && all_p_tagged hex authed p_tags

unfoldable pub authed_are_the_same_as_p_tagged :
    (PubKey → String) → List PubKey → List String → Bool
authed_are_the_same_as_p_tagged hex authed p_tags =
    length p_tags == length authed && all_p_tagged hex authed p_tags

-- The check of one requested group in rejectRequest.
abbrev pub check_group : List PubKey → Option Group → Verdict
check_group authed none = accept
check_group authed (some group) =
    if group.private
    then if is_empty authed
      then reject "auth-required: you're trying to access a private group"
      else if not (any_of_these_is_a_member group authed)
      then reject "restricted: you're trying to access a group of which you're not a member"
      else accept
    else accept

module _ (lib : NostrLib) {Db : Type 0} (s : GroupsState Db) where
  unfoldable pub hide_event_from_reader : Filter → Event → List PubKey → Bool
  hide_event_from_reader filter evt authed =
      if evt.kind == Kinds.profile_metadata
      then false
      else hide_found filter evt authed (get_group_from_event lib s evt)

  -- A websocket that is nil has no keys.
  unfoldable pub should_prevent_broadcast : Option (List PubKey) → Filter → Event → Bool
  unfolding hide_event_from_reader
  should_prevent_broadcast none filter event = true
  should_prevent_broadcast (some authed) filter event = hide_event_from_reader filter event authed

  abbrev pub max_int : ℕ
  max_int = 0x7fff_ffff_ffff_ffff

  -- The events that are not hidden, in order: the loop of query with `continue`.
  unfoldable pub visible : Filter → List PubKey → List Event → List Event
  unfolding hide_event_from_reader
  visible filter authed [] = []
  visible filter authed (evt ∷ evts) =
      let rest = visible filter authed evts in
      if hide_event_from_reader filter evt authed then rest else evt ∷ rest

  unfoldable pub query :
      {E : Type 0}
      → EventStore Db E
      → Db
      → (authed : List PubKey) → (negentropy : Bool) → Filter
      → List Event
  unfolding visible
  query es db authed negentropy filter =
      if contains filter.kinds Kinds.gift_wrap
      then es.query_events db filter 500
      else if not (filter.search == "")
      then []
      else visible filter authed (es.query_events db filter (if negentropy then max_int else 1500))

  unfoldable pub check_groups : List PubKey → List String → Verdict
  check_groups authed [] = accept
  check_groups authed (id ∷ ids) =
      or_else (check_group authed (load s.groups id)) (check_groups authed ids)

  -- The check of gift-wrap queries in rejectRequest.
  unfoldable pub check_gift_wraps : List PubKey → Filter → Verdict
  check_gift_wraps authed filter =
      if contains filter.kinds Kinds.gift_wrap
      then if is_empty authed
        then reject "auth-required: you're trying to access gift-wraps"
        else if not (
            authed_are_the_same_as_p_tagged lib.pubkey_hex authed (elements (load filter.tags "p")))
        then reject
            "blocked: gift-wrap queries must only be done for events that p-tag the current user"
        else accept
      else accept

  unfoldable pub reject_request : List PubKey → Filter → Verdict
  unfolding check_groups check_gift_wraps
  reject_request authed filter =
      let group_ids = elements (requested_group_ids filter) in
      or_else (check_gift_wraps authed filter) (
        if not (filter.search == "") && (ltb 5 (length group_ids) || length group_ids == 0)
        then reject "blocked: group search must specify between 1 and 5 group ids"
        else check_groups authed group_ids)
