-- ===== src/Write/Moderation.antt =====
-- The checks of a moderation action in reject_event.go, once the group is found.
use Prim.Native.String.{◌++◌ as text_append}
use croissant.Base.{
  Bool, true, false, not, ◌&&◌, ◌||◌, Option, none, some, List, [], ◌∷◌, String, load, has, any,
  contains, append_unique, is_empty, nat_eq, string_eq, if◌then◌else◌,
}
use croissant.Nostr.{
  EventStore, PubKey, PubKeyRoles, EventId, Event, empty_filter, Shape, Prepared, prepared, invalid,
}
use croissant.Verdict.{Verdict, accept, reject}
use croissant.Roles.{same_roles}
use croissant.Groups.{Group, primary_role_name}

abbrev pub roles_of : Group → PubKey → List String
roles_of group pk = elim (load group.members pk) [ none ↦ [] | some roles ↦ roles ]

abbrev pub has_primary_role : List String → Bool
has_primary_role roles = contains roles primary_role_name

abbrev pub is_value : Option Bool → Bool → Bool
is_value none b = false
is_value (some true) b = b
is_value (some false) b = not b

-- case nip29.EditMetadata
unfoldable pub check_edit : Group → Option Bool → Option Bool → Verdict
check_edit group closed_value private_value =
    if group.private && is_value closed_value false
    then reject "can't make a private group open"
    else if group.private && is_value private_value false
    then reject "can't make a private group public"
    else if is_value private_value true && not (group.closed || is_value closed_value true)
    then reject "a private group must also be made closed"
    else accept

-- A target that is no member, or has other roles.
abbrev pub changes : Group → PubKeyRoles → Bool
changes group t = elim (load group.members t.pub_key) [
  | none ↦ true
  | some current ↦ not (same_roles current t.role_names).0
]

-- The distinct authors of events, in order.
abbrev pub authors_of : List Event → List PubKey → List PubKey
authors_of [] authors = authors
authors_of (target ∷ targets) authors = authors_of targets (append_unique authors target.pub_key)

module _ {Db E : Type 0} (es : EventStore Db E) (db : Db) where
  abbrev pub targets_of : List EventId → List Event
  targets_of ids = es.query_events db (record empty_filter { ids = some ids }) 500

  -- case nip29.DeleteEvent
  unfoldable pub check_delete : Group → Bool → List EventId → Verdict
  check_delete group is_primary_role ids =
      if is_empty (targets_of ids)
      then reject "none of the targets exist in this relay"
      else if is_primary_role
      then accept
      else if any (λ author. has_primary_role (roles_of group author))
          (authors_of (targets_of ids) [])
      then reject "can't delete messages from an admin"
      else accept

  -- switch a := action.(type)
  unfoldable pub check_shape : Group → Bool → Shape → Verdict
  unfolding check_edit check_delete
  check_shape group is_primary_role Shape.create_invite =
      if group.closed then accept else reject "no need to create invites in open groups"
  check_shape group is_primary_role (Shape.edit_metadata closed_value private_value) =
      check_edit group closed_value private_value
  check_shape group is_primary_role (Shape.put_user targets) =
      if any (changes group) targets then accept else reject "all targets are members already"
  check_shape group is_primary_role (Shape.remove_user targets) =
      if any (has group.members) targets then accept else reject "all targets have left already"
  check_shape group is_primary_role (Shape.delete_event ids) =
      check_delete group is_primary_role ids
  check_shape group is_primary_role Shape.delete_group =
      if is_primary_role then accept else reject "can't delete group"
  check_shape group is_primary_role Shape.create_group = accept

  unfoldable pub check_prepared : Group → PubKey → Prepared → Verdict
  unfolding check_shape
  check_prepared group author (invalid why) =
      reject (text_append "error: invalid moderation action: " why)
  check_prepared group author (prepared action) =
      let roles = roles_of group author in
      if is_empty roles
      then reject "restricted: insufficient permissions"
      else check_shape group (has_primary_role roles) action.shape
