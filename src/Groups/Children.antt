-- ===== src/Groups/Children.antt =====
-- addParentChild and removeParentChild of group.go. They return the parent, by its id, and whether its
-- list of children changed.
pub mod Inverse
use croissant.Base.{
  Option, none, some, String, Bool, true, false, List, [], ◌∷◌, ◌++◌, load, store, contains, erase,
  string_eq, ltb, if◌then◌else◌,
}
use croissant.Nostr.{NipGroup, Timestamp}
use croissant.Groups.{Group, GroupsState}

-- if when > parent.LastMetadataUpdate { parent.LastMetadataUpdate = when }
abbrev pub touch : NipGroup → Timestamp → NipGroup
touch nip when =
    if ltb nip.last_metadata_update when then record nip { last_metadata_update = when } else nip

abbrev pub with_children : Group → List String → Timestamp → Group
with_children parent children when = record parent {
  nip = touch parent.nip when;
  children = children;
}

module _ {Db : Type 0} where
  abbrev add_to :
      GroupsState Db
      → String
      → Option Group
      → String
      → Timestamp
      → GroupsState Db × Option String × Bool
  add_to s parent_id none child_id when = (s, none, false)
  add_to s parent_id (some parent) child_id when =
      if contains parent.children child_id then (s, some parent_id, false) else (
        record s {
          groups =
              store s.groups parent_id
                (with_children parent (parent.children ++ child_id ∷ []) when);
        },
        some parent_id,
        true,
      )

  unfoldable pub add_parent_child :
      GroupsState Db → String → String → Timestamp → GroupsState Db × Option String × Bool
  add_parent_child s parent_id child_id when =
      add_to s parent_id (load s.groups parent_id) child_id when

  abbrev remove_from :
      GroupsState Db
      → String
      → Option Group
      → String
      → Timestamp
      → GroupsState Db × Option String × Bool
  remove_from s parent_id none child_id when = (s, none, false)
  remove_from s parent_id (some parent) child_id when =
      if contains parent.children child_id
      then (
        record s {
          groups =
              store s.groups parent_id (with_children parent (erase parent.children child_id) when);
        },
        some parent_id,
        true,
      )
      else (s, some parent_id, false)

  unfoldable pub remove_parent_child :
      GroupsState Db → String → String → Timestamp → GroupsState Db × Option String × Bool
  remove_parent_child s parent_id child_id when =
      remove_from s parent_id (load s.groups parent_id) child_id when
