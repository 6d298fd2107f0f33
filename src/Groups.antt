-- ===== src/Groups.antt =====
-- state.go and group.go: the groups of the relay and the state that holds them. A *Group is the entry
-- of `groups` under its id: what the program does through a pointer is done to that entry.
pub mod Tags
pub mod Children
pub mod Hierarchy
use croissant.Base.{
  ℕ, zero, suc, ◌+◌, ◌%◌, Bool, true, false, Option, none, some, List, [], ◌∷◌, ◌++◌, String, Map,
  load, store, has, replicate, any, nat_eq, string_eq,
}
use croissant.Nostr.{NipGroup, PubKey, EventId, Event, Timestamp, zero_id}

abbrev pub primary_role_name : String
primary_role_name = "admin"

abbrev pub secondary_role_name : String
secondary_role_name = "moderator"

-- `last50_index` is the bit pattern of an int32.
pub record Group : Type 0 where
  pub nip : NipGroup
  pub open nip use *
  pub parent : String
  pub children : List String
  pub last50 : List EventId
  pub last50_index : ℕ

pub record DeletedGroup : Type 0 where
  pub id : String
  pub deleted_at : Timestamp
  pub deleted_by : PubKey

-- `deleted_cache` is an array of 128 ids; `deleted_cache_index` is a uint32; `broadcasts` are the events
-- given to BroadcastEvent, newest first.
pub record GroupsState (Db : Type 0) : Type 0 where
  pub groups : Map String Group
  pub all_members : Map PubKey ℕ
  pub deleted_groups : Map String DeletedGroup
  pub db : Db
  pub relay_url : String
  pub deleted_cache : List EventId
  pub deleted_cache_index : ℕ
  pub broadcasts : List Event

abbrev pub new_nip_group : String → String → NipGroup
new_nip_group relay_url id = record {
  id = id;
  relay = relay_url;
  roles = primary_role_name ∷ secondary_role_name ∷ [];
  members = [];
  invite_codes = [];
  private = false;
  restricted = false;
  hidden = false;
  closed = false;
  live_kit = false;
  supported_kinds = none;
  last_metadata_update = 0;
}

unfoldable pub new_group : {Db : Type 0} → GroupsState Db → String → Group
new_group s id = record {
  nip = new_nip_group s.relay_url id;
  parent = "";
  children = [];
  last50 = replicate 50 zero_id;
  last50_index = 0;
}

-- NewGroupsState, before loadGroupsFromDB.
unfoldable pub empty_state : {Db : Type 0} → Db → String → GroupsState Db
empty_state db relay_url = record {
  groups = [];
  all_members = [];
  deleted_groups = [];
  db = db;
  relay_url = relay_url;
  deleted_cache = replicate 128 zero_id;
  deleted_cache_index = 0;
  broadcasts = [];
}

-- A change made through the pointer to the group `id`; nothing where there is no such group.
abbrev pub update_group : Map String Group → String → (Group → Group) → Map String Group
update_group groups id f = elim (load groups id) [ none ↦ groups | some g ↦ store groups id (f g) ]

unfoldable pub any_of_these_is_a_member : Group → List PubKey → Bool
any_of_these_is_a_member g pubkeys = any (λ pk. has g.members pk) pubkeys
