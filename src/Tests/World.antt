-- ===== src/Tests/World.antt =====
-- A nostr library, an event store in memory and a cache for the tests, with one group of two members.
use croissant.Base.{
  ℕ, Bool, true, not, ◌&&◌, Option, none, some, List, [], ◌∷◌, String, Map, load, store, filter,
  contains, is_empty, leb, ◌==◌, nat_eq, string_eq, if◌then◌else◌,
}
use croissant.Nostr.{
  NostrLib, EventStore, Event, Filter, FoundTag, Tag, Kind, PubKey, Shape, Prepared, prepared,
  invalid,
}
use croissant.Groups.{Group, GroupsState, new_group, empty_state}
use croissant.Write.Presence.{Settings, Lru, Caches}

abbrev pub Db : Type 0
Db = List Event

abbrev pub find_all : List Tag → String → List FoundTag
find_all [] key = []
find_all ([] ∷ tags) key = find_all tags key
find_all ((k ∷ []) ∷ tags) key = find_all tags key
find_all ((k ∷ v ∷ rest) ∷ tags) key =
    let others = find_all tags key in
    if k == key then record { value = v; rest = rest } ∷ others else others

abbrev first : List FoundTag → Option FoundTag
first [] = none
first (t ∷ ts) = some t

abbrev hex : ℕ → String
hex n = if n == 1 then "a1" else if n == 2 then "b2" else "ff"

abbrev from_hex : String → Option ℕ
from_hex s = if s == "a1" then some 1 else if s == "b2" then some 2 else none

abbrev moderation_kind : Kind → Bool
moderation_kind k = leb 9000 k && leb k 9020

abbrev act_as : Shape → Prepared
act_as shape = prepared (record { shape = shape; apply = λ g. g })

abbrev pub nostr : NostrLib
nostr = record {
  find = λ tags key. first (find_all tags key);
  find_all = find_all;
  has_tag = λ tags key. not (is_empty (find_all tags key));
  pubkey_hex = hex;
  pubkey_from_hex = from_hex;
  id_hex = hex;
  id_from_hex = from_hex;
  sign = λ e. some (record { id = e.kind; pub_key = 99 });
  is_moderation_kind = moderation_kind;
  is_metadata_kind = λ k. leb 39000 k && leb k 39005;
  prepare_moderation_action = λ e.
      if e.kind == 9007
      then act_as Shape.create_group
      else if e.kind == 9008
      then act_as Shape.delete_group
      else invalid "unknown action";
}

abbrev matches : Filter → Event → Bool
matches f e =
    (elim f.ids [ none ↦ true | some ids ↦ contains ids e.id ])
    && (if is_empty f.kinds then true else contains f.kinds e.kind)

abbrev pub memory : EventStore Db ℕ
memory = record {
  query_events = λ db f n. filter (matches f) db;
  delete_event = λ db id. (filter (λ e. not (e.id == id)) db, none);
  save_event = λ db e. (e ∷ db, none);
  replace_event = λ db e. (e ∷ db, ([], none));
  count_events = λ db f. (0, none);
}

abbrev pub cache : Lru (Map PubKey Bool)
cache = record { get = λ c k. (load c k, c); add = λ c k v. store c k v }

abbrev pub empty_caches : Caches (Map PubKey Bool)
empty_caches = record { gift_wrap_presence_cache = []; free_transit_presence_cache = [] }

abbrev pub settings : Settings
settings = record {
  relay_public_key = 99;
  owner_pub_key = 98;
  create_group_presence_relays = [];
  free_transit_presence_relays = [];
  gift_wraps_enabled = true;
  sender_presence_relays = "wss://profiles" ∷ [];
}

-- Key 1 is an admin and key 2 a member of the group "cheese"; "grapes" has no members.
unfoldable pub cheese : Group
unfolding new_group empty_state
cheese =
    let g = new_group (empty_state {Db = Db} [] "wss://relay") "cheese" in
    record g {
      nip = record g.nip {
        members = (1, "admin" ∷ []) ∷ (2, []) ∷ [];
        private = true;
        closed = true;
      };
    }

abbrev pub event : ℕ → Kind → PubKey → List Tag → Event
event id kind author tags = record {
  id = id;
  pub_key = author;
  created_at = 1000;
  kind = kind;
  tags = tags;
  content = "";
}

-- A message of key 2 in the group.
abbrev pub message : Event
message = event 2 9 2 (("h" ∷ "cheese" ∷ []) ∷ [])

unfoldable pub world : GroupsState Db
unfolding empty_state
world = record (empty_state (message ∷ []) "wss://relay") { groups = ("cheese", cheese) ∷ [] }
