-- ===== src/Nostr.antt =====
-- The data that the relay gets from its nostr library (events, filters, groups, moderation actions)
-- and the calls that it makes of that library and of the event store, as parameters. Nothing here is
-- the program's own code: a record of functions stands for each package, and what its documentation
-- promises is read off the types (Sign writes three fields, Find returns a tag that has a value).
pub mod Kinds
use croissant.Base.{ℕ, Bool, String, List, Map, Option, none, ◌≡◌, refl, ◌⊎◌, inl, inr}

-- A public key and an event id are 32 bytes each, compared and printed in hexadecimal: numbers here.
abbrev pub PubKey : Type 0
PubKey = ℕ

abbrev pub EventId : Type 0
EventId = ℕ

abbrev pub zero_id : EventId
zero_id = 0

abbrev pub Kind : Type 0
Kind = ℕ

-- Seconds since 1970, not negative.
abbrev pub Timestamp : Type 0
Timestamp = ℕ

abbrev pub Tag : Type 0
Tag = List String

pub record Event : Type 0 where
  pub id : EventId
  pub pub_key : PubKey
  pub created_at : Timestamp
  pub kind : Kind
  pub tags : List Tag
  pub content : String

-- `ids = none` is a nil slice; a missing key of `tags` is one too.
pub record Filter : Type 0 where
  pub ids : Option (List EventId)
  pub kinds : List Kind
  pub authors : List PubKey
  pub tags : Map String (List String)
  pub search : String

abbrev pub empty_filter : Filter
empty_filter = record {
  ids = none;
  kinds = List.[];
  authors = List.[];
  tags = List.[];
  search = "";
}

-- What Tags.Find and Tags.FindAll return: a tag of at least two items, key (its argument), value, rest.
pub record FoundTag : Type 0 where
  pub value : String
  pub rest : List String

-- nip29.Group, the fields that the relay reads or writes. A role is its name.
pub record NipGroup : Type 0 where
  pub id : String
  pub relay : String
  pub roles : List String
  pub members : Map PubKey (List String)
  pub invite_codes : List String
  pub private : Bool
  pub restricted : Bool
  pub hidden : Bool
  pub closed : Bool
  pub live_kit : Bool
  pub supported_kinds : Option (List Kind)
  pub last_metadata_update : Timestamp

pub record PubKeyRoles : Type 0 where
  pub pub_key : PubKey
  pub role_names : List String

-- The dynamic type of a nip29.Action, with the fields that the relay reads.
pub data Shape : Type 0 where
  put_user : List PubKeyRoles → Shape
  remove_user : List PubKey → Shape
  edit_metadata : (closed_value private_value : Option Bool) → Shape
  delete_event : List EventId → Shape
  create_group : Shape
  delete_group : Shape
  create_invite : Shape

pub record Action : Type 0 where
  pub shape : Shape
  pub apply : NipGroup → NipGroup

pub data Prepared : Type 0 where
  prepared : Action → Prepared
  invalid : String → Prepared

-- What Sign writes into an event.
pub record Signed : Type 0 where
  pub id : EventId
  pub pub_key : PubKey

pub record NostrLib : Type 0 where
  pub find : List Tag → String → Option FoundTag
  pub find_all : List Tag → String → List FoundTag
  pub has_tag : List Tag → String → Bool
  pub pubkey_hex : PubKey → String
  pub pubkey_from_hex : String → Option PubKey
  pub id_hex : EventId → String
  pub id_from_hex : String → Option EventId
  pub sign : Event → Option Signed
  pub is_moderation_kind : Kind → Bool
  pub is_metadata_kind : Kind → Bool
  pub prepare_moderation_action : Event → Prepared

-- eventstore.Store over a database `Db`, with errors `E`.
pub record EventStore (Db E : Type 0) : Type 0 where
  pub query_events : Db → Filter → ℕ → List Event
  pub delete_event : Db → EventId → Db × Option E
  pub save_event : Db → Event → Db × Option E
  pub replace_event : Db → Event → Db × (List Event × Option E)
  pub count_events : Db → Filter → ℕ × Option E

pub Prepared-cases :
    (p : Prepared) → ((why : String) × (p ≡ invalid why)) ⊎ ((act : Action) × (p ≡ prepared act))
Prepared-cases (prepared act) = inr (act, refl)
Prepared-cases (invalid why) = inl (why, refl)
