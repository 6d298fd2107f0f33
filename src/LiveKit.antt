-- ===== src/LiveKit.antt =====
-- livekit.go: the tokens with which one joins a group's call, the rooms that are made for them, and the
-- participants that the server reports. Here: the state and the tokens.
pub mod Rooms
pub mod Handlers
use Prim.Native.String.{◌++◌}
use croissant.Base.{ℕ, Bool, true, false, not, ◌&&◌, List, String, Map, ◌==◌, string_eq}
use croissant.Nostr.{NostrLib, PubKey, Timestamp}
use croissant.Groups.{Group, GroupsState}

-- LiveKitSettings
pub record LiveKitSettings : Type 0 where
  pub server_url : String
  pub api_key : String
  pub api_secret : String

-- auth.AccessToken with its VideoGrant. An identity that is not set is empty.
pub record AccessToken : Type 0 where
  pub api_key : String
  pub api_secret : String
  pub room_create : Bool
  pub room_list : Bool
  pub room_admin : Bool
  pub room_join : Bool
  pub room : String
  pub identity : String

-- `rooms` are the keys of livekitRooms; `participants` holds, for each group, its fields
-- LiveKitParticipants and LastLiveKitParticipantsUpdate.
pub record LiveKitState (Db : Type 0) : Type 0 where
  pub state : GroupsState Db
  pub live_kit : LiveKitSettings
  pub base_url : String
  pub rooms : List String
  pub participants : Map String (List PubKey × Timestamp)

-- generateLiveKitServerToken, before ToJWT
abbrev pub server_token : LiveKitSettings → AccessToken
server_token settings = record {
  api_key = settings.api_key;
  api_secret = settings.api_secret;
  room_create = true;
  room_list = true;
  room_admin = true;
  room_join = false;
  room = "";
  identity = "";
}

-- generateLiveKitToken, before ToJWT; `random` is the randomToken(2) of this call.
abbrev pub join_token : NostrLib → LiveKitSettings → String → Group → PubKey → AccessToken
join_token lib settings random group pubkey = record {
  api_key = settings.api_key;
  api_secret = settings.api_secret;
  room_create = false;
  room_list = false;
  room_admin = false;
  room_join = true;
  room = group.id;
  identity = lib.pubkey_hex pubkey ++ (":" ++ random);
}

abbrev pub has_keys : LiveKitSettings → Bool
has_keys settings = not (settings.api_key == "") && not (settings.api_secret == "")

abbrev pub is_configured : LiveKitSettings → Bool
is_configured settings = not (settings.server_url == "") && has_keys settings
