-- ===== src/LiveKit/Rooms.antt =====
-- The calls that livekit.go makes of a LiveKit server: ensureLiveKitRoom and listLiveKitParticipants.
-- Parameters: net/url, net/http with ToJWT, and the JSON of the answer.
pub mod Known
pub mod Reported
use Prim.Native.Char.{code}
use Prim.Native.String.{[], ◌∷◌, ◌++◌}
use croissant.Base.{
  ℕ, zero, suc, Bool, true, false, not, ◌&&◌, ◌||◌, Option, none, some, List, String, contains,
  append_unique, ltb, ◌==◌, nat_eq, string_eq, if◌then◌else◌,
}
use croissant.Nostr.{NostrLib, PubKey}
use croissant.Groups.{Group}
use croissant.LiveKit.{LiveKitSettings, AccessToken, LiveKitState, server_token}

pub record Url : Type 0 where
  pub scheme : String
  pub rest : String

-- A POST with a room's name under `key` as its JSON, and with the token's JWT as the bearer.
pub record Call : Type 0 where
  pub url : Url
  pub key : String
  pub room : String
  pub bearer : AccessToken

-- What Do of the http package returns. `identities` are those of the participants in the body, if it is JSON of that form.
pub data Reply : Type 0 where
  no_reply : Reply
  replied : (status : ℕ) (identities : Option (List String)) → Reply

-- `can_send` tells whether NewRequest takes the call.
pub record Http (Net : Type 0) : Type 0 where
  pub parse_url : String → Option Url
  pub can_send : Call → Bool
  pub do_call : Net → Call → Net × Reply

-- strings.Replace(scheme, "ws", "http", 1)
unfoldable pub replace_ws : String → String
replace_ws [] = []
replace_ws (c ∷ []) = c ∷ []
replace_ws (c ∷ d ∷ s) =
    let rest = replace_ws (d ∷ s) in
    if code c == b'w' && code d == b's' then "http" ++ s else c ∷ rest

-- How a call of the server ends: `panics` where the URL does not parse, whose nil is read.
pub data Ended (A : Type 0) : Type 0 where
  panics : Ended A
  fails : Ended A
  returns : A → Ended A

unfoldable pub length : String → ℕ
length [] = 0
length (c ∷ s) = suc (length s)

unfoldable pub take : ℕ → String → String
take zero s = []
take (suc n) [] = []
take (suc n) (c ∷ s) = c ∷ take n s

module _ (lib : NostrLib) where
  abbrev pub add_participant : List PubKey → Option PubKey → List PubKey
  add_participant found none = found
  add_participant found (some pubkey) = append_unique found pubkey

  -- The loop over the participants. Go counts bytes: 64 of them that are not 64 characters are no key.
  unfoldable pub read_participants : List PubKey → List String → List PubKey
  unfolding length take
  read_participants found List.[] = found
  read_participants found (List.◌∷◌ identity more) =
      if ltb (length identity) 64
      then read_participants found more
      else read_participants (add_participant found (lib.pubkey_from_hex (take 64 identity))) more

module _ {Net : Type 0} (http : Http Net) where
  -- The rest of a call once its URL is parsed: none is an error of NewRequest or Do.
  abbrev pub send : Net → Call → Net × Reply
  send net call = if http.can_send call then http.do_call net call else (net, no_reply)

  abbrev pub call_of : LiveKitSettings → String → String → Url → Call
  call_of settings key room u = record {
    url = record u { scheme = replace_ws u.scheme };
    key = key;
    room = room;
    bearer = server_token settings;
  }

  abbrev pub post : LiveKitSettings → String → String → String → Net → Option (Net × Reply)
  post settings method key room net = elim (http.parse_url (settings.server_url ++ method)) [
    | none ↦ none
    | some u ↦ some (send net (call_of settings key room u))
  ]

  abbrev pub room_made :
      List String → String → Option (Net × Reply) → Net → (List String × Net) × Ended Unit
  room_made rooms room none net = ((rooms, net), panics)
  room_made rooms room (some (net', no_reply)) net = ((rooms, net'), fails)
  room_made rooms room (some (net', replied status identities)) net =
      if status == 200 || status == 409
      then ((List.◌∷◌ room rooms, net'), returns tt)
      else ((rooms, net'), fails)

  -- ensureLiveKitRoom: the rooms that are known, and the network.
  unfoldable pub ensure_live_kit_room :
      LiveKitSettings → Group → List String × Net → (List String × Net) × Ended Unit
  unfolding replace_ws
  ensure_live_kit_room settings group (rooms, net) =
      if not group.live_kit
      then ((rooms, net), fails)
      else if contains rooms group.id
      then ((rooms, net), returns tt)
      else room_made rooms group.id
          (post settings "/twirp/livekit.RoomService/CreateRoom" "name" group.id net) net

  abbrev pub participants_of : NostrLib → Option (List String) → Ended (List PubKey)
  participants_of lib none = fails
  participants_of lib (some identities) = returns (read_participants lib List.[] identities)

  abbrev pub listed : NostrLib → Option (Net × Reply) → Net → Net × Ended (List PubKey)
  listed lib none net = (net, panics)
  listed lib (some (net', no_reply)) net = (net', fails)
  listed lib (some (net', replied status identities)) net =
      if status == 200 then (net', participants_of lib identities) else (net', fails)

  unfoldable pub list_live_kit_participants :
      NostrLib → LiveKitSettings → Group → Net → Net × Ended (List PubKey)
  unfolding replace_ws read_participants
  list_live_kit_participants lib settings group net =
      listed lib (post settings "/twirp/livekit.RoomService/ListParticipants" "room" group.id net)
        net
