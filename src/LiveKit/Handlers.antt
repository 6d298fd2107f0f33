-- ===== src/LiveKit/Handlers.antt =====
-- The HTTP handlers of livekit.go: livekitStatusHandler, livekitAuthHandler and livekitWebhookHandler.
-- A none for the state is State == nil; the other two handlers are given a state that is there. Parameters: base64, the JSON form of an event, VerifySignature,
-- ToLiveKitParticipantsEvent, and what randomToken and ReceiveWebhookEvent return for the request.
pub mod Header
pub mod Gate
use Prim.Native.Char.{code}
use Prim.Native.String.{[], ◌∷◌, ◌++◌}
use croissant.Base.{
  ℕ, Bool, true, false, not, Option, none, some, List, String, load, store, ◌==◌, nat_eq, string_eq,
  if◌then◌else◌,
}
use croissant.Nostr.{NostrLib, EventStore, Event, FoundTag, PubKey, Timestamp}
use croissant.Groups.{Group, GroupsState}
use croissant.Process.Phases.{with_signature}
use croissant.LiveKit.{
  LiveKitSettings, AccessToken, LiveKitState, join_token, has_keys, is_configured,
}
use croissant.LiveKit.Rooms.{
  Http, Ended, panics, fails, returns, ensure_live_kit_room, list_live_kit_participants,
}

pub data Response : Type 0 where
  not_found : Response
  no_content : Response
  bad_request : String → Response
  unauthorized : String → Response
  forbidden : String → Response
  server_error : Response
  aborted : Response
  token : (server_url : String) (participant_token : AccessToken) → Response

abbrev pub status_of : LiveKitSettings → Response
status_of settings = if is_configured settings then no_content else not_found

unfoldable pub livekit_status_handler : {Db : Type 0} → Option (LiveKitState Db) → Response
livekit_status_handler none = not_found
livekit_status_handler (some s) = status_of s.live_kit

-- strings.SplitN(s, " ", 2), a none where there is one part.
abbrev pub onto_scheme : Option (String × String) → String → Option (String × String)
onto_scheme none c = none
onto_scheme (some (scheme, rest)) c = some (c ++ scheme, rest)

unfoldable pub split_scheme : String → Option (String × String)
split_scheme [] = none
split_scheme (c ∷ s) =
    let parts = split_scheme s in
    if code c == b' ' then some ("", s) else onto_scheme parts (c ∷ "")

-- The request of livekitAuthHandler: its path value, its header, and the token's random part.
pub record AuthRequest : Type 0 where
  pub group_id : String
  pub authorization : String
  pub random : String

abbrev pub auth_url : {Db : Type 0} → LiveKitState Db → String → String
auth_url s group_id = s.base_url ++ ("/.well-known/nip29/livekit/" ++ group_id)

-- The checks of the header either answer 401 with a message, or let the request pass.
pub data Checked (A : Type 0) : Type 0 where
  refuses : String → Checked A
  passes : A → Checked A

module _ (lib : NostrLib) {Bytes : Type 0} (decode_base64 : String → Option Bytes)
    (parse_event : Bytes → Option Event) (verify_signature : Event → Bool) where
  abbrev pub checked_url : String → Event → Option FoundTag → Checked Event
  checked_url url event none = refuses "invalid u tag"
  checked_url url event (some tag) =
      if tag.value == url then passes event else refuses "invalid u tag"

  abbrev pub checked_event : String → Event → Checked Event
  checked_event url event =
      if not (verify_signature event)
      then refuses "invalid event signature"
      else if not (event.kind == 27235)
      then refuses "invalid event kind"
      else checked_url url event (lib.find event.tags "u")

  abbrev pub checked_json : String → Option Event → Checked Event
  checked_json url none = refuses "invalid event json"
  checked_json url (some event) = checked_event url event

  abbrev pub checked_bytes : String → Option Bytes → Checked Event
  checked_bytes url none = refuses "invalid base64 encoding"
  checked_bytes url (some bytes) = checked_json url (parse_event bytes)

  abbrev pub checked_parts : String → Option (String × String) → Checked Event
  checked_parts url none = refuses "invalid authorization header format"
  checked_parts url (some (scheme, rest)) =
      if not (scheme == "Nostr")
      then refuses "invalid authorization header format"
      else checked_bytes url (decode_base64 rest)

  -- From the header to the signed event in it.
  unfoldable pub check_header : String → String → Checked Event
  unfolding split_scheme
  check_header url header =
      if header == ""
      then refuses "authorization header required"
      else checked_parts url (split_scheme header)

  module _ {Net Db : Type 0} (http : Http Net) where
    abbrev pub issued :
        LiveKitState Db
        → AuthRequest
        → Group
        → PubKey
        → (List String × Net) × Ended Unit
        → (LiveKitState Db × Net) × Response
    issued s r group pk ((rooms, net), panics) = ((record s { rooms = rooms }, net), aborted)
    issued s r group pk ((rooms, net), fails) = ((record s { rooms = rooms }, net), server_error)
    issued s r group pk ((rooms, net), returns _) = (
      (record s { rooms = rooms }, net),
      token s.live_kit.server_url (join_token lib s.live_kit r.random group pk),
    )

    abbrev pub for_event :
        LiveKitState Db
        → AuthRequest
        → Net
        → Group
        → Checked Event
        → (LiveKitState Db × Net) × Response
    for_event s r net group (refuses msg) = ((s, net), unauthorized msg)
    for_event s r net group (passes event) =
        if not group.live_kit
        then ((s, net), forbidden "livekit not enabled for this group")
        else issued s r group event.pub_key
            (ensure_live_kit_room http s.live_kit group (s.rooms, net))

    abbrev pub for_group :
        LiveKitState Db → AuthRequest → Net → Option Group → (LiveKitState Db × Net) × Response
    for_group s r net none = ((s, net), not_found)
    for_group s r net (some group) =
        for_event s r net group (check_header (auth_url s r.group_id) r.authorization)

    unfoldable pub livekit_auth_handler :
        LiveKitState Db → AuthRequest → Net → (LiveKitState Db × Net) × Response
    unfolding check_header ensure_live_kit_room
    livekit_auth_handler s r net =
        if not (is_configured s.live_kit)
        then ((s, net), not_found)
        else if r.group_id == ""
        then ((s, net), bad_request "group id required")
        else for_group s r net (load s.state.groups r.group_id)

-- What ReceiveWebhookEvent returns: a none is its error, `room` is the name, if there is a room.
pub data HookKind : Type 0 where
  participant_joined participant_left other_hook : HookKind

pub record WebhookEvent : Type 0 where
  pub event : HookKind
  pub room : Option String

module _ (lib : NostrLib) {Net Db E : Type 0} (es : EventStore Db E) (http : Http Net)
    (now : Timestamp) (participants_event : Group → List PubKey × Timestamp → Event) where
  -- evt.Sign, ReplaceEvent and BroadcastEvent, whose errors are dropped.
  abbrev pub signed_or_not : Event → Event
  signed_or_not event = elim (lib.sign event) [
    | none ↦ event
    | some signed ↦ with_signature event signed
  ]

  abbrev pub publish : LiveKitState Db → Event → LiveKitState Db
  publish s event = record s {
    state = record s.state {
      db = (es.replace_event s.state.db event).0;
      broadcasts = List.◌∷◌ event s.state.broadcasts;
    };
  }

  abbrev pub set_participants : LiveKitState Db → Group → Ended (List PubKey) → LiveKitState Db
  set_participants s group panics = s
  set_participants s group fails = s
  set_participants s group (returns pubkeys) =
      publish (record s { participants = store s.participants group.id (pubkeys, now) })
        (signed_or_not (participants_event group (pubkeys, now)))

  abbrev pub after_list :
      LiveKitState Db → Group → Net × Ended (List PubKey) → (LiveKitState Db × Net) × Response
  after_list s group (net, ended) = ((set_participants s group ended, net), no_content)

  abbrev pub by_hook : HookKind → LiveKitState Db → Group → Net → (LiveKitState Db × Net) × Response
  by_hook participant_joined s group net =
      after_list s group (list_live_kit_participants http lib s.live_kit group net)
  by_hook participant_left s group net =
      after_list s group (list_live_kit_participants http lib s.live_kit group net)
  by_hook other_hook s group net = ((s, net), no_content)

  abbrev pub for_hook :
      LiveKitState Db → HookKind → Net → Option Group → (LiveKitState Db × Net) × Response
  for_hook s event net none = ((s, net), not_found)
  for_hook s event net (some group) =
      if not group.live_kit
      then ((s, net), forbidden "livekit not enabled for this group")
      else by_hook event s group net

  abbrev pub for_room :
      LiveKitState Db → HookKind → Net → Option String → (LiveKitState Db × Net) × Response
  for_room s event net none = ((s, net), bad_request "missing room")
  for_room s event net (some room) =
      if room == ""
      then ((s, net), bad_request "missing room name")
      else for_hook s event net (load s.state.groups room)

  abbrev pub for_webhook :
      LiveKitState Db → Net → Option WebhookEvent → (LiveKitState Db × Net) × Response
  for_webhook s net none = ((s, net), unauthorized "invalid webhook")
  for_webhook s net (some hook) = for_room s hook.event net hook.room

  unfoldable pub livekit_webhook_handler :
      LiveKitState Db → Option WebhookEvent → Net → (LiveKitState Db × Net) × Response
  unfolding list_live_kit_participants
  livekit_webhook_handler s hook net =
      if not (has_keys s.live_kit) then ((s, net), not_found) else for_webhook s net hook
