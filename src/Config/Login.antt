-- ===== src/Config/Login.antt =====
-- global/auth.go: who a request is logged in as, and the key that the configuration names as the owner.
-- Parameters: base64, the JSON form of an event, VerifySignature, nip19.Decode, the configured domain.
pub mod Gate
use croissant.Base.{
  ℕ, Bool, true, false, not, Option, none, some, String, ◌==◌, nat_eq, string_eq, if◌then◌else◌,
}
use croissant.Nostr.{NostrLib, Event, FoundTag, PubKey}
use croissant.Text.{trim_space}

-- What the handler reads of an http.Request; `cookie` is the value of the cookie nip98.
pub record Request : Type 0 where
  pub cookie : Option String
  pub host : String

-- What a nip19 code decodes to.
pub data Pointer : Type 0 where
  npub : PubKey → Pointer
  nprofile : PubKey → Pointer
  other_pointer : Pointer

abbrev pub expected_domain : String → Request → String
expected_domain domain r = if domain == "" then r.host else domain

module _ (lib : NostrLib) {Bytes : Type 0} (decode_base64 : String → Option Bytes)
    (parse_event : Bytes → Option Event) (verify_signature : Event → Bool) (domain : String) where
  abbrev pub right_domain : Request → Event → Option FoundTag → Option PubKey
  right_domain r evt none = none
  right_domain r evt (some tag) =
      if not (tag.value == expected_domain domain r)
      then none
      else if not (verify_signature evt)
      then none
      else some evt.pub_key

  abbrev pub event_user : Request → Option Event → Option PubKey
  event_user r none = none
  event_user r (some evt) =
      if not (evt.kind == 27235) then none else right_domain r evt (lib.find evt.tags "domain")

  abbrev pub decoded_user : Request → Option Bytes → Option PubKey
  decoded_user r none = none
  decoded_user r (some bytes) = event_user r (parse_event bytes)

  abbrev pub cookie_user : Request → Option String → Option PubKey
  cookie_user r none = none
  cookie_user r (some value) = if value == "" then none else decoded_user r (decode_base64 value)

  -- GetLoggedUser: a none is (ZeroPK, false).
  unfoldable pub get_logged_user : Request → Option PubKey
  get_logged_user r = cookie_user r r.cookie

module _ (decode_nip19 : String → Option Pointer) (pubkey_from_hex : String → Option PubKey) where
  abbrev pub decoded_key : String → Option Pointer → Option PubKey
  decoded_key input none = pubkey_from_hex input
  decoded_key input (some (npub pk)) = some pk
  decoded_key input (some (nprofile pk)) = some pk
  decoded_key input (some other_pointer) = pubkey_from_hex input

  unfoldable pub pub_key_from_input : String → Option PubKey
  unfolding trim_space
  pub_key_from_input input =
      let trimmed = trim_space input in
      if trimmed == "" then none else decoded_key trimmed (decode_nip19 trimmed)
