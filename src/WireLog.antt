-- ===== src/WireLog.antt =====
-- wire_log.go: the lines on the terminal for the messages of clients, their connections and requests.
-- Parameters: the formats of fmt, padding to a width included, the JSON of a filter, and
-- nostr.ParseMessage. The clients' messages are logged by the hooks of configureRelay in relay.go.
pub mod Lines
pub mod Requests
use Prim.Native.String.{◌++◌}
use croissant.Base.{
  ℕ, Option, none, some, List, [], ◌∷◌, String, map, ltb, leb, ◌==◌, string_eq, if◌then◌else◌,
}
use croissant.Nostr.{NostrLib, Event, Filter, FoundTag}
use croissant.EventLog.{Format, join_with, concat}

abbrev pub clr_reset : String
clr_reset = "\u{1b}[0m"

abbrev pub clr_dim : String
clr_dim = "\u{1b}[2m"

abbrev pub clr_red : String
clr_red = "\u{1b}[31m"

abbrev pub clr_green : String
clr_green = "\u{1b}[32m"

abbrev pub clr_yellow : String
clr_yellow = "\u{1b}[33m"

abbrev pub clr_cyan : String
clr_cyan = "\u{1b}[36m"

abbrev pub clr_gray : String
clr_gray = "\u{1b}[90m"

abbrev pub clr_bgreen : String
clr_bgreen = "\u{1b}[92m"

abbrev pub clr_byellow : String
clr_byellow = "\u{1b}[93m"

abbrev pub clr_bblue : String
clr_bblue = "\u{1b}[94m"

abbrev pub clr_bmagenta : String
clr_bmagenta = "\u{1b}[95m"

abbrev pub clr_bcyan : String
clr_bcyan = "\u{1b}[96m"

-- The envelopes that the log tells apart.
pub data Envelope : Type 0 where
  event_envelope : Event → Envelope
  req_envelope : String → List Filter → Envelope
  close_envelope : String → Envelope
  auth_envelope : Event → Envelope
  count_envelope : String → Filter → Envelope
  other_envelope : Envelope

-- `pad n s` is %-ns; a filter that MarshalJSON fails on gives the bytes it returns all the same.
module _ (lib : NostrLib) (format : Format) (pad : ℕ → String → String)
    (marshal_json : Filter → String) (parse_message : String → Option Envelope) where
  unfoldable pub wire_trunc : String → ℕ → String
  wire_trunc s n = if leb (format.byte_length s) n then s else format.first_bytes n s ++ "…"

  abbrev pub group_part : Option FoundTag → String
  group_part none = ""
  group_part (some tag) = concat ("  group=" ∷ format.quote tag.value ∷ [])

  abbrev pub content_part : String → String
  content_part c =
      if c == ""
      then ""
      else concat ("  " ∷ clr_dim ∷ format.quote (wire_trunc c 60) ∷ clr_reset ∷ [])

  -- The id and the author of an event, 12 digits of each.
  abbrev pub signed_part : Event → String
  signed_part event = concat (
      "  id="
      ∷ format.first_bytes 12 (lib.id_hex event.id)
      ∷ "  pub="
      ∷ format.first_bytes 12 (lib.pubkey_hex event.pub_key)
      ∷ [])

  -- A line without the newline at its end.
  abbrev pub event_line : String → Event → String
  event_line ip event = concat (
      clr_bgreen
      ∷ "→ EVENT "
      ∷ clr_reset
      ∷ "  "
      ∷ pad 18 ip
      ∷ "  kind="
      ∷ pad 6 (format.show event.kind)
      ∷ signed_part event
      ∷ group_part (lib.find event.tags "h")
      ∷ content_part event.content
      ∷ [])

  abbrev pub req_line : String → String → List Filter → String
  req_line ip subscription_id filters = concat (
      clr_bblue
      ∷ "→ REQ   "
      ∷ clr_reset
      ∷ "  "
      ∷ pad 18 ip
      ∷ "  sub="
      ∷ pad 16 (wire_trunc subscription_id 16)
      ∷ "  "
      ∷ join_with " " (map marshal_json filters)
      ∷ [])

  abbrev pub close_line : String → String → String
  close_line ip subscription_id =
      concat
        (clr_gray ∷ "→ CLOSE " ∷ clr_reset ∷ "  " ∷ pad 18 ip ∷ "  sub=" ∷ subscription_id ∷ [])

  abbrev pub auth_line : String → Event → String
  auth_line ip event =
      concat (clr_bmagenta ∷ "→ AUTH  " ∷ clr_reset ∷ "  " ∷ pad 18 ip ∷ signed_part event ∷ [])

  abbrev pub count_line : String → String → Filter → String
  count_line ip subscription_id filter = concat (
      clr_byellow
      ∷ "→ COUNT "
      ∷ clr_reset
      ∷ "  "
      ∷ pad 18 ip
      ∷ "  sub="
      ∷ pad 16 (wire_trunc subscription_id 16)
      ∷ "  "
      ∷ marshal_json filter
      ∷ [])

  abbrev pub envelope_line : String → String → Envelope → String
  envelope_line ip message (event_envelope event) = event_line ip event
  envelope_line ip message (req_envelope id filters) = req_line ip id filters
  envelope_line ip message (close_envelope id) = close_line ip id
  envelope_line ip message (auth_envelope event) = auth_line ip event
  envelope_line ip message (count_envelope id filter) = count_line ip id filter
  envelope_line ip message other_envelope =
      concat
        (clr_gray ∷ "→ ???   " ∷ clr_reset ∷ "  " ∷ pad 18 ip ∷ "  " ∷ wire_trunc message 100 ∷ [])

  abbrev pub parsed_line : String → String → Option Envelope → String
  parsed_line ip message none = concat (
      clr_gray
      ∷ "  "
      ∷ pad 6 "?"
      ∷ clr_reset
      ∷ "  "
      ∷ pad 18 ip
      ∷ "  "
      ∷ wire_trunc message 100
      ∷ [])
  parsed_line ip message (some envelope) = envelope_line ip message envelope

  unfoldable pub log_wire_message : String → String → String
  unfolding wire_trunc concat join_with
  log_wire_message ip message = parsed_line ip message (parse_message message)

  unfoldable pub log_ws_connect : String → String → String
  unfolding wire_trunc concat
  log_ws_connect ip ua = concat (
      clr_bcyan
      ∷ "● WS    "
      ∷ clr_reset
      ∷ "  "
      ∷ pad 18 ip
      ∷ "  connect"
      ∷ (if ua == "" then "" else concat ("  " ∷ clr_dim ∷ wire_trunc ua 60 ∷ clr_reset ∷ []))
      ∷ [])

  unfoldable pub log_ws_disconnect : String → String
  unfolding concat
  log_ws_disconnect ip =
      concat (clr_gray ∷ "○ WS    " ∷ clr_reset ∷ "  " ∷ pad 18 ip ∷ "  disconnect" ∷ [])

  abbrev pub status_color : ℕ → String
  status_color status =
      if leb 500 status then clr_red else if leb 400 status then clr_yellow else clr_green

  unfoldable pub log_http_request : String → String → String → ℕ → String
  unfolding wire_trunc concat
  log_http_request remote_addr method path status = concat (
      clr_gray
      ∷ "  HTTP  "
      ∷ clr_reset
      ∷ "  "
      ∷ pad 18 remote_addr
      ∷ "  "
      ∷ pad 6 method
      ∷ "  "
      ∷ pad 40 (wire_trunc path 40)
      ∷ "  "
      ∷ status_color status
      ∷ format.show status
      ∷ clr_reset
      ∷ [])

  unfoldable pub log_http_upgrade : String → String → String
  unfolding concat
  log_http_upgrade remote_addr path = concat (
      clr_cyan
      ∷ "  WS↑   "
      ∷ clr_reset
      ∷ "  "
      ∷ pad 18 remote_addr
      ∷ "  "
      ∷ pad 6 "GET"
      ∷ "  "
      ∷ path
      ∷ [])
