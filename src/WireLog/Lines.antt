-- ===== src/WireLog/Lines.antt =====
-- One line of the terminal for what wire_log.go quotes or prints in hexadecimal.
use croissant.Base.{
  ℕ, true, Option, none, some, String, ◌==◌, string_eq, ◌≡◌, refl, ◌⊎◌, inl, inr, Bool-cases,
}
use croissant.Nostr.{NostrLib, Event, EventId, PubKey, Filter, FoundTag}
use croissant.EventLog.{Format}
use croissant.EventLog.Plain.{one_line}
use croissant.EventLog.Lines.{concat-Plain}
use croissant.WireLog.{
  Envelope, event_envelope, auth_envelope, group_part, content_part, signed_part, event_line,
  auth_line, log_wire_message,
}

-- %q escapes newlines, %d and hexadecimal have none, and neither a slice of a text nor its padding adds
-- one.
module _ (lib : NostrLib) (format : Format) (pad : ℕ → String → String)
    (marshal_json : Filter → String) (parse_message : String → Option Envelope)
    (quote_plain : (s : String) → one_line (format.quote s) ≡ true)
    (show_plain : (n : ℕ) → one_line (format.show n) ≡ true)
    (pad_plain : (n : ℕ) (s : String) → one_line s ≡ true → one_line (pad n s) ≡ true)
    (first_bytes_plain : (n : ℕ) (s : String)
      → one_line s ≡ true
      → one_line (format.first_bytes n s) ≡ true)
    (id_hex_plain : (id : EventId) → one_line (lib.id_hex id) ≡ true)
    (pubkey_hex_plain : (pk : PubKey) → one_line (lib.pubkey_hex pk) ≡ true) where
  group_part-Plain :
      (tag : Option FoundTag)
      → one_line (group_part lib format pad marshal_json parse_message tag) ≡ true
  unfolding one_line
  group_part-Plain none = refl
  group_part-Plain (some tag) = concat-Plain _ (refl, (quote_plain tag.value, tt))

  content_part-Plain :
      (c : String) → one_line (content_part lib format pad marshal_json parse_message c) ≡ true
  unfolding one_line
  content_part-Plain c = elim (Bool-cases (c == "")) [
    | inl blank ↦ rw blank refl
    | inr filled ↦ rw filled (concat-Plain _ (refl, (refl, (quote_plain _, (refl, tt)))))
  ]

  signed_part-Plain :
      (event : Event)
      → one_line (signed_part lib format pad marshal_json parse_message event) ≡ true
  unfolding one_line
  signed_part-Plain event = concat-Plain _ (
    refl,
    (
      first_bytes_plain 12 _ (id_hex_plain event.id),
      (refl, (first_bytes_plain 12 _ (pubkey_hex_plain event.pub_key), tt)),
    ),
  )

  event_line-Plain :
      (ip : String) (event : Event)
      → one_line ip ≡ true
      → one_line (event_line lib format pad marshal_json parse_message ip event) ≡ true
  unfolding one_line
  event_line-Plain ip event plain = concat-Plain _ (
    refl,
    (
      refl,
      (
        refl,
        (
          refl,
          (
            pad_plain 18 ip plain,
            (
              refl,
              (
                pad_plain 6 _ (show_plain event.kind),
                (
                  signed_part-Plain event,
                  (
                    group_part-Plain (lib.find event.tags "h"),
                    (content_part-Plain event.content, tt),
                  ),
                ),
              ),
            ),
          ),
        ),
      ),
    ),
  )

  auth_line-Plain :
      (ip : String) (event : Event)
      → one_line ip ≡ true
      → one_line (auth_line lib format pad marshal_json parse_message ip event) ≡ true
  unfolding one_line
  auth_line-Plain ip event plain =
      concat-Plain _
        (refl, (refl, (refl, (refl, (pad_plain 18 ip plain, (signed_part-Plain event, tt))))))

  -- A message that is read as an event, or as the event of an AUTH, is logged as one line, whatever the
  -- event holds. The address of the client has no newline.
  pub log_wire_message-Plain :
      (ip message : String) (event : Event) (envelope : Envelope)
      → parse_message message ≡ some envelope
      → (envelope ≡ event_envelope event) ⊎ (envelope ≡ auth_envelope event)
      → one_line ip ≡ true
      → one_line (log_wire_message lib format pad marshal_json parse_message ip message) ≡ true
  unfolding log_wire_message
  log_wire_message-Plain ip message event envelope parsed (inl is_event) plain =
      rw (parsed, is_event) (event_line-Plain ip event plain)
  log_wire_message-Plain ip message event envelope parsed (inr is_auth) plain =
      rw (parsed, is_auth) (auth_line-Plain ip event plain)
