-- ===== src/EventLog.antt =====
-- eventlog.go: the line of events.log for each event that a client publishes. Parameters: the formats of
-- fmt, the clock, and the length and the slices of a text, which Go counts in bytes.
pub mod Plain
pub mod Lines
use Prim.Native.String.{◌++◌}
use croissant.Base.{
  ℕ, Bool, true, false, not, ◌&&◌, ◌||◌, Option, none, some, List, [], ◌∷◌, String, Map, load, map,
  ltb, ◌==◌, nat_eq, string_eq, if◌then◌else◌,
}
use croissant.Nostr.{NostrLib, Event, FoundTag, Tag}
use croissant.Nostr.Kinds

-- %q, %d, len(s) and s[:n].
pub record Format : Type 0 where
  pub quote : String → String
  pub show : ℕ → String
  pub byte_length : String → ℕ
  pub first_bytes : ℕ → String → String

-- strings.Join
unfoldable pub join_with : String → List String → String
join_with sep [] = ""
join_with sep (p ∷ []) = p
join_with sep (p ∷ q ∷ ps) = p ++ (sep ++ join_with sep (q ∷ ps))

-- The pieces of a text that is formatted.
unfoldable pub concat : List String → String
concat [] = ""
concat (p ∷ ps) = p ++ concat ps

-- The client, and the time when the line is written.
pub record Client : Type 0 where
  pub time : String
  pub ip : String
  pub user_agent : String

-- The keys whose value an edit does not show. A switch is a map from its cases.
abbrev pub flags : Map String String
flags =
    ("picture", "picture=set")
    ∷ ("closed", "closed=true")
    ∷ ("open", "closed=false")
    ∷ ("restricted", "restricted=true")
    ∷ ("unrestricted", "restricted=false")
    ∷ ("private", "private=true")
    ∷ ("public", "private=false")
    ∷ ("hidden", "hidden=true")
    ∷ ("visible", "hidden=false")
    ∷ []

module _ (lib : NostrLib) (format : Format) where
  -- if len(s) > n { s = s[:n] }
  abbrev pub shorten : ℕ → String → String
  shorten n s = if ltb n (format.byte_length s) then format.first_bytes n s else s

  abbrev pub ellipsis : ℕ → String → String
  ellipsis n s = if ltb n (format.byte_length s) then format.first_bytes n s ++ "…" else s

  abbrev pub with_roles : String → List String → String
  with_roles entry [] = entry
  with_roles entry (role ∷ roles) = concat (entry ∷ "(" ∷ join_with "," (role ∷ roles) ∷ ")" ∷ [])

  abbrev pub added_user : FoundTag → String
  added_user tag = with_roles (shorten 12 tag.value) tag.rest

  abbrev pub short_value : FoundTag → String
  short_value tag = shorten 12 tag.value

  abbrev pub bracketed : String → List String → String
  bracketed name parts = concat (name ∷ "=[" ∷ join_with " " parts ∷ "]" ∷ [])

  -- What an edit says of a key with a value; a none is a key that it says nothing of.
  abbrev pub edited : String → String → Option String
  edited key value =
      if key == "name"
      then some (concat ("name=" ∷ format.quote value ∷ []))
      else if key == "about"
      then some (concat ("about=" ∷ format.quote (ellipsis 40 value) ∷ []))
      else load flags key

  abbrev pub and_part : Option String → List String → List String
  and_part none parts = parts
  and_part (some part) parts = part ∷ parts

  unfoldable pub edits : List Tag → List String
  edits [] = []
  edits ([] ∷ tags) = edits tags
  edits ((key ∷ []) ∷ tags) = edits tags
  edits ((key ∷ value ∷ rest) ∷ tags) = and_part (edited key value) (edits tags)

  -- The value of the first tag of a key in a text, or nothing.
  abbrev pub tag_text : (String → String) → Option FoundTag → String
  tag_text f none = ""
  tag_text f (some tag) = f tag.value

  abbrev pub chat_kind : ℕ → Bool
  chat_kind kind = kind == 9 || kind == 11 || kind == 10 || kind == 12

  -- The cases of nip29Details that a kind of its own has.
  abbrev pub kind_details : Event → Map ℕ String
  kind_details event =
      (Kinds.put_user, bracketed "add-users" (map added_user (lib.find_all event.tags "p")))
      ∷ (
        Kinds.remove_user,
        bracketed "remove-users" (map short_value (lib.find_all event.tags "p")),
      )
      ∷ (Kinds.edit_metadata, bracketed "edit" (edits event.tags))
      ∷ (
        Kinds.delete_event,
        bracketed "delete-events" (map short_value (lib.find_all event.tags "e")),
      )
      ∷ (
        Kinds.create_group,
        tag_text (λ v. concat ("new-group=" ∷ format.quote v ∷ [])) (lib.find event.tags "h"),
      )
      ∷ (Kinds.delete_group, "delete-group")
      ∷ (
        Kinds.create_invite,
        tag_text (λ v. concat ("invite-code=" ∷ format.quote v ∷ [])) (lib.find event.tags "code"),
      )
      ∷ (
        Kinds.join_request,
        concat (
            "join"
            ∷ tag_text (λ v. concat (" code=" ∷ format.quote v ∷ [])) (lib.find event.tags "code")
            ∷ []),
      )
      ∷ (Kinds.leave_request, "leave")
      ∷ []

  abbrev pub or_empty : Option String → String
  or_empty none = ""
  or_empty (some s) = s

  unfoldable pub nip29_details : Event → String
  unfolding join_with concat edits
  nip29_details event =
      if chat_kind event.kind
      then concat ("content=" ∷ format.quote (ellipsis 80 event.content) ∷ [])
      else or_empty (load (kind_details event) event.kind)

  abbrev pub head : Client → Event → Bool → List String
  head client event accepted =
      client.time
      ∷ " "
      ∷ (if accepted then "ACCEPTED" else "REJECTED")
      ∷ " kind="
      ∷ format.show event.kind
      ∷ " id="
      ∷ format.first_bytes 12 (lib.id_hex event.id)
      ∷ " pubkey="
      ∷ format.first_bytes 12 (lib.pubkey_hex event.pub_key)
      ∷ " group="
      ∷ format.quote (tag_text (λ v. v) (lib.find event.tags "h"))
      ∷ " ip="
      ∷ client.ip
      ∷ " ua="
      ∷ format.quote client.user_agent
      ∷ []

  abbrev pub tail : String → Bool → String → List String
  tail details accepted reason =
      (if details == "" then "" else concat (" " ∷ details ∷ []))
      ∷ (if not accepted && not (reason == "")
          then concat (" reason=" ∷ format.quote reason ∷ [])
          else "")
      ∷ []

  -- The line without the newline at its end.
  unfoldable pub log_line : Client → Event → Bool → String → String
  unfolding concat nip29_details
  log_line client event accepted reason =
      concat (head client event accepted) ++ concat (tail (nip29_details event) accepted reason)

  -- logEvent, on what the file holds; a none is a log that could not be opened.
  unfoldable pub log_event : Option String → Client → Event → Bool → String → Option String
  unfolding log_line
  log_event none client event accepted reason = none
  log_event (some file) client event accepted reason =
      some (file ++ (log_line client event accepted reason ++ "\n"))
