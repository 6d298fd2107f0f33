-- ===== src/EventLog/Lines.antt =====
-- One line of events.log for one event, as eventlog.go writes it.
use Prim.Native.String.{◌++◌}
use croissant.Base.{
  ℕ, Bool, true, false, not, ◌&&◌, Option, none, some, List, [], ◌∷◌, String, ◌==◌, nat_eq,
  string_eq, if◌then◌else◌, ◌≡◌, refl, ◌⊎◌, inl, inr, Bool-cases, Option-cases, All, load, load-All,
}
use croissant.Nostr.{NostrLib, Event, EventId, PubKey, FoundTag, Tag}
use croissant.Nostr.Kinds
use croissant.EventLog.Plain.{one_line, one_line-append}
use croissant.EventLog.{
  Format, Client, join_with, concat, flags, ellipsis, edited, kind_details, and_part, edits,
  tag_text, chat_kind, nip29_details, head, tail, log_line,
}

abbrev pub Plain : String → Type 0
Plain s = one_line s ≡ true

both : (a b : String) → Plain a → Plain b → Plain (a ++ b)
both a b p q = rw (one_line-append a b, p, q) refl

abbrev PlainPart : Option String → Type 0
PlainPart none = Unit
PlainPart (some part) = Plain part

join_with-Plain :
    (sep : String) (parts : List String) → Plain sep → All Plain parts → Plain (join_with sep parts)
unfolding join_with one_line
join_with-Plain sep [] h k = refl
join_with-Plain sep (p ∷ []) h (k, _) = k
join_with-Plain sep (p ∷ (q ∷ ps)) h (k, ks) =
    both p _ k (both sep _ h (join_with-Plain sep (q ∷ ps) h ks))

pub concat-Plain : (parts : List String) → All Plain parts → Plain (concat parts)
unfolding concat one_line
concat-Plain [] h = refl
concat-Plain (p ∷ ps) (k, h) = both p (concat ps) k (concat-Plain ps h)

-- %q escapes newlines, %d and hexadecimal have none, and a slice of a text has no more than the text.
module _ (lib : NostrLib) (format : Format)
    (quote_plain : (s : String) → one_line (format.quote s) ≡ true)
    (show_plain : (n : ℕ) → one_line (format.show n) ≡ true)
    (first_bytes_plain : (n : ℕ) (s : String)
      → one_line s ≡ true
      → one_line (format.first_bytes n s) ≡ true)
    (id_hex_plain : (id : EventId) → one_line (lib.id_hex id) ≡ true)
    (pubkey_hex_plain : (pk : PubKey) → one_line (lib.pubkey_hex pk) ≡ true) where
  flag-PlainPart : (key : String) → PlainPart (load flags key)
  unfolding one_line
  flag-PlainPart key = elim (Option-cases (load flags key)) [
    | inl other ↦ rw other tt
    | inr (part, found) ↦ rw found (
        load-All (λ k v. Plain v) flags
          (refl, (refl, (refl, (refl, (refl, (refl, (refl, (refl, (refl, tt))))))))) key found)
  ]

  edited-PlainPart : (key value : String) → PlainPart (edited lib format key value)
  unfolding one_line
  edited-PlainPart key value = elim (Bool-cases (key == "name")) [
    | inl name ↦ rw name (concat-Plain _ (refl, (quote_plain value, tt)))
    | inr other ↦ elim (Bool-cases (key == "about")) [
      | inl about ↦
          rw (other, about)
            (concat-Plain _ (refl, (quote_plain (ellipsis lib format 40 value), tt)))
      | inr flagged ↦ rw (other, flagged) (flag-PlainPart key)
    ]
  ]

  and_part-All :
      (part : Option String) (parts : List String)
      → PlainPart part
      → All Plain parts
      → All Plain (and_part lib format part parts)
  and_part-All none parts h k = k
  and_part-All (some part) parts h k = (h, k)

  edits-All : (tags : List Tag) → All Plain (edits lib format tags)
  unfolding edits
  edits-All [] = tt
  edits-All ([] ∷ tags) = edits-All tags
  edits-All ((key ∷ []) ∷ tags) = edits-All tags
  edits-All ((key ∷ value ∷ rest) ∷ tags) =
      and_part-All (edited lib format key value) _ (edited-PlainPart key value) (edits-All tags)

  quoted_tag :
      (label : String) (tag : Option FoundTag)
      → Plain label
      → Plain (tag_text lib format (λ v. concat (label ∷ format.quote v ∷ [])) tag)
  unfolding one_line
  quoted_tag label none h = refl
  quoted_tag label (some tag) h = concat-Plain _ (h, (quote_plain tag.value, tt))

  -- The kinds whose line shows tags as they are.
  abbrev pub ShowsTags : ℕ → Type 0
  ShowsTags kind =
      (kind ≡ Kinds.put_user) ⊎ (kind ≡ Kinds.remove_user) ⊎ (kind ≡ Kinds.delete_event)

  kind_details-All :
      (event : Event)
      → All (λ (kind, text). (¬ ShowsTags kind → Plain text)) (kind_details lib format event)
  unfolding one_line
  kind_details-All event = (
    λ quiet. absurd (quiet (inl refl)),
    (
      λ quiet. absurd (quiet (inr (inl refl))),
      (
        λ quiet.
            concat-Plain _
              (refl, (refl, (join_with-Plain " " _ refl (edits-All event.tags), (refl, tt)))),
        (
          λ quiet. absurd (quiet (inr (inr refl))),
          (
            λ quiet. quoted_tag "new-group=" (lib.find event.tags "h") refl,
            (
              λ quiet. refl,
              (
                λ quiet. quoted_tag "invite-code=" (lib.find event.tags "code") refl,
                (
                  λ quiet.
                      concat-Plain _
                        (refl, (quoted_tag " code=" (lib.find event.tags "code") refl, tt)),
                  (λ quiet. refl, tt),
                ),
              ),
            ),
          ),
        ),
      ),
    ),
  )

  nip29_details-Plain :
      (event : Event) → ¬ ShowsTags event.kind → Plain (nip29_details lib format event)
  unfolding nip29_details one_line
  nip29_details-Plain event quiet = elim (Bool-cases (chat_kind lib format event.kind)) [
    | inl chat ↦ rw chat (
        concat-Plain ("content=" ∷ format.quote (ellipsis lib format 80 event.content) ∷ [])
          (refl, (quote_plain (ellipsis lib format 80 event.content), tt)))
    | inr other ↦ elim (Option-cases (load (kind_details lib format event) event.kind)) [
      | inl unlisted ↦ rw (other, unlisted) refl
      | inr (text, found) ↦
          rw (other, found)
            (load-All (λ kind text. (¬ ShowsTags kind → Plain text)) (kind_details lib format event)
              (kind_details-All event) event.kind found quiet)
    ]
  ]

  tail-All :
      (details : String) (accepted : Bool) (reason : String)
      → Plain details
      → All Plain (tail lib format details accepted reason)
  unfolding one_line
  tail-All details accepted reason h = (shown_details, (shown_reason, tt))
    where
      shown_details : Plain (if details == "" then "" else concat (" " ∷ details ∷ []))
      shown_details = elim (Bool-cases (details == "")) [
        | inl blank ↦ rw blank refl
        | inr filled ↦ rw filled (concat-Plain _ (refl, (h, tt)))
      ]

      shown_reason : Plain (
          if not accepted && not (reason == "")
          then concat (" reason=" ∷ format.quote reason ∷ [])
          else "")
      shown_reason = elim (Bool-cases (not accepted && not (reason == ""))) [
        | inl given ↦ rw given (concat-Plain _ (refl, (quote_plain reason, tt)))
        | inr unsaid ↦ rw unsaid refl
      ]

  head-All :
      (client : Client) (event : Event) (accepted : Bool)
      → Plain client.time
      → Plain client.ip
      → All Plain (head lib format client event accepted)
  unfolding one_line
  head-All client event accepted time ip = (
    time,
    (
      refl,
      (
        status accepted,
        (
          refl,
          (
            show_plain event.kind,
            (
              refl,
              (
                first_bytes_plain 12 _ (id_hex_plain event.id),
                (
                  refl,
                  (
                    first_bytes_plain 12 _ (pubkey_hex_plain event.pub_key),
                    (refl, (quote_plain _, (refl, (ip, (refl, (quote_plain _, tt)))))),
                  ),
                ),
              ),
            ),
          ),
        ),
      ),
    ),
  )
    where
      status : (accepted : Bool) → Plain (if accepted then "ACCEPTED" else "REJECTED")
      status true = refl
      status false = refl

  -- What is logged for an event has no newline, whatever a client puts into the event and the reason,
  -- where the event puts or removes no user and deletes no event: those show values of tags as they are.
  -- The time and the address of the client have no newline.
  pub log_line-Plain :
      (client : Client) (event : Event) (accepted : Bool) (reason : String)
      → one_line client.time ≡ true
      → one_line client.ip ≡ true
      → ¬ ShowsTags event.kind
      → one_line (log_line lib format client event accepted reason) ≡ true
  unfolding log_line
  log_line-Plain client event accepted reason time ip quiet =
      both (concat (head lib format client event accepted))
        (concat (tail lib format (nip29_details lib format event) accepted reason))
        (concat-Plain (head lib format client event accepted)
          (head-All client event accepted time ip))
        (concat-Plain (tail lib format (nip29_details lib format event) accepted reason) (
          tail-All (nip29_details lib format event) accepted reason
            (nip29_details-Plain event quiet)))
