-- ===== src/LiveKit/Handlers/Header.antt =====
-- The event in the Authorization header that livekitAuthHandler of livekit.go lets pass.
use croissant.Base.{
  Bool, true, Option, none, some, String, ◌==◌, nat_eq, string_eq, ◌≡◌, ◌↔◌, ◌⊎◌, inl, inr, refl,
  sym, ◌∙◌, ap, subst, Bool-cases, Option-cases, eq_of_beq, eq_self,
}
use croissant.Nostr.{NostrLib, Event, FoundTag}
use croissant.LiveKit.Handlers.{
  split_scheme, Checked, refuses, passes, checked_event, checked_parts, check_header,
}

pub Checked-cases :
    (c : Checked Event) → ((msg : String) × (c ≡ refuses msg)) ⊎ ((e : Event) × (c ≡ passes e))
Checked-cases (refuses msg) = inl (msg, refl)
Checked-cases (passes e) = inr (e, refl)

split_blank :
    (header : String) {parts : String × String}
    → (header == "") ≡ true
    → split_scheme header ≡ some parts
    → ⊥
unfolding split_scheme
split_blank header {parts} blank h =
    let none_there : none ≡ some parts = ap split_scheme (sym (eq_of_beq header "" blank)) ∙ h in
    cc none_there

module _ (lib : NostrLib) {Bytes : Type 0} (decode_base64 : String → Option Bytes)
    (parse_event : Bytes → Option Event) (verify_signature : Event → Bool) where
  -- A signed event of the right kind, for the URL.
  abbrev pub IsProof : String → Event → Type 0
  IsProof url event =
      (verify_signature event ≡ true)
      × (event.kind ≡ 27235)
      × ((tag : FoundTag) × (lib.find event.tags "u" ≡ some tag) × (tag.value ≡ url))

  -- The event in the header: after "Nostr" and a space, in base64.
  abbrev pub Carries : String → Event → Type 0
  Carries header event =
      (rest : String) × (bytes : Bytes) × (split_scheme header ≡ some ("Nostr", rest))
      × (decode_base64 rest ≡ some bytes)
      × (parse_event bytes ≡ some event)

  checked_event-IsProof :
      (url : String) (event : Event) {e : Event}
      → checked_event lib decode_base64 parse_event verify_signature url event ≡ passes e
      → IsProof url event × (event ≡ e)
  checked_event-IsProof url event h = elim (Bool-cases (verify_signature event)) [
    | inr unsigned ↦ cc (rw unsigned at h)
    | inl signed ↦ elim (Bool-cases (event.kind == 27235)) [
      | inr other ↦ cc (rw (signed, other) at h)
      | inl kind ↦ elim (Option-cases (lib.find event.tags "u")) [
        | inl missing ↦ cc (rw (signed, kind, missing) at h)
        | inr (tag, found) ↦ elim (Bool-cases (tag.value == url)) [
          | inr other ↦ cc (rw (signed, kind, found, other) at h)
          | inl same ↦ (
            (signed, eq_of_beq _ _ kind, (tag, found, eq_of_beq _ _ same)),
            cc (rw (signed, kind, found, same) at h),
          )
        ]
      ]
    ]
  ]

  event_of_proof :
      (url : String) (event : Event)
      → IsProof url event
      → checked_event lib decode_base64 parse_event verify_signature url event ≡ passes event
  event_of_proof url event (signed, kind, (tag, found, same)) =
      let right_kind : (event.kind == 27235) ≡ true = ap (λ k. k == 27235) kind in
      let right_url : (tag.value == url) ≡ true = rw same (eq_self url) in
      rw (signed, right_kind, found, right_url)

  checked_parts-IsProof :
      (url header : String) (parts : Option (String × String)) {e : Event}
      → split_scheme header ≡ parts
      → checked_parts lib decode_base64 parse_event verify_signature url parts ≡ passes e
      → Carries header e × IsProof url e
  checked_parts-IsProof url header none split h = cc
  checked_parts-IsProof url header (some (scheme, rest)) split h =
      elim (Bool-cases (scheme == "Nostr")) [
        | inr other ↦ cc (rw other at h)
        | inl nostr ↦ elim (Option-cases (decode_base64 rest)) [
          | inl bad ↦ cc (rw (nostr, bad) at h)
          | inr (bytes, decoded) ↦ elim (Option-cases (parse_event bytes)) [
            | inl bad ↦ cc (rw (nostr, decoded, bad) at h)
            | inr (event, parsed) ↦
                let (proof, same) =
                  checked_event-IsProof url event (rw (nostr, decoded, parsed) at h) in
                (
                  (
                    rest,
                    bytes,
                    split ∙ ap (λ s. some (s, rest)) (eq_of_beq _ _ nostr),
                    decoded,
                    parsed ∙ ap some same,
                  ),
                  subst (IsProof url) same proof,
                )
          ]
        ]
      ]

  pub check_header_iff :
      (url header : String) (event : Event)
      → (check_header lib decode_base64 parse_event verify_signature url header ≡ passes event)
        ↔ (Carries header event × IsProof url event)
  unfolding check_header
  check_header_iff url header event = (
    λ h. elim (Bool-cases (header == "")) [
      | inl blank ↦ cc (rw blank at h)
      | inr filled ↦ checked_parts-IsProof url header (split_scheme header) refl (rw filled at h)
    ],
    λ ((rest, bytes, split, decoded, parsed), proof). elim (Bool-cases (header == "")) [
      | inl blank ↦ absurd (split_blank header blank split)
      | inr filled ↦ rw (filled, split, decoded, parsed, event_of_proof url event proof) refl
    ],
  )
