-- ===== src/Config/Login/Gate.antt =====
-- Who GetLoggedUser of global/auth.go takes a request for.
use croissant.Base.{
  Bool, true, false, Option, none, some, String, ◌==◌, nat_eq, string_eq, ◌≡◌, refl, ◌↔◌, inl, inr,
  ap, Bool-cases, Option-cases, eq_of_beq, eq_self,
}
use croissant.Nostr.{NostrLib, Event, FoundTag, PubKey}
use croissant.Config.Login.{Request, get_logged_user, cookie_user, event_user, expected_domain}

module _ (lib : NostrLib) {Bytes : Type 0} (decode_base64 : String → Option Bytes)
    (parse_event : Bytes → Option Event) (verify_signature : Event → Bool) (domain : String) where
  -- An event that proves who somebody is, on this domain.
  abbrev pub IsLogin : Request → Event → Type 0
  IsLogin r evt =
      (evt.kind ≡ 27235)
      × ((tag : FoundTag) × (lib.find evt.tags "domain" ≡ some tag)
          × (tag.value ≡ expected_domain domain r))
      × (verify_signature evt ≡ true)

  -- The event in the cookie.
  abbrev pub Carries : Request → Event → Type 0
  Carries r evt =
      (value : String) × (bytes : Bytes) × (r.cookie ≡ some value)
      × ((value == "") ≡ false)
      × (decode_base64 value ≡ some bytes)
      × (parse_event bytes ≡ some evt)

  event_user-IsLogin :
      (r : Request) (evt : Event) {pk : PubKey}
      → event_user lib decode_base64 parse_event verify_signature domain r (some evt) ≡ some pk
      → IsLogin r evt × (evt.pub_key ≡ pk)
  event_user-IsLogin r evt h = elim (Bool-cases (evt.kind == 27235)) [
    | inr other ↦ cc (rw other at h)
    | inl kind ↦ elim (Option-cases (lib.find evt.tags "domain")) [
      | inl missing ↦ cc (rw (kind, missing) at h)
      | inr (tag, found) ↦ elim (Bool-cases (tag.value == expected_domain domain r)) [
        | inr other ↦ cc (rw (kind, found, other) at h)
        | inl same ↦ elim (Bool-cases (verify_signature evt)) [
          | inr unsigned ↦ cc (rw (kind, found, same, unsigned) at h)
          | inl signed ↦ (
            (eq_of_beq _ _ kind, (tag, found, eq_of_beq _ _ same), signed),
            cc (rw (kind, found, same, signed) at h),
          )
        ]
      ]
    ]
  ]

  event_of_login :
      (r : Request) (evt : Event)
      → IsLogin r evt
      → event_user lib decode_base64 parse_event verify_signature domain r (some evt)
        ≡ some evt.pub_key
  event_of_login r evt (kind, (tag, found, same), signed) =
      let right_kind : (evt.kind == 27235) ≡ true = ap (λ k. k == 27235) kind in
      let right_domain : (tag.value == expected_domain domain r) ≡ true =
        rw same (eq_self (expected_domain domain r)) in
      rw (right_kind, found, right_domain, signed)

  carried :
      (r : Request) (cookie : Option String) {pk : PubKey}
      → r.cookie ≡ cookie
      → cookie_user lib decode_base64 parse_event verify_signature domain r cookie ≡ some pk
      → (evt : Event) × Carries r evt × IsLogin r evt × (evt.pub_key ≡ pk)
  carried r none here h = cc
  carried r (some value) here h = elim (Bool-cases (value == "")) [
    | inl blank ↦ cc (rw blank at h)
    | inr filled ↦ elim (Option-cases (decode_base64 value)) [
      | inl bad ↦ cc (rw (filled, bad) at h)
      | inr (bytes, decoded) ↦ elim (Option-cases (parse_event bytes)) [
        | inl bad ↦ cc (rw (filled, decoded, bad) at h)
        | inr (evt, parsed) ↦
            let (login, same) = event_user-IsLogin r evt (rw (filled, decoded, parsed) at h) in
            (evt, (value, bytes, here, filled, decoded, parsed), login, same)
      ]
    ]
  ]

  -- The user a request is logged in as is the author of the event in its cookie, which has the kind
  -- 27235, a domain tag for the configured domain (or the host of the request, where none is
  -- configured) and a valid signature; without such an event there is none.
  pub get_logged_user_iff :
      (r : Request) (pk : PubKey)
      → (get_logged_user lib decode_base64 parse_event verify_signature domain r ≡ some pk)
        ↔ ((evt : Event) × Carries r evt × IsLogin r evt × (evt.pub_key ≡ pk))
  unfolding get_logged_user
  get_logged_user_iff r pk = (
    λ h. carried r r.cookie refl h,
    λ (evt, (value, bytes, cookie, filled, decoded, parsed), login, same).
        rw (cookie, filled, decoded, parsed, event_of_login r evt login) (ap some same),
  )
