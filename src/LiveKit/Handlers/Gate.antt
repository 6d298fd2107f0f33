-- ===== src/LiveKit/Handlers/Gate.antt =====
-- Who livekitAuthHandler of livekit.go gives a token, and for what.
use croissant.Base.{
  Bool, true, false, Option, some, String, load, ◌==◌, nat_eq, string_eq, ◌≡◌, ◌↔◌, inl, inr, refl,
  sym, ◌∙◌, Bool-cases, Option-cases, List,
}
use croissant.Nostr.{NostrLib, Event, PubKey}
use croissant.Groups.{Group}
use croissant.LiveKit.{AccessToken, LiveKitState, join_token, is_configured}
use croissant.LiveKit.Rooms.{Http, Ended, returns, panics, fails, ensure_live_kit_room}
use croissant.LiveKit.Handlers.{
  token, AuthRequest, passes, check_header, issued, auth_url, livekit_auth_handler,
}
use croissant.LiveKit.Handlers.Header.{Checked-cases, IsProof, Carries, check_header_iff}

module _ (lib : NostrLib) {Bytes : Type 0} (decode_base64 : String → Option Bytes)
    (parse_event : Bytes → Option Event) (verify_signature : Event → Bool) {Net Db : Type 0}
    (http : Http Net) where
  -- Everything that must hold for a token.
  abbrev pub Admits : LiveKitState Db → AuthRequest → Net → String → AccessToken → Type 0
  Admits s r net url t =
      (is_configured s.live_kit ≡ true)
      × ((r.group_id == "") ≡ false)
      × ((group : Group) × (event : Event) × (load s.state.groups r.group_id ≡ some group)
          × (group.live_kit ≡ true)
          × Carries lib decode_base64 parse_event verify_signature r.authorization event
          × IsProof lib decode_base64 parse_event verify_signature (auth_url s r.group_id) event
          × ((ensure_live_kit_room http s.live_kit group (s.rooms, net)).1 ≡ returns tt)
          × (url ≡ s.live_kit.server_url)
          × (t ≡ join_token lib s.live_kit r.random group event.pub_key))

  issued_token :
      (s : LiveKitState Db) (r : AuthRequest) (group : Group) (pk : PubKey)
      (e : (List String × Net) × Ended Unit) {url : String} {t : AccessToken}
      → (issued lib decode_base64 parse_event verify_signature http s r group pk e).1 ≡ token url t
      → (e.1 ≡ returns tt)
        × (url ≡ s.live_kit.server_url)
        × (t ≡ join_token lib s.live_kit r.random group pk)
  issued_token s r group pk ((rooms, net), panics) h = cc
  issued_token s r group pk ((rooms, net), fails) h = cc
  issued_token s r group pk ((rooms, net), returns u) h = (refl, cc, cc)

  token_issued :
      (s : LiveKitState Db) (r : AuthRequest) (group : Group) (pk : PubKey)
      (e : (List String × Net) × Ended Unit)
      → e.1 ≡ returns tt
      → (issued lib decode_base64 parse_event verify_signature http s r group pk e).1
        ≡ token s.live_kit.server_url (join_token lib s.live_kit r.random group pk)
  token_issued s r group pk ((rooms, net), panics) h = cc
  token_issued s r group pk ((rooms, net), fails) h = cc
  token_issued s r group pk ((rooms, net), returns u) h = refl

  -- A token is handed out exactly where LiveKit is configured, the group of the path exists and has calls,
  -- the header carries a signed event of kind 27235 whose tag u is this URL, and the room is
  -- ensured; it then lets the author of the event join the room of this group, and no more. Neither
  -- membership in the group nor the date of the event is asked for.
  pub livekit_auth_handler_iff :
      (s : LiveKitState Db) (r : AuthRequest) (net : Net) (url : String) (t : AccessToken)
      → ((livekit_auth_handler lib decode_base64 parse_event verify_signature http s r net).1
          ≡ token url t)
        ↔ Admits s r net url t
  unfolding livekit_auth_handler
  livekit_auth_handler_iff s r net url t = (
    only,
    λ (
      configured,
      named,
      (group, event, found, calls, carried, proof, ensured, same_url, same_token),
    ).
        let header =
          (check_header_iff lib decode_base64 parse_event verify_signature (auth_url s r.group_id)
              r.authorization event).1
            (carried, proof) in
        rw (same_url, same_token)
          (run group event configured named found header calls
            ∙ token_issued s r group event.pub_key
                (ensure_live_kit_room http s.live_kit group (s.rooms, net)) ensured),
  )
    where
      run :
          (group : Group) (event : Event)
          → is_configured s.live_kit ≡ true
          → (r.group_id == "") ≡ false
          → load s.state.groups r.group_id ≡ some group
          → check_header lib decode_base64 parse_event verify_signature
              (auth_url s r.group_id)
              r.authorization
            ≡ passes event
          → group.live_kit ≡ true
          → (livekit_auth_handler lib decode_base64 parse_event verify_signature http s r net).1
            ≡ (issued lib decode_base64 parse_event verify_signature http s r group event.pub_key
                (ensure_live_kit_room http s.live_kit group (s.rooms, net))).1
      run group event configured named found passed calls =
          rw (configured, named, found, passed) (simp calls)

      only :
          (livekit_auth_handler lib decode_base64 parse_event verify_signature http s r net).1
            ≡ token url t
          → Admits s r net url t
      only h = elim (Bool-cases (is_configured s.live_kit)) [
        | inr bare ↦ cc (rw bare at h)
        | inl configured ↦ elim (Bool-cases (r.group_id == "")) [
          | inl unnamed ↦ cc (rw (configured, unnamed) at h)
          | inr named ↦ elim (Option-cases (load s.state.groups r.group_id)) [
            | inl gone ↦ cc (rw (configured, named, gone) at h)
            | inr (group, found) ↦
                elim (Checked-cases (
                  check_header lib decode_base64 parse_event verify_signature
                    (auth_url s r.group_id) r.authorization)) [
                      | inl (msg, refused) ↦ cc (rw (configured, named, found, refused) at h)
                      | inr (event, passed) ↦ elim (Bool-cases group.live_kit) [
                        | inr silent ↦ cc (rw (configured, named, found, passed, silent) at h)
                        | inl calls ↦
                            let (ensured, same_url, same_token) =
                              issued_token s r group event.pub_key
                                (ensure_live_kit_room http s.live_kit group (s.rooms, net))
                                (sym (run group event configured named found passed calls) ∙ h) in
                            let (carried, proof) =
                              (check_header_iff lib decode_base64 parse_event verify_signature
                                  (auth_url s r.group_id) r.authorization event).0
                                passed in
                            (
                              configured,
                              named,
                              (
                                group, event, found, calls, carried, proof, ensured, same_url,
                                same_token,
                              ),
                            )
                      ]
                    ]
          ]
        ]
      ]
