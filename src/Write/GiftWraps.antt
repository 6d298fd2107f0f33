-- ===== src/Write/GiftWraps.antt =====
-- rejectGiftWrapEvent of giftwrap.go.
use croissant.Base.{
  Bool, true, false, Option, none, some, List, [], ◌∷◌, is_empty, if◌then◌else◌, ◌≡◌, refl, ◌↔◌,
  All, Option-cases, inl, inr, Bool-cases, ◌⊎◌, ap,
}
use croissant.Nostr.{NostrLib, PubKey, Event, FoundTag}
use croissant.Verdict.{Verdict, accept, reject}
use croissant.Write.Presence.{Settings, Lru, Caches, Pool, gift_wrap, has_presence}

module _ (lib : NostrLib) {C : Type 0} (lru : Lru C) (settings : Settings) (pool : Pool) where
  pub data Recipients : Type 0 where
    bad_recipient : Caches C → Recipients
    recipients : Bool → Caches C → Recipients

  -- !receiverPresent && hasPresence(…): no lookup once a recipient was found present.
  abbrev look : Bool → PubKey → Caches C → Bool × Caches C
  look true recipient caches = (true, caches)
  look false recipient caches = has_presence lru settings pool caches recipient gift_wrap

  -- The loop over the p tags; FindAll returns tags with a value only.
  unfoldable pub check_recipients : List FoundTag → Bool → Caches C → Recipients
  check_recipients [] receiver_present caches = recipients receiver_present caches
  check_recipients (ptag ∷ ptags) receiver_present caches = elim (lib.pubkey_from_hex ptag.value) [
    | none ↦ bad_recipient caches
    | some recipient ↦
        let (present, caches') = look receiver_present recipient caches in
        check_recipients ptags present caches'
  ]

  abbrev check_sender : Option PubKey → Caches C → Verdict × Caches C
  check_sender none caches = (reject "auth-required: sender must authenticate", caches)
  check_sender (some authed) caches =
      let (present, caches') = has_presence lru settings pool caches authed gift_wrap in
      if present
      then (accept, caches')
      else (reject "restricted: sender not in presence relays", caches')

  abbrev after_recipients : Option PubKey → Recipients → Verdict × Caches C
  after_recipients authed (bad_recipient caches) = (reject "invalid recipient pubkey", caches)
  after_recipients authed (recipients receiver_present caches) =
      if is_empty settings.sender_presence_relays
      then (accept, caches)
      else check_sender authed caches

  unfoldable pub reject_gift_wrap_event : Option PubKey → Event → Caches C → Verdict × Caches C
  unfolding check_recipients
  reject_gift_wrap_event authed event caches =
      if settings.gift_wraps_enabled
      then after_recipients authed (check_recipients (lib.find_all event.tags "p") false caches)
      else (reject "blocked: gift-wraps are disabled", caches)

  -- Every p tag holds a public key.
  abbrev pub AllKeys : List FoundTag → Type 0
  AllKeys = All λ tag. (pk : PubKey) × (lib.pubkey_from_hex tag.value ≡ some pk)

  abbrev pub are_recipients : Recipients → Bool
  are_recipients (bad_recipient caches) = false
  are_recipients (recipients present caches) = true

  check_recipients_iff :
      (ptags : List FoundTag) (present : Bool) (caches : Caches C)
      → (are_recipients (check_recipients ptags present caches) ≡ true) ↔ AllKeys ptags
  unfolding check_recipients
  check_recipients_iff [] present caches = (λ h. tt, λ h. refl)
  check_recipients_iff (tag ∷ ptags) present caches =
      elim (Option-cases (lib.pubkey_from_hex tag.value)) [
        | inl none_there ↦ (
          λ h. cc (rw (none_there, check_recipients, are_recipients) at h),
          λ h. cc (h.0.1, none_there),
        )
        | inr (pk, key) ↦
            let (p, c) = look present pk caches in
            (
              λ h. (
                (pk, key),
                (check_recipients_iff ptags p c).0
                    (rw (key, check_recipients, are_recipients) at h),
              ),
              λ h.
                  rw (key, check_recipients, are_recipients)
                    ((check_recipients_iff ptags p c).1 h.1),
            )
      ]

  -- The presence caches after the loop over the p tags.
  abbrev pub caches_after : Recipients → Caches C
  caches_after (bad_recipient caches) = caches
  caches_after (recipients present caches) = caches

  -- Senders need no presence, or the client has authenticated with a key that is present.
  abbrev pub SenderPasses : Option PubKey → Caches C → Type 0
  SenderPasses authed caches =
      (is_empty settings.sender_presence_relays ≡ true)
      ⊎ ((sender : PubKey) × (authed ≡ some sender)
          × ((has_presence lru settings pool caches sender gift_wrap).0 ≡ true))

  check_sender_iff :
      (authed : Option PubKey) (caches : Caches C)
      → is_empty settings.sender_presence_relays ≡ false
      → ((check_sender authed caches).0 ≡ accept) ↔ SenderPasses authed caches
  check_sender_iff none caches gated =
      (λ h. cc, λ h. elim h [ inl free ↦ cc (free, gated) | inr (pk, e, _) ↦ cc e ])
  check_sender_iff (some authed) caches gated =
      elim (Bool-cases (has_presence lru settings pool caches authed gift_wrap).0) [
        | inl present ↦ (λ h. inr (authed, refl, present), λ h. rw present refl)
        | inr absent ↦ (
          λ h. cc (rw absent at h),
          λ h. elim h [
            | inl free ↦ cc (free, gated)
            | inr (sender, same, present) ↦
                let e : authed ≡ sender = cc same in
                cc (ap (λ pk. (has_presence lru settings pool caches pk gift_wrap).0) e, present)
          ],
        )
      ]

  after_recipients_iff :
      (authed : Option PubKey) (r : Recipients)
      → ((after_recipients authed r).0 ≡ accept)
        ↔ ((are_recipients r ≡ true) × SenderPasses authed (caches_after r))
  after_recipients_iff authed (bad_recipient caches) = (λ h. cc, λ h. cc (h.0))
  after_recipients_iff authed (recipients present caches) =
      elim (Bool-cases (is_empty settings.sender_presence_relays)) [
        | inl free ↦ (λ h. (refl, inl free), λ h. rw free refl)
        | inr gated ↦
            let sender = check_sender_iff authed caches gated in
            (λ h. (refl, sender.0 (rw gated at h)), λ h. rw gated (sender.1 h.1))
      ]

  -- A gift-wrap is let through exactly when gift-wraps are turned on, every p tag holds a public key,
  -- and senders need no presence, or the client has authenticated with a key that is found present
  -- once the recipients have been looked up. Whether a recipient is present is not asked.
  pub reject_gift_wrap_event_iff :
      (authed : Option PubKey) (event : Event) (caches : Caches C)
      → let looked_up = check_recipients (lib.find_all event.tags "p") false caches in
        ((reject_gift_wrap_event authed event caches).0 ≡ accept) ↔ (
          (settings.gift_wraps_enabled ≡ true)
          × AllKeys (lib.find_all event.tags "p")
          × SenderPasses authed (caches_after looked_up))
  unfolding reject_gift_wrap_event
  reject_gift_wrap_event_iff authed event caches =
      let r = check_recipients (lib.find_all event.tags "p") false caches in
      let keys = check_recipients_iff (lib.find_all event.tags "p") false caches in
      let after = after_recipients_iff authed r in
      elim (Bool-cases settings.gift_wraps_enabled) [
        | inl on ↦ (
          λ h. let (all, sender) = after.0 (simp on at h) in (on, keys.0 all, sender),
          λ (_, all, sender). simp on (after.1 (keys.1 all, sender)),
        )
        | inr off ↦ (λ h. cc (rw off at h), λ h. cc (h.0, off))
      ]
