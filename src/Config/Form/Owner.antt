-- ===== src/Config/Form/Owner.antt =====
-- Who changes the settings of global/settings.go through the form, and what the form leaves alone.
use croissant.Base.{
  Bool, true, false, Option, none, some, String, ◌==◌, nat_eq, string_eq, ◌≡◌, ◌⊎◌, inl, inr, refl,
  sym, ap, subst, Bool-cases, eq_of_beq,
}
use croissant.Nostr.{PubKey}
use croissant.Text.{trim_space}
use croissant.Config.{ℤ, RelaySettings}
use croissant.Config.Limits.{parse_int, configure_group_create_rate_limit}
use croissant.Config.Limits.Bounds.{IsCount, parse_int-IsCount}
use croissant.Config.Form.{
  Form, Server, Reply, redirected, reset_failed, Numbers, numbers, bad_field, with_tokens,
  read_numbers, updated_settings, or_default, saved, with_numbers, settings_handler,
}

-- The limits are counts, and there is a directory for the blobs.
abbrev pub IsSound : RelaySettings → Type 0
IsSound s =
    IsCount s.groups.create_group_rate_limit.tokens_per_interval
    × IsCount s.groups.create_group_rate_limit.interval_seconds
    × IsCount s.groups.create_group_rate_limit.max_tokens
    × ((s.blossom.local_path == "") ≡ false)

-- What the form does not set: the keys and the LiveKit server.
abbrev pub SameKeys : RelaySettings → RelaySettings → Type 0
SameKeys s s' =
    (s'.relay_secret_key ≡ s.relay_secret_key)
    × (s'.owner_pub_key ≡ s.owner_pub_key)
    × (s'.groups.live_kit_server_url ≡ s.groups.live_kit_server_url)
    × (s'.groups.live_kit_api_key ≡ s.groups.live_kit_api_key)
    × (s'.groups.live_kit_api_secret ≡ s.groups.live_kit_api_secret)

-- The reply of a handler that has applied the settings.
abbrev pub is_applied : Reply → Bool
is_applied redirected = true
is_applied reset_failed = true
is_applied _ = false

Numbers-cases :
    (n : Numbers) → ((msg : String) × (n ≡ bad_field msg)) ⊎ ((t i m : ℤ) × (n ≡ numbers t i m))
Numbers-cases (bad_field msg) = inl (msg, refl)
Numbers-cases (numbers t i m) = inr (t, i, m, refl)

-- The numbers are those of the three fields.
with_tokens-numbers :
    (a b c : Option ℤ) {t i m : ℤ}
    → with_tokens a b c ≡ numbers t i m
    → (a ≡ some t) × (b ≡ some i) × (c ≡ some m)
with_tokens-numbers none b c h = cc
with_tokens-numbers (some t) none c h = cc
with_tokens-numbers (some t) (some i) none h = cc
with_tokens-numbers (some t) (some i) (some m) h = (cc, cc, cc)

parsed-IsCount :
    (value : String) (current : ℤ) {z : ℤ}
    → IsCount current
    → parse_int value current ≡ some z
    → IsCount z
parsed-IsCount value current {z} now h = elim (parse_int-IsCount value current z h) [
  | inl (blank, same) ↦ subst IsCount (sym same) now
  | inr (filled, fits) ↦ fits
]

read_numbers-IsCount :
    (form : Form) (s : RelaySettings) {t i m : ℤ}
    → IsSound s
    → read_numbers form s ≡ numbers t i m
    → IsCount t × IsCount i × IsCount m
unfolding read_numbers
read_numbers-IsCount form s (t, i, m, p) h =
    let (a, b, c) = with_tokens-numbers _ _ _ h in
    (
      parsed-IsCount (form.form_value "group_create_rate_tokens_per_interval") _ t a,
      parsed-IsCount (form.form_value "group_create_rate_interval_seconds") _ i b,
      parsed-IsCount (form.form_value "group_create_rate_max_tokens") _ m c,
    )

filled_path : (path : String) → (or_default path == "") ≡ false
filled_path path = elim (Bool-cases (path == "")) [
  | inl blank ↦ rw blank refl
  | inr filled ↦ rw (filled, filled)
]

updated-IsSound :
    (form : Form) (s : RelaySettings) {t i m : ℤ}
    → IsSound s
    → read_numbers form s ≡ numbers t i m
    → IsSound (updated_settings form s t i m)
unfolding updated_settings
updated-IsSound form s {t} {i} {m} sound read =
    let (a, b, c) = read_numbers-IsCount form s sound read in
    (a, b, c, filled_path (trim_space (form.form_value "blossom_local_path")))

module _ {Files : Type 0} (save : Files → RelaySettings → Files × Bool)
    (reset_relay : Option (RelaySettings → Bool)) where
  -- Nothing but the file changes.
  abbrev pub Refused : Server Files → Server Files × Reply → Type 0
  Refused server (server', reply) =
      (server'.settings ≡ server.settings)
      × (server'.limiter ≡ server.limiter)
      × (is_applied reply ≡ false)

  -- The settings are those of the form, are in the file, and the limiter is theirs.
  abbrev pub Applied : Form → Server Files → Server Files × Reply → Type 0
  Applied form server (server', reply) =
      ((t i m : ℤ) × (read_numbers form server.settings ≡ numbers t i m)
        × (server'.settings ≡ updated_settings form server.settings t i m))
      × (save server.files server'.settings ≡ (server'.files, true))
      × (server'.limiter
          ≡ configure_group_create_rate_limit server'.settings.groups.create_group_rate_limit)

  saved-Outcome :
      (form : Form) (server : Server Files) (t i m : ℤ) (r : Files × Bool)
      → read_numbers form server.settings ≡ numbers t i m
      → save server.files (updated_settings form server.settings t i m) ≡ r
      → let res = saved save reset_relay server (updated_settings form server.settings t i m) r in
        Refused server res ⊎ Applied form server res
  saved-Outcome form server t i m (files, false) h e = inl (refl, refl, refl)
  saved-Outcome form server t i m (files, true) h e = inr ((t, i, m, h, refl), e, refl)

  with_numbers-Outcome :
      (form : Form) (server : Server Files) (n : Numbers)
      → read_numbers form server.settings ≡ n
      → let res = with_numbers save reset_relay form server n in
        Refused server res ⊎ Applied form server res
  with_numbers-Outcome form server (bad_field msg) h = inl (refl, refl, refl)
  with_numbers-Outcome form server (numbers t i m) h =
      saved-Outcome form server t i m
        (save server.files (updated_settings form server.settings t i m)) h refl

  -- The owner's form, read.
  owner_form :
      (pk : PubKey) (form : Form) (server : Server Files)
      → (pk == server.settings.owner_pub_key) ≡ true
      → form.is_valid ≡ true
      → settings_handler save reset_relay (some pk) form server
        ≡ with_numbers save reset_relay form server (read_numbers form server.settings)
  unfolding settings_handler
  owner_form pk form server owner valid = simp (owner, valid)

  abbrev Outcome : Option PubKey → Form → Server Files → Server Files × Reply → Type 0
  Outcome logged form server res =
      Refused server res
      ⊎ ((logged ≡ some server.settings.owner_pub_key)
          × (form.is_valid ≡ true)
          × Applied form server res)

  settings_handler-Outcome :
      (logged : Option PubKey) (form : Form) (server : Server Files)
      → Outcome logged form server (settings_handler save reset_relay logged form server)
  unfolding settings_handler
  settings_handler-Outcome none form server = inl (refl, refl, refl)
  settings_handler-Outcome (some pk) form server =
      elim (Bool-cases (pk == server.settings.owner_pub_key)) [
        | inr other ↦ rw other (inl (refl, refl, refl))
        | inl owner ↦ elim (Bool-cases form.is_valid) [
          | inr bad ↦ rw (owner, bad) (inl (refl, refl, refl))
          | inl valid ↦
              subst (Outcome (some pk) form server) (sym (owner_form pk form server owner valid))
                (elim (with_numbers-Outcome form server (read_numbers form server.settings) refl) [
                  | inl refused ↦ inl refused
                  | inr applied ↦ inr (ap some (eq_of_beq _ _ owner), valid, applied)
                ])
        ]
      ]

  Applied-SameKeys :
      (form : Form) (server : Server Files) (res : Server Files × Reply)
      → Applied form server res
      → SameKeys server.settings res.0.settings
  unfolding updated_settings
  Applied-SameKeys form server (server', reply) ((t, i, m, read, same), on_disk, limited) =
      rw same (refl, refl, refl, refl, refl)

  -- The form keeps the limits counts (not negative, below 2^63) and the directory of the blobs named.
  settings_handler-IsSound :
      (logged : Option PubKey) (form : Form) (server : Server Files)
      → IsSound server.settings
      → IsSound (settings_handler save reset_relay logged form server).0.settings
  settings_handler-IsSound logged form server sound =
      elim (settings_handler-Outcome logged form server) [
        | inl (same, limited, reply) ↦ subst IsSound (sym same) sound
        | inr (owner, valid, ((t, i, m, read, same), on_disk, limited)) ↦
            subst IsSound (sym same) (updated-IsSound form server.settings sound read)
      ]

  -- The form changes the settings and the limiter for the owner only, and only once the new settings
  -- are in the file; the limiter is then theirs, and the keys and the LiveKit server are as before.
  -- Every other answer leaves both as they are. In both cases limits that are counts (not negative and
  -- below 2^63) stay so, and the directory of the blobs stays named.
  pub settings_handler_owner_only :
      (logged : Option PubKey) (form : Form) (server : Server Files)
      → let (server', reply) = settings_handler save reset_relay logged form server in
        (((server'.settings ≡ server.settings)
            × (server'.limiter ≡ server.limiter)
            × (is_applied reply ≡ false))
          ⊎ ((logged ≡ some server.settings.owner_pub_key)
              × SameKeys server.settings server'.settings
              × (save server.files server'.settings ≡ (server'.files, true))
              × (server'.limiter
                  ≡ configure_group_create_rate_limit
                      server'.settings.groups.create_group_rate_limit)))
        × (IsSound server.settings → IsSound server'.settings)
  settings_handler_owner_only logged form server = (
    elim (settings_handler-Outcome logged form server) [
      | inl refused ↦ inl refused
      | inr (owner, valid, applied) ↦ inr (
        owner,
        Applied-SameKeys form server (settings_handler save reset_relay logged form server) applied,
        applied.1,
        applied.2,
      )
    ],
    settings_handler-IsSound logged form server,
  )
