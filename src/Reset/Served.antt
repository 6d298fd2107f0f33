-- ===== src/Reset/Served.antt =====
-- What resetRelay of relay.go serves after a change of the settings.
use croissant.Base.{
  ℕ, Bool, true, false, Option, some, String, ◌≡◌, ◌⊎◌, inl, inr, refl, ap, Bool-cases,
}
use croissant.Nostr.{PubKey}
use croissant.Config.{RelaySettings}
use croissant.Config.Address.{relay_base_url, relay_ws_url, run_addresses}
use croissant.Blobs.{Places, Blobs, reset_blossom}
use croissant.Reset.{
  Relay, Runtime, described, configure_relay, configured, live_kit_of, update_runtime_config,
  reset_relay,
}

-- The relay shows the settings, and the state has them too.
pub record Shows (public : ℕ → PubKey) (s : RelaySettings) (r : Runtime) (relay : Relay)
    : Type 0 where
  pub name : relay.name ≡ s.relay_name
  pub description : relay.description ≡ s.relay_description
  pub contact : relay.contact ≡ s.relay_contact
  pub icon : relay.icon ≡ s.relay_icon
  pub pub_key : relay.pub_key ≡ some (public s.relay_secret_key)
  pub self : relay.self ≡ some (public s.relay_secret_key)
  pub service_url : relay.service_url ≡ r.base_url
  pub live_kit : r.live_kit ≡ live_kit_of s.groups
  pub no_blobs : s.blossom.enabled ≡ false → r.blobs ≡ reset_blossom

module _ (places : Places) (join_host_port : String → String → String) (public : ℕ → PubKey)
    (layer : Bool) (new_relay : Relay) where
  configure_relay-described :
      (r : Runtime) (base_url : String) (relay : Relay)
      → (configure_relay places join_host_port public layer new_relay r base_url relay).0
        ≡ described places join_host_port public layer new_relay r.settings base_url relay
  unfolding configure_relay
  configure_relay-described r base_url relay = elim (Bool-cases r.settings.blossom.enabled) [
    | inl blobs ↦ simp blobs
    | inr no_blobs ↦ simp no_blobs
  ]

  configure_relay-disabled :
      (r : Runtime) (base_url : String) (relay : Relay)
      → r.settings.blossom.enabled ≡ false
      → let c = configure_relay places join_host_port public layer new_relay r base_url relay in
        (c.1 ≡ reset_blossom) × (c.2 ≡ true)
  unfolding configure_relay
  configure_relay-disabled r base_url relay h = (simp h, simp h)

  -- How a configuration of the relay ends, for the settings `s` and what was served before.
  abbrev pub Ends : RelaySettings → Option Relay → String → Runtime × Bool → Type 0
  Ends s before software (r, ok) =
      ((ok ≡ true)
        × ((relay : Relay) × (r.served ≡ some relay)
            × Shows public s r relay
            × (relay.software ≡ software)))
      ⊎ ((ok ≡ false) × (r.served ≡ before) × (s.blossom.enabled ≡ true))

  configured-Ends :
      (s : RelaySettings) (r : Runtime) (relay : Relay) (c : Relay × Blobs × Bool)
      → c.0 ≡ described places join_host_port public layer new_relay s r.base_url relay
      → (s.blossom.enabled ≡ false → (c.1 ≡ reset_blossom) × (c.2 ≡ true))
      → r.live_kit ≡ live_kit_of s.groups
      → Ends s r.served relay.software (configured places join_host_port public layer new_relay r c)
  configured-Ends s r relay (relay', blobs, true) shown off calls = inl (
    refl,
    (
      relay',
      refl,
      record {
        name = ap (λ x. x.name) shown;
        description = ap (λ x. x.description) shown;
        contact = ap (λ x. x.contact) shown;
        icon = ap (λ x. x.icon) shown;
        pub_key = ap (λ x. x.pub_key) shown;
        self = ap (λ x. x.self) shown;
        service_url = ap (λ x. x.service_url) shown;
        live_kit = calls;
        no_blobs = λ h. (off h).0;
      },
      ap (λ x. x.software) shown,
    ),
  )
  configured-Ends s r relay (relay', blobs, false) shown off calls =
      elim (Bool-cases s.blossom.enabled) [
        | inl on ↦ inr (refl, refl, on)
        | inr disabled ↦ let (gone, impossible) = off disabled in cc impossible
      ]

  configured-urls :
      (r : Runtime) (c : Relay × Blobs × Bool)
      → let r' = (configured places join_host_port public layer new_relay r c).0 in
        (r'.base_url ≡ r.base_url) × (r'.relay_url ≡ r.relay_url) × (r'.env ≡ r.env)
  configured-urls r (relay, blobs, true) = (refl, refl, refl)
  configured-urls r (relay, blobs, false) = (refl, refl, refl)

  -- resetRelay gives the state the http URL and the websocket URL that run would make of the
  -- environment, and leaves the host as run would. Without an error, the relay that is then served shows
  -- the settings, with the http URL, the state has their LiveKit server, and without blossom the blobs
  -- are closed. The software shown is that of a new relay, not the one that run sets. An error, which
  -- only blossom makes, leaves the relay that was served.
  pub reset_relay_lem :
      (r : Runtime)
      → let (r', ok) = reset_relay places join_host_port public layer new_relay r in
        let (env, (base_url, ws_url), address) = run_addresses join_host_port r.env in
        (r'.base_url ≡ base_url)
        × (r'.relay_url ≡ ws_url)
        × (r'.env ≡ env)
        × (((ok ≡ true)
              × ((relay : Relay) × (r'.served ≡ some relay)
                  × Shows public r.settings r' relay
                  × (relay.software ≡ new_relay.software)))
            ⊎ ((ok ≡ false) × (r'.served ≡ r.served) × (r.settings.blossom.enabled ≡ true)))
  unfolding reset_relay update_runtime_config run_addresses
  reset_relay_lem r =
      let (env, base_url) = relay_base_url join_host_port r.env in
      let (env', relay_url) = relay_ws_url join_host_port env in
      let r' =
        update_runtime_config (record r { env = env' }) relay_url base_url
          (live_kit_of r.settings.groups) in
      let c = configure_relay places join_host_port public layer new_relay r' base_url new_relay in
      let (base, ws, host) = configured-urls r' c in
      (
        base,
        ws,
        host,
        configured-Ends r.settings r' new_relay c (configure_relay-described r' base_url new_relay)
            (configure_relay-disabled r' base_url new_relay) refl,
      )
