-- ===== src/Reset.antt =====
-- The relay that is served: relayHandler, configureRelay and resetRelay of relay.go, UpdateRuntimeConfig
-- of state.go, and the part of run in main.go that sets the first relay up. The hooks that configureRelay
-- sets are modelled in Relay.antt, Write.antt, Read.antt and Sync/Saved.antt; the routes are wiring.
-- Parameters: khatru.NewRelay, SecretKey.Public, net.JoinHostPort, and those of initBlossom.
pub mod Served
use croissant.Base.{ℕ, Bool, true, false, Option, none, some, String, if◌then◌else◌}
use croissant.Nostr.{PubKey}
use croissant.Config.{RelaySettings, GroupSettings}
use croissant.Config.Address.{Env, relay_base_url, relay_ws_url}
use croissant.LiveKit.{LiveKitSettings}
use croissant.Blobs.{Places, Blobs, reset_blossom, init_blossom}

-- A khatru.Relay, the fields that the settings reach.
pub record Relay : Type 0 where
  pub service_url : String
  pub name : String
  pub description : String
  pub contact : String
  pub icon : String
  pub pub_key : Option PubKey
  pub self : Option PubKey
  pub software : String
  pub negentropy : Bool

-- `served` is the value of relayHandler, and global.R is the same relay; `relay_url`, `base_url` and
-- `live_kit` are those of State.
pub record Runtime : Type 0 where
  pub env : Env
  pub data_path : String
  pub settings : RelaySettings
  pub relay_url : String
  pub base_url : String
  pub live_kit : LiveKitSettings
  pub served : Option Relay
  pub blobs : Blobs

pub data HandlerReply : Type 0 where
  not_ready : HandlerReply
  handled_by : Relay → HandlerReply

-- relayHandler.ServeHTTP
abbrev pub serve_http : Option Relay → HandlerReply
serve_http none = not_ready
serve_http (some relay) = handled_by relay

abbrev pub live_kit_of : GroupSettings → LiveKitSettings
live_kit_of g = record {
  server_url = g.live_kit_server_url;
  api_key = g.live_kit_api_key;
  api_secret = g.live_kit_api_secret;
}

unfoldable pub update_runtime_config : Runtime → String → String → LiveKitSettings → Runtime
update_runtime_config r relay_url base_url live_kit = record r {
  relay_url = relay_url;
  base_url = base_url;
  live_kit = live_kit;
}

module _ (places : Places) (join_host_port : String → String → String) (public : ℕ → PubKey)
    (layer : Bool) (new_relay : Relay) where
  abbrev pub described : RelaySettings → String → Relay → Relay
  described s base_url relay = record relay {
    service_url = base_url;
    name = s.relay_name;
    description = s.relay_description;
    contact = s.relay_contact;
    icon = s.relay_icon;
    pub_key = some (public s.relay_secret_key);
    self = some (public s.relay_secret_key);
    negentropy = true;
  }

  -- The relay, the blobs, and whether there was no error.
  unfoldable pub configure_relay : Runtime → String → Relay → Relay × Blobs × Bool
  unfolding init_blossom reset_blossom
  configure_relay r base_url relay =
      let relay' = described r.settings base_url relay in
      if r.settings.blossom.enabled
      then (let (blobs, ok) = init_blossom places layer r.data_path r.settings.blossom r.blobs in
          (relay', blobs, ok))
      else (relay', reset_blossom, true)

  abbrev pub configured : Runtime → Relay × Blobs × Bool → Runtime × Bool
  configured r (relay, blobs, false) = (record r { blobs = blobs }, false)
  configured r (relay, blobs, true) = (record r { blobs = blobs; served = some relay }, true)

  -- Both relayBaseURL and relayURL, in this order; they write E.Host.
  abbrev pub with_urls : Runtime → (Env → String → String → Runtime × Bool) → Runtime × Bool
  with_urls r f =
      let (env', base_url) = relay_base_url join_host_port r.env in
      let (env'', relay_url) = relay_ws_url join_host_port env' in f env'' base_url relay_url

  unfoldable pub reset_relay : Runtime → Runtime × Bool
  unfolding relay_base_url relay_ws_url update_runtime_config configure_relay
  reset_relay r = with_urls r λ env base_url relay_url.
      let r' =
        update_runtime_config (record r { env = env }) relay_url base_url
          (live_kit_of r.settings.groups) in
      configured r' (configure_relay r' base_url new_relay)

  -- run sets relay.Info.Software before it configures the relay, and makes the State with the URLs.
  unfoldable pub start_relay : Runtime → Runtime × Bool
  unfolding relay_base_url relay_ws_url configure_relay
  start_relay r = with_urls r λ env base_url relay_url.
      let r' = record r {
        env = env;
        relay_url = relay_url;
        base_url = base_url;
        live_kit = live_kit_of r.settings.groups;
      } in
      configured r' (
        configure_relay r' base_url
          (record new_relay { software = "https://viewsource.win/fiatjaf.com/croissant" }))
