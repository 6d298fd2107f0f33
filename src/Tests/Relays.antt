-- ===== src/Tests/Relays.antt =====
-- The relay after a change of its settings, and its blobs on the local disk.
use croissant.Base.{
  ℕ, true, false, none, some, ◌≡◌, ◌⊎◌, refl, arith, inl, inr, Bool-cases, ◌==◌, nat_eq,
}
use Prim.Native.String.{◌++◌}
use croissant.Config.{Blossom}
use croissant.Config.File.{initial_settings}
use croissant.Blobs.{Places, reset_blossom, init_blossom}
use croissant.Blobs.Place.{named_fs, init_blossom_lem}
use croissant.EventLog.{Format, Client, log_line}
use croissant.EventLog.Plain.{one_line}
use croissant.EventLog.Lines.{log_line-Plain}
use croissant.Tests.World.{nostr, message}
use croissant.Reset.{Relay, Runtime, reset_relay}
use croissant.Config.Address.{run_addresses}
use croissant.Reset.Served.{Shows, reset_relay_lem}

-- Every path is relative, and every directory can be made.
abbrev places : Places
places = record {
  is_abs = λ p. false;
  clean = λ p. p;
  mkdir_all = λ p. true;
  connects = λ endpoint key_id secret. false;
  bucket_exists = λ endpoint bucket. none;
}

abbrev local : Blossom
local = record (initial_settings 5).blossom { enabled = true }

init_blossom_lem_example :
    let (blobs', ok) = init_blossom places true "data" local reset_blossom in
    (init_blossom places true "elsewhere" local reset_blossom ≡ (blobs', ok))
    × (ok ≡ true → (blobs'.index_open ≡ true) × (blobs'.fs ≡ some (named_fs places local)))
init_blossom_lem_example = init_blossom_lem places true "data" "elsewhere" local reset_blossom

abbrev new_relay : Relay
new_relay = record {
  service_url = "";
  name = "";
  description = "";
  contact = "";
  icon = "";
  pub_key = none;
  self = none;
  software = "khatru";
  negentropy = false;
}

abbrev running : Runtime
running = record {
  env = record { port = "9888"; host = "127.0.0.1"; domain = "relay" };
  data_path = "data";
  settings = record (initial_settings 5) { blossom = local };
  relay_url = "wss://relay";
  base_url = "https://relay";
  live_kit = record { server_url = ""; api_key = ""; api_secret = "" };
  served = some new_relay;
  blobs = reset_blossom;
}

reset_relay_lem_example :
    let (r', ok) =
      reset_relay places (λ host port. host ++ (":" ++ port)) (λ k. k) true new_relay running in
    let (env, (base_url, ws_url), address) =
      run_addresses (λ host port. host ++ (":" ++ port)) running.env in
    (r'.base_url ≡ base_url)
    × (r'.relay_url ≡ ws_url)
    × (r'.env ≡ env)
    × (((ok ≡ true)
          × ((relay : Relay) × (r'.served ≡ some relay)
              × Shows (λ k. k) running.settings r' relay
              × (relay.software ≡ new_relay.software)))
        ⊎ ((ok ≡ false) × (r'.served ≡ running.served) × (running.settings.blossom.enabled ≡ true)))
reset_relay_lem_example =
    reset_relay_lem places (λ host port. host ++ (":" ++ port)) (λ k. k) true new_relay running

-- Everything is quoted as nothing.
abbrev blank : Format
blank = record { quote = λ s. ""; show = λ n. ""; byte_length = λ s. 0; first_bytes = λ n s. s }

abbrev client : Client
client = record { time = "now"; ip = "::1"; user_agent = "browser" }

hex-one_line : (n : ℕ) → one_line (nostr.id_hex n) ≡ true
unfolding one_line
hex-one_line n = elim (Bool-cases (n == 1)) [
  | inl one ↦ rw one refl
  | inr more ↦ elim (Bool-cases (n == 2)) [
    | inl two ↦ rw (more, two) refl
    | inr other ↦ rw (more, other) refl
  ]
]

log_line-Plain_example : one_line (log_line nostr blank client message true "") ≡ true
unfolding one_line
log_line-Plain_example =
    log_line-Plain nostr blank (λ s. refl) (λ n. refl) (λ n s h. h) hex-one_line hex-one_line client
      message true "" refl refl (λ shows. ground (arith, shows))
