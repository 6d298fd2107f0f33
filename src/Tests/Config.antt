-- ===== src/Tests/Config.antt =====
-- The settings of a relay on its first day, its owner's form, and a login.
use croissant.Base.{
  ℕ, Bool, true, false, Option, none, some, [], ◌∷◌, String, ◌==◌, ◌&&◌, nat_eq, string_eq,
  if◌then◌else◌, ◌≡◌, ◌≢◌, ◌↔◌, ◌⊎◌, ◌*◌, ◌<◌, ◌≤◌, refl, arith, ap, sym, subst,
}
use Prim.Native.String.{◌++◌}
use croissant.Nostr.{Event}
use croissant.Text.{parse_csv, join}
use croissant.Text.Fields.{parse_csv-join}
use croissant.Config.{pos, RelaySettings}
use croissant.Config.Limits.{Limiter, configure_group_create_rate_limit}
use croissant.Config.Limits.Bounds.{configure_group_create_rate_limit_lem}
use croissant.Config.Login.{Request, get_logged_user}
use croissant.Config.Login.Gate.{Carries, IsLogin, get_logged_user_iff}
use croissant.Config.Form.{Form, Server, settings_handler}
use croissant.Config.Form.Owner.{IsSound, SameKeys, is_applied, settings_handler_owner_only}
use croissant.Config.File.{Content, content, not_exist, Os, loaded, initial_settings, load_settings}
use croissant.Config.File.Persistence.{load_settings_again}
use croissant.Config.Address.{Env, any_host, run_addresses}
use croissant.Config.Address.Urls.{run_addresses_lem}
use croissant.Tests.World.{nostr, event}

parse_csv-join_example :
    parse_csv (join (parse_csv " wss://a ,, wss://b ")) ≡ parse_csv " wss://a ,, wss://b "
parse_csv-join_example = parse_csv-join " wss://a ,, wss://b "

configure_group_create_rate_limit_lem_example :
    (l : Limiter) × (configure_group_create_rate_limit (record {
      tokens_per_interval = pos 1;
      interval_seconds = pos 10_000_000_000;
      max_tokens = pos 100;
    })
      ≡ some l)
    × (l.tokens ≡ 1)
    × (l.max ≡ 100)
    × (((l.interval_nanoseconds ≡ 10_000_000_000 * 1_000_000_000)
          × (l.interval_nanoseconds < 0x8000_0000_0000_0000))
        ↔ (10_000_000_000 ≤ 9_223_372_036))
configure_group_create_rate_limit_lem_example =
    configure_group_create_rate_limit_lem 1 10_000_000_000 100 (omega arith) (omega arith)
      (omega arith)

-- The owner, key 1, on the domain "relay".
abbrev login_event : Event
login_event = event 7 27235 1 (("domain" ∷ "relay" ∷ []) ∷ [])

abbrev request : Request
request = record { cookie = some "e30="; host = "relay" }

get_logged_user_iff_example :
    (get_logged_user nostr (λ s. some s) (λ s. some login_event) (λ e. true) "" request ≡ some 1)
    ↔ ((evt : Event) × Carries nostr
          (λ s. some s)
          (λ s. some login_event)
          (λ e. true)
          ""
          request
          evt
        × IsLogin nostr (λ s. some s) (λ s. some login_event) (λ e. true) "" request evt
        × (evt.pub_key ≡ 1))
get_logged_user_iff_example =
    get_logged_user_iff nostr (λ s. some s) (λ s. some login_event) (λ e. true) "" request 1

-- A disk that holds the settings themselves, once they are written.
abbrev Disk : Type 0
Disk = Option RelaySettings

abbrev in_file : Disk → Content RelaySettings
in_file none = not_exist
in_file (some s) = content s

abbrev without_owner : RelaySettings → RelaySettings
without_owner s = record s { owner_pub_key = 0 }

abbrev os : Os Disk RelaySettings
os = record {
  mkdir_all = λ disk. (disk, true);
  read_file = in_file;
  write_file = λ disk s. (some s, true);
  marshal = λ s. some (without_owner s);
  unmarshal = λ s. some (without_owner s);
}

ownerless : (s : RelaySettings) → s.owner_pub_key ≡ 0 → without_owner s ≡ s
ownerless s owner = ap (λ k. record s { owner_pub_key = k }) (sym owner)

marshal_same :
    (s b : RelaySettings) → s.owner_pub_key ≡ 0 → os.marshal s ≡ some b → os.unmarshal b ≡ some s
marshal_same s b owner h =
    let e : without_owner s ≡ b = cc h in
    subst (λ b. some (without_owner b) ≡ some s) e (ap some (ownerless s owner))

unmarshal_ownerless : (s b : RelaySettings) → os.unmarshal b ≡ some s → s.owner_pub_key ≡ 0
unmarshal_ownerless s b h = let e : without_owner b ≡ s = cc h in ap (λ s. s.owner_pub_key) (sym e)

load_settings_again_example :
    ((initial_settings 5).relay_secret_key ≢ 0)
    × ((initial_settings 5).blossom.local_path ≢ "")
    × ((next : ℕ)
        → load_settings os (some (initial_settings 5)) next
          ≡ (some (initial_settings 5), loaded (initial_settings 5)))
unfolding load_settings croissant.Config.File.save
load_settings_again_example =
    load_settings_again os (λ disk. true) (λ f f' h. refl) (λ f h. refl) (λ f f' b dir h. refl)
      (λ f f' b h. ap (λ p. in_file p.0) (sym h)) marshal_same unmarshal_ownerless none
      (some (initial_settings 5)) 5 (initial_settings 5) (λ e. omega arith) refl

abbrev write_disk : Disk → RelaySettings → Disk × Bool
write_disk disk s = (some s, true)

abbrev server : Server Disk
server = record {
  settings = record (initial_settings 5) { owner_pub_key = 1 };
  limiter = none;
  files = none;
}

abbrev form : Form
form = record {
  is_valid = true;
  form_value = λ field. if field == "group_create_rate_max_tokens" then "7" else "";
}

settings_handler_owner_only_example :
    let (server', reply) = settings_handler write_disk none (some 1) form server in
    (((server'.settings ≡ server.settings)
        × (server'.limiter ≡ server.limiter)
        × (is_applied reply ≡ false))
      ⊎ ((some 1 ≡ some server.settings.owner_pub_key)
          × SameKeys server.settings server'.settings
          × (write_disk server.files server'.settings ≡ (server'.files, true))
          × (server'.limiter
              ≡ configure_group_create_rate_limit server'.settings.groups.create_group_rate_limit)))
    × (IsSound server.settings → IsSound server'.settings)
settings_handler_owner_only_example =
    settings_handler_owner_only write_disk none (some 1) form server

-- All interfaces, without a domain.
abbrev env : Env
env = record { port = "9888"; host = "0.0.0.0"; domain = "" }

run_addresses_lem_example :
    let (env', (base, ws), address) = run_addresses (λ host port. host ++ (":" ++ port)) env in
    ((rest : String) × (base ≡ "http" ++ rest) × (ws ≡ "ws" ++ rest))
    × (address
        ≡ (if env.domain == "" && any_host env.host then "localE.Host" else env.host)
          ++ (":" ++ env.port))
run_addresses_lem_example = run_addresses_lem (λ host port. host ++ (":" ++ port)) env
