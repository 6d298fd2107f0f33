-- ===== src/Config/File.antt =====
-- settings.json of global/settings.go: loadSettings and Settings.save, and Init of global/init.go. The
-- files are a parameter, as the calls of os that the code makes, at the path of settingsPath; so are the
-- two directions of encoding/json and the next key that nostr.Generate returns.
pub mod Persistence
use croissant.Base.{
  ℕ, Bool, true, false, not, Option, none, some, List, [], String, ◌==◌, nat_eq, string_eq,
  if◌then◌else◌,
}
use croissant.Nostr.{PubKey}
use croissant.Config.{ℤ, pos, RelaySettings, default_blossom_local_path}
use croissant.Config.Limits.{Limiter, configure_group_create_rate_limit}

-- What os.ReadFile returns.
pub data Content (Bytes : Type 0) : Type 0 where
  content : Bytes → Content Bytes
  not_exist : Content Bytes
  unreadable : Content Bytes

-- os.MkdirAll and os.WriteFile return whether they succeed.
pub record Os (Files Bytes : Type 0) : Type 0 where
  pub mkdir_all : Files → Files × Bool
  pub read_file : Files → Content Bytes
  pub write_file : Files → Bytes → Files × Bool
  pub marshal : RelaySettings → Option Bytes
  pub unmarshal : Bytes → Option RelaySettings

pub data LoadError : Type 0 where
  no_dir : LoadError
  not_read : LoadError
  not_parsed : LoadError
  not_saved : LoadError

pub data Loaded : Type 0 where
  loaded : RelaySettings → Loaded
  failed : LoadError → Loaded

-- The settings of a relay that has no file yet.
abbrev pub initial_settings : ℕ → RelaySettings
initial_settings key = record {
  relay_name = "croissant";
  relay_description = "groups provider";
  relay_contact = "";
  relay_icon = "";
  relay_secret_key = key;
  owner_pub_key = 0;
  blossom = record {
    enabled = false;
    s3_endpoint = "";
    s3_key_id = "";
    s3_secret = "";
    s3_bucket = "";
    s3_redirect_base_url = "";
    local_path = default_blossom_local_path;
  };
  groups = record {
    live_kit_server_url = "";
    live_kit_api_key = "";
    live_kit_api_secret = "";
    create_group_presence_relays = [];
    free_transit_presence_relays = [];
    create_group_rate_limit = record {
      tokens_per_interval = pos 1;
      interval_seconds = pos 10800;
      max_tokens = pos 100;
    };
  };
  gift_wraps = record { enabled = false; sender_presence_relays = [] };
}

module _ {Files Bytes : Type 0} (os : Os Files Bytes) where
  abbrev pub written : Files → Option Bytes → Files × Bool
  written files none = (files, false)
  written files (some bytes) = os.write_file files bytes

  -- Settings.save: false is an error.
  unfoldable pub save : Files → RelaySettings → Files × Bool
  save files settings = written files (os.marshal settings)

  abbrev pub or_not_saved : RelaySettings → Files × Bool → Files × Loaded
  or_not_saved settings (files, ok) =
      if ok then (files, loaded settings) else (files, failed not_saved)

  -- The last check: a settings file names a directory for the blobs.
  unfoldable pub complete_path : Files → RelaySettings → Files × Loaded
  unfolding save
  complete_path files settings =
      let named = record settings {
        blossom = record settings.blossom { local_path = default_blossom_local_path };
      } in
      if settings.blossom.local_path == ""
      then or_not_saved named (save files named)
      else (files, loaded settings)

  abbrev pub then_path : Files × Loaded → Files × Loaded
  then_path (files, failed e) = (files, failed e)
  then_path (files, loaded settings) = complete_path files settings

  -- The check before it: a settings file has a key.
  unfoldable pub complete : Files → ℕ → RelaySettings → Files × Loaded
  unfolding save complete_path
  complete files key settings =
      let keyed = record settings { relay_secret_key = key } in
      then_path (
        if settings.relay_secret_key == 0
        then or_not_saved keyed (save files keyed)
        else (files, loaded settings))

  abbrev pub from_parsed : Files → ℕ → Option RelaySettings → Files × Loaded
  from_parsed files key none = (files, failed not_parsed)
  from_parsed files key (some settings) = complete files key settings

  abbrev pub from_content : Files → ℕ → Content Bytes → Files × Loaded
  from_content files key unreadable = (files, failed not_read)
  from_content files key not_exist =
      or_not_saved (initial_settings key) (save files (initial_settings key))
  from_content files key (content bytes) = from_parsed files key (os.unmarshal bytes)

  abbrev pub in_dir : ℕ → Files × Bool → Files × Loaded
  in_dir key (files, ok) =
      if ok then from_content files key (os.read_file files) else (files, failed no_dir)

  unfoldable pub load_settings : Files → ℕ → Files × Loaded
  unfolding save complete
  load_settings files key = in_dir key (os.mkdir_all files)

module _ (public : ℕ → PubKey) (pub_key_from_input : String → Option PubKey) where
  abbrev pub with_owner : RelaySettings → Option PubKey → Option (RelaySettings × Option Limiter)
  with_owner s none = none
  with_owner s (some pk) = some (
    record s { owner_pub_key = pk },
    configure_group_create_rate_limit s.groups.create_group_rate_limit,
  )

  -- Init, once the settings are loaded: the variable S and the limiter. A none is an owner's key that is
  -- not one, on which the process stops.
  unfoldable pub init : String → RelaySettings → Option (RelaySettings × Option Limiter)
  unfolding configure_group_create_rate_limit
  init owner_public_key s = with_owner s (
      if owner_public_key == ""
      then some (public s.relay_secret_key)
      else pub_key_from_input owner_public_key)
