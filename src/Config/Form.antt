-- ===== src/Config/Form.antt =====
-- SettingsHandler of global/settings.go: the form on which the owner changes the settings. The state is
-- the variable S, the limiter that ConfigureGroupCreateRateLimit sets, and the files that hold
-- settings.json. Parameters: GetLoggedUser's own (Config/Login.antt), the saving of the settings, and
-- the variable ResetRelay: a none is nil, a true is an error.
pub mod Owner
use croissant.Base.{
  ℕ, Bool, true, false, not, ◌||◌, Option, none, some, String, ◌==◌, nat_eq, string_eq,
  if◌then◌else◌,
}
use croissant.Nostr.{PubKey}
use croissant.Text.{trim_space, parse_csv}
use croissant.Config.{ℤ, RelaySettings, default_blossom_local_path}
use croissant.Config.Limits.{parse_int, Limiter, configure_group_create_rate_limit}

-- The request: ParseForm's success and FormValue.
pub record Form : Type 0 where
  pub is_valid : Bool
  pub form_value : String → String

pub data Reply : Type 0 where
  unauthorized : Reply
  bad_request : String → Reply
  save_failed : Reply
  reset_failed : Reply
  redirected : Reply

pub record Server (Files : Type 0) : Type 0 where
  pub settings : RelaySettings
  pub limiter : Option Limiter
  pub files : Files

-- The fields that are numbers, in the order in which they are read: the first that is bad answers.
pub data Numbers : Type 0 where
  numbers : (tokens interval max : ℤ) → Numbers
  bad_field : String → Numbers

abbrev pub with_max : ℤ → ℤ → Option ℤ → Numbers
with_max tokens interval none = bad_field "invalid group_create_rate_max_tokens"
with_max tokens interval (some max) = numbers tokens interval max

abbrev pub with_interval : ℤ → Option ℤ → Option ℤ → Numbers
with_interval tokens none max = bad_field "invalid group_create_rate_interval_seconds"
with_interval tokens (some interval) max = with_max tokens interval max

abbrev pub with_tokens : Option ℤ → Option ℤ → Option ℤ → Numbers
with_tokens none interval max = bad_field "invalid group_create_rate_tokens_per_interval"
with_tokens (some tokens) interval max = with_interval tokens interval max

unfoldable pub read_numbers : Form → RelaySettings → Numbers
unfolding parse_int
read_numbers form s =
    with_tokens
      (parse_int (form.form_value "group_create_rate_tokens_per_interval")
        s.groups.create_group_rate_limit.tokens_per_interval)
      (parse_int (form.form_value "group_create_rate_interval_seconds")
        s.groups.create_group_rate_limit.interval_seconds)
      (parse_int (form.form_value "group_create_rate_max_tokens")
        s.groups.create_group_rate_limit.max_tokens)

abbrev pub or_default : String → String
or_default path = if path == "" then default_blossom_local_path else path

-- `updated`, once the numbers are read.
unfoldable pub updated_settings : Form → RelaySettings → ℤ → ℤ → ℤ → RelaySettings
unfolding trim_space parse_csv
updated_settings form s tokens interval max = record s {
  relay_name = trim_space (form.form_value "relay_name");
  relay_description = trim_space (form.form_value "relay_description");
  relay_contact = trim_space (form.form_value "relay_contact");
  relay_icon = trim_space (form.form_value "relay_icon");
  groups = record s.groups {
    create_group_rate_limit = record {
      tokens_per_interval = tokens;
      interval_seconds = interval;
      max_tokens = max;
    };
    create_group_presence_relays = parse_csv (form.form_value "create_group_presence_relays");
    free_transit_presence_relays = parse_csv (form.form_value "free_transit_presence_relays");
  };
  gift_wraps = record {
    enabled = form.form_value "gift_wraps_enabled" == "true";
    sender_presence_relays = parse_csv (form.form_value "gift_wraps_sender_presence_relays");
  };
  blossom = record {
    enabled = form.form_value "blossom_enabled" == "true";
    local_path = or_default (trim_space (form.form_value "blossom_local_path"));
    s3_endpoint = trim_space (form.form_value "blossom_s3_endpoint");
    s3_bucket = trim_space (form.form_value "blossom_s3_bucket");
    s3_key_id = trim_space (form.form_value "blossom_s3_key_id");
    s3_secret = trim_space (form.form_value "blossom_s3_secret");
    s3_redirect_base_url = trim_space (form.form_value "blossom_s3_redirect_base_url");
  };
}

-- !ok || loggedPubKey != S.OwnerPubKey
abbrev pub is_not_owner : Option PubKey → RelaySettings → Bool
is_not_owner none s = true
is_not_owner (some pk) s = not (pk == s.owner_pub_key)

abbrev pub after_reset : Option (RelaySettings → Bool) → RelaySettings → Reply
after_reset none s = redirected
after_reset (some reset) s = if reset s then reset_failed else redirected

module _ {Files : Type 0} (save : Files → RelaySettings → Files × Bool)
    (reset_relay : Option (RelaySettings → Bool)) where
  abbrev pub saved : Server Files → RelaySettings → Files × Bool → Server Files × Reply
  saved server updated (files, false) = (record server { files = files }, save_failed)
  saved server updated (files, true) = (
    record {
      settings = updated;
      limiter = configure_group_create_rate_limit updated.groups.create_group_rate_limit;
      files = files;
    },
    after_reset reset_relay updated,
  )

  abbrev pub with_numbers : Form → Server Files → Numbers → Server Files × Reply
  with_numbers form server (bad_field msg) = (server, bad_request msg)
  with_numbers form server (numbers tokens interval max) =
      let updated = updated_settings form server.settings tokens interval max in
      saved server updated (save server.files updated)

  unfoldable pub settings_handler : Option PubKey → Form → Server Files → Server Files × Reply
  unfolding read_numbers updated_settings configure_group_create_rate_limit
  settings_handler logged form server =
      if is_not_owner logged server.settings
      then (server, unauthorized)
      else if not form.is_valid
      then (server, bad_request "invalid form")
      else with_numbers form server (read_numbers form server.settings)
