-- ===== src/Config.antt =====
-- global/settings.go: the settings, the form that changes them, and the file that keeps them.
pub mod Limits
pub mod File
pub mod Form
pub mod Login
pub mod Address
use croissant.Base.{ℕ, Bool, true, false, List, [], String}
use croissant.Nostr.{PubKey}

-- A Go int: `negsuc n` is -(n + 1).
pub data ℤ : Type 0 where
  pos : ℕ → ℤ
  negsuc : ℕ → ℤ

pub record RateLimit : Type 0 where
  pub tokens_per_interval : ℤ
  pub interval_seconds : ℤ
  pub max_tokens : ℤ

pub record Blossom : Type 0 where
  pub enabled : Bool
  pub s3_endpoint : String
  pub s3_key_id : String
  pub s3_secret : String
  pub s3_bucket : String
  pub s3_redirect_base_url : String
  pub local_path : String

pub record GroupSettings : Type 0 where
  pub live_kit_server_url : String
  pub live_kit_api_key : String
  pub live_kit_api_secret : String
  pub create_group_presence_relays : List String
  pub free_transit_presence_relays : List String
  pub create_group_rate_limit : RateLimit

pub record GiftWraps : Type 0 where
  pub enabled : Bool
  pub sender_presence_relays : List String

-- A secret key is 32 bytes, 0 where all of them are. The cached relayPublicKey is left out: it is set on
-- copies only.
pub record RelaySettings : Type 0 where
  pub relay_name : String
  pub relay_description : String
  pub relay_contact : String
  pub relay_icon : String
  pub relay_secret_key : ℕ
  pub owner_pub_key : PubKey
  pub blossom : Blossom
  pub groups : GroupSettings
  pub gift_wraps : GiftWraps

abbrev pub default_blossom_local_path : String
default_blossom_local_path = "blossom-files"
