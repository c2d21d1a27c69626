-- ===== src/Config.antt =====
-- The immutable configuration of one source: netbox_sync/source_config.py.
use infra_sync.Prelude.{
  ℕ, String, Bool, not, Result, ok, ◌>>◌, require, is_blank, is_source_instance, is_source_type,
  ltb,
}
use infra_sync.Json.{Fields}

pub record NetBoxTargetConfig : Type 0 where
  pub site_slug : String
  pub device_role_slug : String
  pub platform_slug : String
  pub device_type_slug : String
  pub cluster_type_slug : String
  pub cluster_name : String

pub record SecretReference : Type 0 where
  pub provider : String
  pub key : String

pub record SourceCredentials : Type 0 where
  pub username : String
  pub token_id : SecretReference
  pub token_secret : SecretReference

pub record SourceConfig : Type 0 where
  pub id : String
  pub source_instance : String
  pub name : String
  pub source_type : String
  pub address : String
  pub enabled : Bool
  pub sync_enabled : Bool
  pub sync_interval_seconds : ℕ
  pub verify_ssl : Bool
  pub target : NetBoxTargetConfig
  pub credentials : SourceCredentials
  pub legacy_identity_owner : Bool
  pub settings : Fields

-- The `ValueError`s of the constructors, with the field that they name.
pub data ConfigError : Type 0 where
  empty_text : String → ConfigError
  bad_source_instance bad_source_type bad_interval : ConfigError

require_text : String → String → Result ConfigError (Unit {0})
require_text value field_name = require (not (is_blank value)) (empty_text field_name)

unfoldable pub make_target : NetBoxTargetConfig → Result ConfigError NetBoxTargetConfig
unfolding require_text
make_target t = do
  require_text t.site_slug "site_slug"
  require_text t.device_role_slug "device_role_slug"
  require_text t.platform_slug "platform_slug"
  require_text t.device_type_slug "device_type_slug"
  require_text t.cluster_type_slug "cluster_type_slug"
  require_text t.cluster_name "cluster_name"
  ok t

unfoldable pub make_reference : SecretReference → Result ConfigError SecretReference
unfolding require_text
make_reference r = do require_text r.provider "provider"; require_text r.key "key"; ok r

unfoldable pub make_credentials : SourceCredentials → Result ConfigError SourceCredentials
unfolding require_text
make_credentials c = do require_text c.username "username"; ok c

-- `SourceConfig.__post_init__`
unfoldable pub make_config : SourceConfig → Result ConfigError SourceConfig
unfolding require_text
make_config c = do
  require_text c.id "id"
  require_text c.name "name"
  require_text c.address "address"
  require (is_source_instance c.source_instance) bad_source_instance
  require (is_source_type c.source_type) bad_source_type
  require (ltb 0 c.sync_interval_seconds) bad_interval
  ok c
