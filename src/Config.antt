-- ===== src/Config.antt =====
-- config/config.go: the configuration, as YAML gives it, and its loading.
pub mod Watcher
use servone.Prelude.{String, Bool, Option, none, some, List}
use servone.Prelude.Int.{ℤ}
use servone.Value.{Error, Result, ok, err, StringMap}

pub record ResponseConfig : Type 0 where
  pub status : ℤ
  pub body : String
  pub headers : StringMap

pub record EndpointConfig : Type 0 where
  pub path : String
  pub method : String
  pub response : ResponseConfig

pub record RestConfig : Type 0 where
  pub host : String
  pub port : String
  pub endpoints : List EndpointConfig

pub record CoapConfig : Type 0 where
  pub port : String
  pub host : String
  pub endpoints : List EndpointConfig

pub record MqttConfig : Type 0 where
  pub broker : String
  pub client_id : String

pub record DatabaseConfig : Type 0 where
  pub connection_string : String

pub record KafkaConfig : Type 0 where
  pub brokers : List String

pub record SnmpConfig : Type 0 where
  pub port : ℤ
  pub timeout : ℤ
  pub retries : ℤ
  pub username : String
  pub auth_protocol : String
  pub auth_passphrase : String
  pub priv_protocol : String
  pub priv_passphrase : String
  pub term : ℤ
  pub targets : List String
  pub root_oid : String

pub record SnmpTrapConfig : Type 0 where
  pub enabled : Bool
  pub host : String
  pub port : ℤ
  pub username : String
  pub auth_protocol : String
  pub auth_passphrase : String
  pub priv_protocol : String
  pub priv_passphrase : String

pub record Config : Type 0 where
  pub database : DatabaseConfig
  pub rest : RestConfig
  pub coap : CoapConfig
  pub kafka : KafkaConfig
  pub mqtt : MqttConfig
  pub snmp : SnmpConfig
  pub snmptrap : SnmpTrapConfig

-- The file system at one moment, and the YAML decoder.
pub record ConfigFiles : Type 0 where
  pub open_file : String → Option Error
  pub read_all : String → Result String
  pub unmarshal_yaml : String → Result Config

module _ (files : ConfigFiles) where
  read_config : String → Result String → Result Config
  read_config filename (err e) = err e
  read_config filename (ok content) = files.unmarshal_yaml content

  opened_config : String → Option Error → Result Config
  unfolding read_config
  opened_config filename (some e) = err e
  opened_config filename none = read_config filename (files.read_all filename)

  unfoldable pub load_config : String → Result Config
  unfolding opened_config
  load_config filename = opened_config filename (files.open_file filename)
