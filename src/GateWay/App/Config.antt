-- ===== src/GateWay/App/Config.antt =====
-- GateWay/Config.go and Common/LoadJson.go: the configuration file. Reading a file and Go's JSON
-- decoder are parameters; the decoder fills in a value, of which an error may leave a part filled.
use algogateway.Common.{
  Error, is_some, not, Option, pos, Bytes, ℤ, Bool, false, Result, ok, err, List, [],
}

pub record HttpConfig : Type 0 where
  pub read_timeout : ℤ
  pub write_timeout : ℤ

-- `s_serverConfig`.
pub record ServerConfig : Type 0 where
  pub ip : Bytes
  pub http : HttpConfig
  pub register_center_addr : List Bytes
  pub service_group_tab : Bytes

pub record Config : Type 0 where
  pub g_config : ServerConfig

pub record Files : Type 0 where
  pub read_file : Bytes → Result Bytes
  pub unmarshal : Bytes → ServerConfig → ServerConfig × Option Error

-- `new(Config)`.
abbrev pub new_config : Config
new_config = record {
  g_config = record {
    ip = [];
    http = record { read_timeout = pos 0; write_timeout = pos 0 };
    register_center_addr = [];
    service_group_tab = [];
  };
}

module _ (files : Files) where
  -- `Load`.
  unfoldable pub load : Bytes → ServerConfig → ServerConfig × Bool
  load filename v = elim (files.read_file filename) [
    | err e ↦ (v, false)
    | ok data_ ↦ let (v', e) = files.unmarshal data_ v in (v', not (is_some e))
  ]

  -- `Config.Init`.
  unfoldable pub init_config : Bytes → Config → Config × Bool
  unfolding load
  init_config filename conf =
      let (g, done) = load filename conf.g_config in (record { g_config = g }, done)

-- `GetConfig`.
unfoldable get_config : Config → ServerConfig
get_config conf = conf.g_config
