-- ===== src/Proxy/Config.antt =====
-- The configuration of utils/internal/proxy/config/config.go.
use k8s_jumperless.Base.{Bool, false, [], if◌then◌else◌, Bytes, codes, ℤ, pos}
use k8s_jumperless.Viper.{Viper}

pub record ProxyConfig : Type 0 where
  pub baud_rate : ℤ
  pub buffer_size : ℤ
  pub virtual_port : Bytes
  pub real_port : Bytes
  pub overwrite : Bool

-- `NewDefaultConfig`
abbrev pub default_proxy_config : ProxyConfig
default_proxy_config = record {
  baud_rate = pos 115200;
  buffer_size = pos 1024;
  virtual_port = [];
  real_port = [];
  overwrite = false;
}

-- `NewFromViper`
unfoldable pub proxy_config_of : Viper → ProxyConfig
proxy_config_of v = record {
  baud_rate =
      if v.is_set (codes "proxy.baud-rate")
      then v.get_int (codes "proxy.baud-rate")
      else default_proxy_config.baud_rate;
  buffer_size =
      if v.is_set (codes "proxy.buffer-size")
      then v.get_int (codes "proxy.buffer-size")
      else default_proxy_config.buffer_size;
  virtual_port =
      if v.is_set (codes "proxy.virtual-port")
      then v.get_string (codes "proxy.virtual-port")
      else default_proxy_config.virtual_port;
  real_port =
      if v.is_set (codes "proxy.real-port")
      then v.get_string (codes "proxy.real-port")
      else default_proxy_config.real_port;
  overwrite =
      if v.is_set (codes "proxy.overwrite")
      then v.get_bool (codes "proxy.overwrite")
      else default_proxy_config.overwrite;
}
