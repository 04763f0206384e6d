-- ===== src/Generator/Config.antt =====
-- The configuration of utils/internal/generator/config/config.go.
use k8s_jumperless.Base.{Option, none, some, List, [], if◌then◌else◌, Bytes, codes, ℤ, pos}
use k8s_jumperless.Viper.{Request, Viper}

pub record GeneratorConfig : Type 0 where
  pub baud_rate : ℤ
  pub buffer_size : ℤ
  pub port : Bytes
  pub requests : List Request

-- `NewDefaultConfig`
abbrev pub default_generator_config : GeneratorConfig
default_generator_config = record {
  baud_rate = pos 115200;
  buffer_size = pos 1024;
  port = [];
  requests = [];
}

-- `if err := v.UnmarshalKey(...); err != nil`
abbrev pub requests_or_none : Option (List Request) → List Request
requests_or_none (some requests) = requests
requests_or_none none = []

-- `NewFromViper`
unfoldable pub generator_config_of : Viper → GeneratorConfig
generator_config_of v = record {
  baud_rate =
      if v.is_set (codes "generator.baud-rate")
      then v.get_int (codes "generator.baud-rate")
      else default_generator_config.baud_rate;
  buffer_size =
      if v.is_set (codes "generator.buffer-size")
      then v.get_int (codes "generator.buffer-size")
      else default_generator_config.buffer_size;
  port =
      if v.is_set (codes "generator.port")
      then v.get_string (codes "generator.port")
      else default_generator_config.port;
  requests =
      if v.is_set (codes "generator.requests")
      then requests_or_none (v.unmarshal_requests (codes "generator.requests"))
      else default_generator_config.requests;
}
