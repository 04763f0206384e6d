-- ===== src/Viper.antt =====
-- The settings that an instance of github.com/spf13/viper holds, as the program reads them, and the
-- configuration files that it reads and writes.
use k8s_jumperless.Base.{Bool, Option, List, Bytes, ℤ}
use k8s_jumperless.Emulator.Mappings.{Mappings}

-- `Request` of utils/internal/generator/config/config.go.
pub record Request : Type 0 where
  pub text : Bytes
  pub timeout : ℤ

-- `UnmarshalKey` into a slice of mappings or of requests: `none` for an error.
pub record Viper : Type 0 where
  pub is_set : Bytes → Bool
  pub get_int : Bytes → ℤ
  pub get_string : Bytes → Bytes
  pub get_bool : Bytes → Bool
  pub unmarshal_mappings : Bytes → Option Mappings
  pub unmarshal_requests : Bytes → Option (List Request)

-- `ReadInConfig`: the settings of the file, no such file, or any other error.
pub data Reading (Settings : Type 0) : Type 0 where
  read_in : Settings → Reading Settings
  not_found unreadable : Reading Settings

pub record ConfigFiles (W : Type 0) : Type 1 where
  pub Settings : Type 0
  pub no_settings : Settings
  pub read_in_config : Bytes → W → Reading Settings × W
  pub set_mappings : Bytes → Mappings → Settings → Settings
  pub write_config_as : Settings → Bytes → W → Bool × W
