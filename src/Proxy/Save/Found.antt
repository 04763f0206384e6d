-- ===== src/Proxy/Save/Found.antt =====
-- The file that `findConfigFile` finds.
use k8s_jumperless.Base.{Option, some, [], ◌∷◌, ◌≡◌, ◌≢◌, refl, sym, ap, ◌∙◌, Bytes, codes}
use k8s_jumperless.Proxy.Save.{find_config_file}
use mathlib.Core.Path.{ap₂}

-- The configuration file of the command: the one that the root command has read; without one, that
-- of the flag; and if the flag is empty, the default one.
pub data IsConfigFile (used : Bytes) (flag : Option Bytes) (file : Bytes) : Type 0 where
  by_use : used ≢ [] → file ≡ used → IsConfigFile used flag file
  by_flag : used ≡ [] → flag ≡ some file → file ≢ [] → IsConfigFile used flag file
  by_default :
      used ≡ [] → flag ≡ some [] → file ≡ codes "jumperless-utils.yml" → IsConfigFile used flag file

find_config_file-used :
    (used : Bytes) (flag : Option Bytes) (default_file : Bytes)
    → used ≢ []
    → find_config_file used flag default_file ≡ some used
unfolding find_config_file
find_config_file-used [] flag default_file ne = absurd (ne refl)
find_config_file-used (c ∷ used) flag default_file ne = refl

find_config_file-flag :
    (file default_file : Bytes)
    → file ≢ []
    → find_config_file [] (some file) default_file ≡ some file
unfolding find_config_file
find_config_file-flag [] default_file ne = absurd (ne refl)
find_config_file-flag (c ∷ file) default_file ne = refl

pub find_config_file-IsConfigFile :
    (used : Bytes) (flag : Option Bytes) (file : Bytes)
    → IsConfigFile used flag file
    → find_config_file used flag (codes "jumperless-utils.yml") ≡ some file
unfolding find_config_file
find_config_file-IsConfigFile used flag file (by_use ne is_used) =
    find_config_file-used used flag _ ne ∙ ap some (sym is_used)
find_config_file-IsConfigFile used flag file (by_flag empty is_flag ne) =
    ap₂ (λ u f. find_config_file u f (codes "jumperless-utils.yml")) empty is_flag
    ∙ find_config_file-flag file _ ne
find_config_file-IsConfigFile used flag file (by_default empty is_flag is_default) =
    ap₂ (λ u f. find_config_file u f (codes "jumperless-utils.yml")) empty is_flag
    ∙ ap some (sym is_default)
