-- ===== src/Local/Config.antt =====
-- `parseConfig` of internal/controller/local/local.go.
pub mod Scan
pub mod Order
pub mod Settings
use k8s_jumperless.Api.Config.{entry, set_entries}
use k8s_jumperless.Api.Types.{JumperlessConfigSection}
use k8s_jumperless.Base.{
  Bool, true, false, not, List, [], ◌∷◌, ◌++◌, if◌then◌else◌, Bytes, codes, str_eq,
}
use k8s_jumperless.Strings.Affix.{has_prefix, trim_prefix, trim_suffix}
use k8s_jumperless.Strings.Space.{trim_space}
use k8s_jumperless.Strings.Split.{cut, split}

-- The two errors, which wrap `ErrParseNetLine`: no `]`, and no `=`.
pub data ConfigError : Type 0 where
  no_section_end no_assignment : ConfigError

-- The map of maps `config`, as the list of its sections in the order of their first writes;
-- the entries of a section likewise.
abbrev pub ConfigMap : Type 0
ConfigMap = List JumperlessConfigSection

-- `if _, ok := config[section]; !ok { config[section] = map[string]string{} }`
unfoldable pub add_section : Bytes → ConfigMap → ConfigMap
add_section name [] = record { name = name; entries = [] } ∷ []
add_section name (s ∷ config) =
    if str_eq s.name name then s ∷ config else s ∷ add_section name config

-- `config[section][key] = value`, for a section that is there.
unfoldable pub set_in_section : Bytes → Bytes → Bytes → ConfigMap → ConfigMap
unfolding set_entries
set_in_section name key value [] = []
set_in_section name key value (s ∷ config) =
    if str_eq s.name name
    then record s { entries = set_entries key value s.entries } ∷ config
    else s ∷ set_in_section name key value config

pub record ConfigScan : Type 0 where
  pub config : ConfigMap
  pub errs : List ConfigError

-- The part of a line behind the `]`.
unfoldable pub scan_entry : Bytes → Bytes → ConfigScan → ConfigScan
unfolding cut trim_space trim_suffix set_in_section add_section
scan_entry section rest scan =
    let config = add_section section scan.config in
    let (key, value, found) = cut rest (codes "=") in
    if not found
    then record scan { config = config; errs = scan.errs ++ no_assignment ∷ [] }
    else record scan {
      config =
          set_in_section section (trim_space key) (trim_suffix (trim_space value) (codes ";"))
            config;
    }

-- The part of a line behind the "`[".
unfoldable pub scan_section : Bytes → ConfigScan → ConfigScan
unfolding cut scan_entry
scan_section text scan =
    let (section, rest, found) = cut text (codes "]") in
    if not found
    then record scan { errs = scan.errs ++ no_section_end ∷ [] }
    else scan_entry section rest scan

-- One turn of the loop over the lines. An empty line is one that does not begin with "`[".
unfoldable pub scan_config_line : ConfigScan → Bytes → ConfigScan
unfolding trim_space has_prefix trim_prefix scan_section
scan_config_line scan line =
    let trimmed = trim_space line in
    if not (has_prefix trimmed (codes "`["))
    then scan
    else scan_section (trim_prefix trimmed (codes "`[")) scan

unfoldable pub scan_config_lines : ConfigScan → List Bytes → ConfigScan
unfolding scan_config_line
scan_config_lines scan [] = scan
scan_config_lines scan (line ∷ lines) = scan_config_lines (scan_config_line scan line) lines

-- `parseConfig` up to the loop over the map: the map, and the errors for `NewAggregate`.
unfoldable pub read_config : Bytes → ConfigScan
unfolding scan_config_lines split
read_config config_output =
    scan_config_lines (record { config = []; errs = [] }) (split config_output (codes "\n"))

-- `parseConfig`: the sections and the errors. `order` lists the map in the order in which the two
-- `range` loops go through it, which Go leaves open.
unfoldable pub parse_config :
    (ConfigMap → List JumperlessConfigSection)
    → Bytes
    → List JumperlessConfigSection × List ConfigError
unfolding read_config
parse_config order config_output =
    let scan = read_config config_output in (order scan.config, scan.errs)
