-- ===== src/Local/Config/Settings.antt =====
-- The lines that a device prints for its settings are read back by `parseConfig`.
use mathlib.Core.List.{append_assoc, reverse-append}
use mathlib.Core.Option.{or_else}
use mathlib.Core.Path.{subst}
use k8s_jumperless.Api.Config.Upsert.{config_value}
use k8s_jumperless.Api.Types.{JumperlessConfigSection}
use k8s_jumperless.Base.{
  Bool, not, ◌&&◌, Option, some, none, List, [], ◌∷◌, ◌++◌, ◌≡◌, ◌≢◌, refl, sym, ap, ◌∙◌, arith,
  if◌then◌else◌, Bytes, codes, str_eq, All, append-ne-nil_right, All-append, map, reverse,
}
use k8s_jumperless.Local.Config.Order.{IsOrdering, config_value-parse_config}
use k8s_jumperless.Local.Config.Scan.{
  config_value-add_section, config_value-set_in_section, has_section_added,
}
use k8s_jumperless.Local.Config.{
  no_section_end, no_assignment, ConfigMap, add_section, set_in_section, ConfigScan, scan_entry,
  scan_section, scan_config_line, scan_config_lines, read_config, parse_config,
}
use k8s_jumperless.Strings.Affix.Laws.{trim_suffix-append}
use k8s_jumperless.Strings.Affix.{has_prefix, trim_prefix, trim_suffix}
use k8s_jumperless.Strings.Space.Laws.{
  IsTrimmed, IsBlank, trim_space_fixed, trim_space_padded, trim_space_pad, space_width-append_ascii,
}
use k8s_jumperless.Strings.Space.{
  trim_space, space_width, last_space_width, ascii_space, two_byte_space, three_byte_space,
}
use k8s_jumperless.Strings.Split.Laws.{Lacks, cut-append, split-join}
use k8s_jumperless.Strings.Split.{join}

pub record Setting : Type 0 where
  pub section : Bytes
  pub key : Bytes
  pub value : Bytes

abbrev entry_text : Setting → Bytes
entry_text s = (b' ' ∷ (s.key ++ b' ' ∷ [])) ++ b'=' ∷ (b' ' ∷ (s.value ++ b';' ∷ []))

-- A line such as "`[dacs] top_rail = 3.50;".
abbrev pub setting_line : Setting → Bytes
setting_line s = codes "`[" ++ (s.section ++ b']' ∷ entry_text s)

pub record IsSetting (s : Setting) : Type 0 where
  pub section_no_end : Lacks b']' s.section
  pub key_trimmed : IsTrimmed s.key
  pub key_ne_nil : s.key ≢ []
  pub key_no_assignment : Lacks b'=' s.key
  pub value_trimmed : IsTrimmed s.value
  pub one_line : Lacks b'\n' (setting_line s)

-- The value that the last setting of a section and a key gives.
unfoldable pub last_setting : Bytes → Bytes → List Setting → Option Bytes
last_setting name key [] = none
last_setting name key (s ∷ settings) =
    or_else (last_setting name key settings)
      (if str_eq s.section name && str_eq s.key key then some s.value else none)

blank : IsBlank b' '
unfolding ascii_space
blank = refl

semicolon_first : (r : Bytes) → last_space_width (b';' ∷ r) ≡ 0
unfolding last_space_width ascii_space two_byte_space three_byte_space
semicolon_first [] = refl
semicolon_first (a ∷ []) = ground arith
semicolon_first (a ∷ b ∷ r) = ground arith

semicolon_last : (r : Bytes) → last_space_width (reverse (r ++ b';' ∷ [])) ≡ 0
semicolon_last r = rw reverse-append (semicolon_first (reverse r))

value_text_IsTrimmed : (v : Bytes) → IsTrimmed v → IsTrimmed (v ++ b';' ∷ [])
value_text_IsTrimmed v t = record { no_first = go v t.no_first; no_last = semicolon_last v }
  where
    go : (v : Bytes) → space_width v ≡ 0 → space_width (v ++ b';' ∷ []) ≡ 0
    go [] h = unfold space_width ascii_space in refl
    go (c ∷ s) h = space_width-append_ascii (c ∷ s) b';' [] (λ e. cc) h (omega arith)

abbrev line_start : Setting → Bytes
line_start s =
    codes "`[" ++ (s.section ++ b']' ∷ ((b' ' ∷ (s.key ++ b' ' ∷ [])) ++ b'=' ∷ (b' ' ∷ s.value)))

setting_line_end : (s : Setting) → setting_line s ≡ line_start s ++ b';' ∷ []
setting_line_end s = simp append_assoc

module _ (s : Setting) (w : IsSetting s) where
  setting_line-IsTrimmed : IsTrimmed (setting_line s)
  setting_line-IsTrimmed = record {
    no_first =
        space_width-append_ascii (b'`' ∷ []) b'[' _ (λ e. cc)
          (unfold space_width ascii_space in refl) (omega arith);
    no_last =
        subst (λ t. last_space_width (reverse t) ≡ 0) (sym (setting_line_end s))
          (semicolon_last (line_start s));
  }

  key_Lacks : Lacks b'=' (b' ' ∷ (s.key ++ b' ' ∷ []))
  key_Lacks = (
    (λ e. absurd (omega arith)),
    All-append (λ b. b ≢ b'=') s.key (b' ' ∷ []) w.key_no_assignment
        ((λ e. absurd (omega arith)), tt),
  )

  scan_entry_setting :
      (scan : ConfigScan)
      → scan_entry s.section (entry_text s) scan ≡ record scan {
        config = set_in_section s.section s.key s.value (add_section s.section scan.config);
      }
  unfolding scan_entry
  scan_entry_setting scan =
      ap
        (λ (c : Bytes × Bytes × Bool).
          let config = add_section s.section scan.config in
          if not c.2
          then record scan { config = config; errs = scan.errs ++ no_assignment ∷ [] }
          else record scan {
            config =
                set_in_section s.section (trim_space c.0) (trim_suffix (trim_space c.1) (codes ";"))
                  config;
          })
        (cut-append (b' ' ∷ (s.key ++ b' ' ∷ [])) b'=' [] (b' ' ∷ (s.value ++ b';' ∷ [])) key_Lacks)
      ∙ rw (
        trim_space_padded (b' ' ∷ []) s.key (b' ' ∷ []) (blank, tt) (blank, tt) w.key_trimmed
            w.key_ne_nil,
        trim_space_pad (b' ' ∷ []) (s.value ++ b';' ∷ []) (blank, tt)
            (value_text_IsTrimmed s.value w.value_trimmed)
            (append-ne-nil_right s.value (b';' ∷ []) (λ e. cc)),
        trim_suffix-append s.value (codes ";"),
      )

  scan_config_line_setting :
      (scan : ConfigScan)
      → scan_config_line scan (setting_line s) ≡ record scan {
        config = set_in_section s.section s.key s.value (add_section s.section scan.config);
      }
  unfolding scan_config_line
  scan_config_line_setting scan =
      ap
        (λ (t : Bytes).
          if not (has_prefix t (codes "`["))
          then scan
          else scan_section (trim_prefix t (codes "`[")) scan)
        (trim_space_fixed (setting_line s) setting_line-IsTrimmed)
      ∙ ap
          (λ (c : Bytes × Bytes × Bool).
            if not c.2
            then record scan { errs = scan.errs ++ no_section_end ∷ [] }
            else scan_entry c.0 c.1 scan)
          (cut-append s.section b']' [] (entry_text s) w.section_no_end)
      ∙ scan_entry_setting scan

-- The lines of some settings.
abbrev pub settings_text : Setting → List Setting → Bytes
settings_text s settings = join (map setting_line (s ∷ settings)) (codes "\n")

scan_settings :
    (settings : List Setting) (scan : ConfigScan) (name key : Bytes)
    → All IsSetting settings
    → (config_value name key (scan_config_lines scan (map setting_line settings)).config
        ≡ or_else (last_setting name key settings) (config_value name key scan.config))
      × ((scan_config_lines scan (map setting_line settings)).errs ≡ scan.errs)
unfolding scan_config_lines last_setting or_else
scan_settings [] scan name key h = (refl, refl)
scan_settings (s ∷ settings) scan name key h =
    let more = map setting_line settings in
    let config = add_section s.section scan.config in
    let next = record scan { config = set_in_section s.section s.key s.value config } in
    let line = scan_config_line_setting s h.0 scan in
    let (value, errs) = scan_settings settings next name key h.1 in
    (
      ap (λ t. config_value name key (scan_config_lines t more).config) line
          ∙ value
          ∙ ground (
            arith,
            config_value-set_in_section s.section s.key s.value name key config
                (has_section_added s.section scan.config),
            config_value-add_section s.section name key scan.config,
          ),
      ap (λ t. (scan_config_lines t more).errs) line ∙ errs,
    )

All-lines :
    (settings : List Setting)
    → All IsSetting settings
    → All (Lacks b'\n') (map setting_line settings)
All-lines [] h = tt
All-lines (s ∷ settings) h = (h.0.one_line, All-lines settings h.1)

or_else-none : (o : Option Bytes) → or_else o none ≡ o
unfolding or_else
or_else-none none = refl
or_else-none (some v) = refl

config_value-nil : (name key : Bytes) → config_value name key [] ≡ none
unfolding config_value
config_value-nil name key = refl

read_settings :
    (s : Setting) (settings : List Setting) (name key : Bytes)
    → All IsSetting (s ∷ settings)
    → (config_value name key (read_config (settings_text s settings)).config
        ≡ last_setting name key (s ∷ settings))
      × ((read_config (settings_text s settings)).errs ≡ [])
unfolding read_config
read_settings s settings name key h =
    let start : ConfigScan = record { config = []; errs = [] } in
    let lines = ap (scan_config_lines start) (
      split-join (setting_line s) (map setting_line settings) b'\n' (All-lines (s ∷ settings) h)) in
    let (value, errs) = scan_settings (s ∷ settings) start name key h in
    (
      ap (λ t. config_value name key t.config) lines
          ∙ value
          ∙ ap (or_else (last_setting name key (s ∷ settings))) (config_value-nil name key)
          ∙ or_else-none (last_setting name key (s ∷ settings)),
      ap (λ t. t.errs) lines ∙ errs,
    )

-- The settings that a device prints, a line for each, are read with no error, whatever the order
-- of the map's `range`: a section and a key have the value of the last line that sets them, and
-- no value if none does. The order is one in which `range` may list the map. A section has no `]` in its name, a key is trimmed, not empty and has no
-- `=`, a value is trimmed, and none has a newline.
pub parse_config-settings_text :
    (order : ConfigMap → List JumperlessConfigSection)
    → ((config : ConfigMap) → IsOrdering config (order config))
    → (s : Setting) (settings : List Setting) (name key : Bytes) → All IsSetting (s ∷ settings)
    → (config_value name key (parse_config order (settings_text s settings)).0
        ≡ last_setting name key (s ∷ settings))
      × ((parse_config order (settings_text s settings)).1 ≡ [])
unfolding parse_config
parse_config-settings_text order is_order s settings name key h =
    let (value, errs) = read_settings s settings name key h in
    (config_value-parse_config order is_order (settings_text s settings) name key ∙ value, errs)
