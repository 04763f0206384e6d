-- ===== src/Local/Config/Scan.antt =====
-- The map that `parseConfig` fills.
use k8s_jumperless.Api.Config.Entries.{entry_value, entry_value-set_entries, set_entries-UniqueKeys}
use k8s_jumperless.Api.Config.Upsert.{config_value, has_section, IsConfigMap}
use k8s_jumperless.Base.{
  true, ◌&&◌, ◌||◌, some, List, [], ◌∷◌, ◌≡◌, refl, arith, if◌then◌else◌, Bytes, codes, str_eq,
  str_eq_iff, drop, Bool-cases, inl, inr,
}
use k8s_jumperless.Local.Config.{
  ConfigMap, add_section, set_in_section, ConfigScan, scan_entry, scan_section, scan_config_line,
  scan_config_lines, read_config,
}
use k8s_jumperless.Strings.Affix.{has_prefix}
use k8s_jumperless.Strings.Space.{trim_space}
use k8s_jumperless.Strings.Split.{cut, split}

has_section-add_section :
    (m n : Bytes) (c : ConfigMap)
    → has_section n (add_section m c) ≡ (str_eq m n || has_section n c)
unfolding has_section add_section
has_section-add_section m n [] = refl
has_section-add_section m n (s ∷ c) =
    ground (
      arith,
      str_eq_iff s.name m,
      str_eq_iff s.name n,
      str_eq_iff m n,
      has_section-add_section m n c,
    )

pub config_value-add_section :
    (m n k : Bytes) (c : ConfigMap) → config_value n k (add_section m c) ≡ config_value n k c
unfolding config_value add_section entry_value
config_value-add_section m n k [] = ground arith
config_value-add_section m n k (s ∷ c) = ground (arith, config_value-add_section m n k c)

add_section-IsConfigMap :
    (m : Bytes) (c : ConfigMap) → IsConfigMap c → IsConfigMap (add_section m c)
unfolding add_section
add_section-IsConfigMap m [] h = (tt, unfold has_section in refl, tt)
add_section-IsConfigMap m (s ∷ c) h = ground (
  arith,
  str_eq_iff s.name m,
  str_eq_iff m s.name,
  has_section-add_section m s.name c,
  add_section-IsConfigMap m c h.2,
)

has_section-set_in_section :
    (m j v n : Bytes) (c : ConfigMap) → has_section n (set_in_section m j v c) ≡ has_section n c
unfolding has_section set_in_section
has_section-set_in_section m j v n [] = refl
has_section-set_in_section m j v n (s ∷ c) = ground (arith, has_section-set_in_section m j v n c)

pub config_value-set_in_section :
    (m j v n k : Bytes) (c : ConfigMap)
    → has_section m c ≡ true
    → config_value n k (set_in_section m j v c)
      ≡ (if str_eq m n && str_eq j k then some v else config_value n k c)
unfolding has_section config_value set_in_section
config_value-set_in_section m j v n k [] h = cc
config_value-set_in_section m j v n k (s ∷ c) h = ground (
  arith,
  str_eq_iff s.name m,
  str_eq_iff s.name n,
  str_eq_iff m n,
  entry_value-set_entries k j v s.entries,
  config_value-set_in_section m j v n k c,
)

set_in_section-IsConfigMap :
    (m j v : Bytes) (c : ConfigMap) → IsConfigMap c → IsConfigMap (set_in_section m j v c)
unfolding set_in_section
set_in_section-IsConfigMap m j v [] h = tt
set_in_section-IsConfigMap m j v (s ∷ c) h = elim (Bool-cases (str_eq s.name m)) [
  | inl e ↦ rw e (set_entries-UniqueKeys j v s.entries h.0, h.1, h.2)
  | inr e ↦ rw e (
    h.0,
    rw (has_section-set_in_section m j v s.name c) h.1,
    set_in_section-IsConfigMap m j v c h.2,
  )
]

-- A section is there once it was added.
pub has_section_added : (m : Bytes) (c : ConfigMap) → has_section m (add_section m c) ≡ true
has_section_added m c = ground (arith, has_section-add_section m m c, str_eq_iff m m)

scan_entry-IsConfigMap :
    (section rest : Bytes) (scan : ConfigScan)
    → IsConfigMap scan.config
    → IsConfigMap (scan_entry section rest scan).config
unfolding scan_entry
scan_entry-IsConfigMap section rest scan h =
    let added = add_section-IsConfigMap section scan.config h in
    elim (Bool-cases (cut rest (codes "=")).2) [
      | inl e ↦
          rw e (set_in_section-IsConfigMap section _ _ (add_section section scan.config) added)
      | inr e ↦ rw e added
    ]

scan_section-IsConfigMap :
    (text : Bytes) (scan : ConfigScan)
    → IsConfigMap scan.config
    → IsConfigMap (scan_section text scan).config
unfolding scan_section
scan_section-IsConfigMap text scan h = elim (Bool-cases (cut text (codes "]")).2) [
  | inl e ↦ rw e (scan_entry-IsConfigMap (cut text (codes "]")).0 (cut text (codes "]")).1 scan h)
  | inr e ↦ rw e h
]

scan_config_line-IsConfigMap :
    (scan : ConfigScan) (line : Bytes)
    → IsConfigMap scan.config
    → IsConfigMap (scan_config_line scan line).config
unfolding scan_config_line
scan_config_line-IsConfigMap scan line h =
    elim (Bool-cases (has_prefix (trim_space line) (codes "`["))) [
      | inl e ↦ rw e (scan_section-IsConfigMap (drop 2 (trim_space line)) scan h)
      | inr e ↦ rw e h
    ]

scan_config_lines-IsConfigMap :
    (lines : List Bytes) (scan : ConfigScan)
    → IsConfigMap scan.config
    → IsConfigMap (scan_config_lines scan lines).config
unfolding scan_config_lines
scan_config_lines-IsConfigMap [] scan h = h
scan_config_lines-IsConfigMap (line ∷ lines) scan h =
    scan_config_lines-IsConfigMap lines (scan_config_line scan line)
      (scan_config_line-IsConfigMap scan line h)

-- Whatever the device answers, each section and each key of a section is there once.
pub read_config-IsConfigMap :
    (config_output : Bytes) → IsConfigMap (read_config config_output).config
unfolding read_config
read_config-IsConfigMap config_output =
    scan_config_lines-IsConfigMap (split config_output (codes "\n")) _ tt
