-- ===== src/Api/Config/Upsert.antt =====
-- `UpsertConfig` as a merge of two maps from sections and keys to values.
use mathlib.Core.Option.{or_else}
use k8s_jumperless.Api.Config.Entries.{
  entry_value, UniqueKeys, entry_value-merge_entries, name-merge_entries, merge_entries-UniqueKeys,
}
use k8s_jumperless.Api.Config.{upsert_section, upsert_sections, upsert_config}
use k8s_jumperless.Api.Types.{JumperlessConfigSection, JumperlessStatus}
use k8s_jumperless.Base.{
  Bool, false, ◌||◌, Option, none, List, [], ◌∷◌, ◌≡◌, refl, arith, if◌then◌else◌, Bytes, str_eq,
  str_eq_iff, All, Bool-cases, inl, inr,
}

-- The value under a section's name and a key, in the first section of that name.
unfoldable pub config_value : Bytes → Bytes → List JumperlessConfigSection → Option Bytes
unfolding entry_value
config_value name key [] = none
config_value name key (s ∷ secs) =
    if str_eq s.name name then entry_value key s.entries else config_value name key secs

unfoldable pub has_section : Bytes → List JumperlessConfigSection → Bool
has_section name [] = false
has_section name (s ∷ secs) = str_eq s.name name || has_section name secs

-- Each section name occurs once, and each key once in its section: the `listType=map` markers.
abbrev pub IsConfigMap : List JumperlessConfigSection → Type 0
IsConfigMap [] = Unit
IsConfigMap (s ∷ secs) = UniqueKeys s.entries × (has_section s.name secs ≡ false) × IsConfigMap secs

config_value_absent :
    (name key : Bytes) (secs : List JumperlessConfigSection)
    → has_section name secs ≡ false
    → config_value name key secs ≡ none
unfolding config_value has_section
config_value_absent name key [] h = refl
config_value_absent name key (s ∷ secs) h = ground (arith, config_value_absent name key secs)

config_value-upsert_section :
    (name key : Bytes) (new : JumperlessConfigSection) (secs : List JumperlessConfigSection)
    → UniqueKeys new.entries
    → config_value name key (upsert_section new secs) ≡ (
        if str_eq new.name name
        then or_else (entry_value key new.entries) (config_value name key secs)
        else config_value name key secs)
unfolding config_value upsert_section or_else
config_value-upsert_section name key new [] h = ground arith
config_value-upsert_section name key new (s ∷ secs) h = ground (
  arith,
  str_eq_iff s.name new.name,
  str_eq_iff new.name name,
  str_eq_iff s.name name,
  config_value-upsert_section name key new secs h,
  entry_value-merge_entries key new.entries s h,
  name-merge_entries new.entries s,
)

pub config_value-upsert_sections :
    (name key : Bytes) (config secs : List JumperlessConfigSection)
    → IsConfigMap config
    → config_value name key (upsert_sections config secs)
      ≡ or_else (config_value name key config) (config_value name key secs)
unfolding config_value upsert_sections or_else
config_value-upsert_sections name key [] secs h = refl
config_value-upsert_sections name key (new ∷ config) secs h = ground (
  arith,
  str_eq_iff new.name name,
  config_value-upsert_sections name key config (upsert_section new secs) h.2,
  config_value-upsert_section name key new secs h.0,
  config_value_absent name key config,
)

module _ {C : Type 0} where
  -- After `UpsertConfig` a section and a key have the value of the new configuration if it has
  -- one, and otherwise the value that the status had. The new configuration names each section
  -- once and each key once in its section.
  pub config_value-upsert_config :
      (name key : Bytes) (status : JumperlessStatus C) (config : List JumperlessConfigSection)
      → IsConfigMap config
      → config_value name key (upsert_config status config).config
        ≡ or_else (config_value name key config) (config_value name key status.config)
  unfolding upsert_config
  config_value-upsert_config name key status config h =
      config_value-upsert_sections name key config status.config h

pub has_section-upsert_section :
    (name : Bytes) (new : JumperlessConfigSection) (secs : List JumperlessConfigSection)
    → has_section name (upsert_section new secs) ≡ (str_eq new.name name || has_section name secs)
unfolding has_section upsert_section
has_section-upsert_section name new [] = refl
has_section-upsert_section name new (s ∷ secs) = ground (
  arith,
  str_eq_iff s.name new.name,
  str_eq_iff s.name name,
  str_eq_iff new.name name,
  has_section-upsert_section name new secs,
  name-merge_entries new.entries s,
)

upsert_section-IsConfigMap :
    (new : JumperlessConfigSection) (secs : List JumperlessConfigSection)
    → UniqueKeys new.entries
    → IsConfigMap secs
    → IsConfigMap (upsert_section new secs)
unfolding upsert_section
upsert_section-IsConfigMap new [] u h = (u, unfold has_section in refl, tt)
upsert_section-IsConfigMap new (s ∷ secs) u h = elim (Bool-cases (str_eq s.name new.name)) [
  | inl e ↦
      rw e
        (merge_entries-UniqueKeys new.entries s h.0, rw (name-merge_entries new.entries s) h.1, h.2)
  | inr e ↦ rw e (
    h.0,
    ground (
      arith,
      has_section-upsert_section s.name new secs,
      str_eq_iff s.name new.name,
      str_eq_iff new.name s.name,
    ),
    upsert_section-IsConfigMap new secs u h.2,
  )
]

upsert_sections-IsConfigMap :
    (config secs : List JumperlessConfigSection)
    → All (λ s. UniqueKeys s.entries) config
    → IsConfigMap secs
    → IsConfigMap (upsert_sections config secs)
unfolding upsert_sections
upsert_sections-IsConfigMap [] secs u h = h
upsert_sections-IsConfigMap (new ∷ config) secs u h =
    upsert_sections-IsConfigMap config (upsert_section new secs) u.1
      (upsert_section-IsConfigMap new secs u.0 h)

module _ {C : Type 0} where
  -- `UpsertConfig` keeps the names of the sections and the keys of each section unique, if the
  -- keys of each new section are. The new configuration may name a section twice.
  pub upsert_config-IsConfigMap :
      (status : JumperlessStatus C) (config : List JumperlessConfigSection)
      → All (λ s. UniqueKeys s.entries) config
      → IsConfigMap status.config
      → IsConfigMap (upsert_config status config).config
  unfolding upsert_config
  upsert_config-IsConfigMap status config u h = upsert_sections-IsConfigMap config status.config u h
