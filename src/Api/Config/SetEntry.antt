-- ===== src/Api/Config/SetEntry.antt =====
-- When `SetConfigEntry` sets an entry, and when it does not.
use k8s_jumperless.Api.Config.Entries.{
  entry_value, entry_value-set_entries, set_entries_missing, set_entries_present,
}
use k8s_jumperless.Api.Config.Upsert.{config_value, has_section}
use k8s_jumperless.Api.Config.{set_entry, set_entry_of_copy, set_config_sections, set_config_entry}
use k8s_jumperless.Api.Types.{JumperlessConfigSection, JumperlessStatus}
use k8s_jumperless.Base.{
  true, false, ◌&&◌, none, some, List, [], ◌∷◌, ◌≡◌, ◌≢◌, ◌⊎◌, ap, arith, if◌then◌else◌, Bytes,
  str_eq, str_eq_iff, Bool-cases, inl, inr,
}

set_config_sections_lost :
    (name key value : Bytes) (secs : List JumperlessConfigSection)
    → has_section name secs ≡ true
    → config_value name key secs ≡ none
    → set_config_sections name key value secs ≡ secs
unfolding has_section config_value set_config_sections set_entry_of_copy set_entry
set_config_sections_lost name key value [] h n = cc
set_config_sections_lost name key value (s ∷ secs) h n =
    ground
      (arith, set_config_sections_lost name key value secs, set_entries_missing key value s.entries)

config_value-set_config_sections :
    (name key value j k : Bytes) (secs : List JumperlessConfigSection)
    → (has_section name secs ≡ false) ⊎ (config_value name key secs ≢ none)
    → config_value j k (set_config_sections name key value secs)
      ≡ (if str_eq name j && str_eq key k then some value else config_value j k secs)
unfolding has_section config_value set_config_sections set_entry_of_copy set_entry entry_value
config_value-set_config_sections name key value j k [] h = ground arith
config_value-set_config_sections name key value j k (s ∷ secs) h =
    elim (Bool-cases (str_eq s.name name)) [
      | inl e ↦ rw e (here_entry e)
      | inr e ↦ rw e (
          ground (
            arith,
            str_eq_iff s.name name,
            str_eq_iff s.name j,
            str_eq_iff name j,
            config_value-set_config_sections name key value j k secs,
          ))
    ]
  where
    here_entry :
        str_eq s.name name ≡ true
        → config_value j k (set_entry_of_copy s key value ∷ secs)
          ≡ (if str_eq name j && str_eq key k then some value else config_value j k (s ∷ secs))
    here_entry e = ground (
      arith,
      str_eq_iff s.name name,
      str_eq_iff s.name j,
      str_eq_iff name j,
      set_entries_present key value s.entries,
      entry_value-set_entries k key value s.entries,
    )

module _ {C : Type 0} where
  -- `SetConfigEntry` with the name of a section that is there and a key that the section lacks
  -- changes nothing: the entry is lost.
  pub set_config_entry_lost :
      (status : JumperlessStatus C) (name key value : Bytes)
      → has_section name status.config ≡ true
      → config_value name key status.config ≡ none
      → set_config_entry status name key value ≡ status
  unfolding set_config_entry
  set_config_entry_lost status name key value h n =
      ap (λ (secs : List JumperlessConfigSection). record status { config = secs })
        (set_config_sections_lost name key value status.config h n)

  -- `SetConfigEntry` with the name of a section that is not there, or with a key that is, sets
  -- the value under that name and key and leaves every other one.
  pub config_value-set_config_entry :
      (status : JumperlessStatus C) (name key value j k : Bytes)
      → (has_section name status.config ≡ false) ⊎ (config_value name key status.config ≢ none)
      → config_value j k (set_config_entry status name key value).config
        ≡ (if str_eq name j && str_eq key k then some value else config_value j k status.config)
  unfolding set_config_entry
  config_value-set_config_entry status name key value j k h =
      config_value-set_config_sections name key value j k status.config h
