-- ===== src/Api/Config.antt =====
-- `SetEntry`, `SetConfigEntry` and `UpsertConfig` of api/v5alpha1/jumperless_types.go.
pub mod Entries
pub mod Repeat
pub mod Upsert
pub mod SetEntry
use k8s_jumperless.Api.Types.{JumperlessConfigEntry, JumperlessConfigSection, JumperlessStatus}
use k8s_jumperless.Base.{List, [], ◌∷◌, if◌then◌else◌, Bytes, str_eq, length, take}

abbrev pub entry : Bytes → Bytes → JumperlessConfigEntry
entry key value = record { key = key; value = value }

-- The loop of `SetEntry`, and the append behind it.
unfoldable pub set_entries : Bytes → Bytes → List JumperlessConfigEntry → List JumperlessConfigEntry
set_entries key value [] = entry key value ∷ []
set_entries key value (e ∷ es) =
    if str_eq e.key key then record e { value = value } ∷ es else e ∷ set_entries key value es

-- `SetEntry`
unfoldable pub set_entry : JumperlessConfigSection → Bytes → Bytes → JumperlessConfigSection
unfolding set_entries
set_entry section key value = record section { entries = set_entries key value section.entries }

-- What the status shows of a section after `SetEntry` on a copy of it, which shares the entries
-- of the slice and not its length: a changed value is seen, and an appended entry is not.
unfoldable pub set_entry_of_copy : JumperlessConfigSection → Bytes → Bytes → JumperlessConfigSection
unfolding set_entry
set_entry_of_copy section key value = record section {
  entries = take (length section.entries) (set_entry section key value).entries;
}

-- The loop of `SetConfigEntry`, whose `sec` is a copy, and the append behind it.
unfoldable pub set_config_sections :
    Bytes → Bytes → Bytes → List JumperlessConfigSection → List JumperlessConfigSection
unfolding set_entry_of_copy
set_config_sections name key value [] = record { name = name; entries = entry key value ∷ [] } ∷ []
set_config_sections name key value (sec ∷ secs) =
    if str_eq sec.name name
    then set_entry_of_copy sec key value ∷ secs
    else sec ∷ set_config_sections name key value secs

-- The loop over `newSection.Entries`.
unfoldable pub merge_entries :
    JumperlessConfigSection → List JumperlessConfigEntry → JumperlessConfigSection
unfolding set_entry
merge_entries section [] = section
merge_entries section (e ∷ es) = merge_entries (set_entry section e.key e.value) es

-- One turn of the outer loop of `UpsertConfig`.
unfoldable pub upsert_section :
    JumperlessConfigSection → List JumperlessConfigSection → List JumperlessConfigSection
unfolding merge_entries
upsert_section new [] = new ∷ []
upsert_section new (existing ∷ secs) =
    if str_eq existing.name new.name
    then merge_entries existing new.entries ∷ secs
    else existing ∷ upsert_section new secs

unfoldable pub upsert_sections :
    List JumperlessConfigSection → List JumperlessConfigSection → List JumperlessConfigSection
unfolding upsert_section
upsert_sections [] secs = secs
upsert_sections (new ∷ config) secs = upsert_sections config (upsert_section new secs)

module _ {C : Type 0} where
  -- `SetConfigEntry`
  unfoldable pub set_config_entry : JumperlessStatus C → Bytes → Bytes → Bytes → JumperlessStatus C
  unfolding set_config_sections
  set_config_entry status name key value = record status {
    config = set_config_sections name key value status.config;
  }

  -- `UpsertConfig`
  unfoldable pub upsert_config :
      JumperlessStatus C → List JumperlessConfigSection → JumperlessStatus C
  unfolding upsert_sections
  upsert_config status config = record status { config = upsert_sections config status.config }
