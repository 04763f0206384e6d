-- ===== src/Api/Config/Entries.antt =====
-- The entries of a section as a map from keys to values.
use mathlib.Core.Option.{or_else}
use k8s_jumperless.Api.Config.{set_entries, set_entry, merge_entries}
use k8s_jumperless.Api.Types.{JumperlessConfigEntry, JumperlessConfigSection}
use k8s_jumperless.Base.{
  Option, none, some, List, [], ◌∷◌, ◌≡◌, ◌≢◌, refl, arith, if◌then◌else◌, Bytes, str_eq,
  str_eq_iff, All, length, take, take-length,
}

-- The value of the first entry with the key.
unfoldable pub entry_value : Bytes → List JumperlessConfigEntry → Option Bytes
entry_value key [] = none
entry_value key (e ∷ es) = if str_eq e.key key then some e.value else entry_value key es

-- No two entries share a key.
abbrev pub UniqueKeys : List JumperlessConfigEntry → Type 0
UniqueKeys [] = Unit
UniqueKeys (e ∷ es) = (entry_value e.key es ≡ none) × UniqueKeys es

pub entry_value-set_entries :
    (j k v : Bytes) (es : List JumperlessConfigEntry)
    → entry_value j (set_entries k v es) ≡ (if str_eq k j then some v else entry_value j es)
unfolding entry_value set_entries
entry_value-set_entries j k v [] = refl
entry_value-set_entries j k v (e ∷ es) = ground (
  arith,
  str_eq_iff e.key k,
  str_eq_iff e.key j,
  str_eq_iff k j,
  entry_value-set_entries j k v es,
)

pub set_entries-UniqueKeys :
    (k v : Bytes) (es : List JumperlessConfigEntry)
    → UniqueKeys es
    → UniqueKeys (set_entries k v es)
unfolding set_entries
set_entries-UniqueKeys k v [] h = (unfold entry_value in refl, tt)
set_entries-UniqueKeys k v (e ∷ es) h = ground (
  arith,
  str_eq_iff e.key k,
  str_eq_iff k e.key,
  set_entries-UniqueKeys k v es h.1,
  entry_value-set_entries e.key k v es,
)

pub set_entries_same :
    (k v : Bytes) (es : List JumperlessConfigEntry)
    → entry_value k es ≡ some v
    → set_entries k v es ≡ es
unfolding entry_value set_entries
set_entries_same k v [] h = cc
set_entries_same k v (e ∷ es) h = ground (arith, set_entries_same k v es)

pub set_entries_missing :
    (k v : Bytes) (es : List JumperlessConfigEntry)
    → entry_value k es ≡ none
    → take (length es) (set_entries k v es) ≡ es
unfolding entry_value set_entries
set_entries_missing k v [] h = refl
set_entries_missing k v (e ∷ es) h = ground (arith, set_entries_missing k v es)

pub set_entries_present :
    (k v : Bytes) (es : List JumperlessConfigEntry)
    → entry_value k es ≢ none
    → take (length es) (set_entries k v es) ≡ set_entries k v es
unfolding entry_value set_entries
set_entries_present k v [] h = absurd (h refl)
set_entries_present k v (e ∷ es) h = ground (arith, set_entries_present k v es, take-length es)

-- Merging keeps the values of the other keys and takes each new entry.
pub entry_value-merge_entries :
    (j : Bytes) (new : List JumperlessConfigEntry) (section : JumperlessConfigSection)
    → UniqueKeys new
    → entry_value j (merge_entries section new).entries
      ≡ or_else (entry_value j new) (entry_value j section.entries)
unfolding entry_value merge_entries set_entry or_else
entry_value-merge_entries j [] section h = refl
entry_value-merge_entries j (e ∷ new) section h = ground (
  arith,
  str_eq_iff e.key j,
  entry_value-merge_entries j new (set_entry section e.key e.value) h.1,
  entry_value-set_entries j e.key e.value section.entries,
)

pub name-merge_entries :
    (new : List JumperlessConfigEntry) (section : JumperlessConfigSection)
    → (merge_entries section new).name ≡ section.name
unfolding merge_entries set_entry
name-merge_entries [] section = refl
name-merge_entries (e ∷ new) section = name-merge_entries new (set_entry section e.key e.value)

pub merge_entries-UniqueKeys :
    (new : List JumperlessConfigEntry) (section : JumperlessConfigSection)
    → UniqueKeys section.entries
    → UniqueKeys (merge_entries section new).entries
unfolding merge_entries set_entry
merge_entries-UniqueKeys [] section h = h
merge_entries-UniqueKeys (e ∷ new) section h =
    merge_entries-UniqueKeys new (set_entry section e.key e.value)
      (set_entries-UniqueKeys e.key e.value section.entries h)

pub merge_entries_same :
    (new : List JumperlessConfigEntry) (section : JumperlessConfigSection)
    → All (λ e. entry_value e.key section.entries ≡ some e.value) new
    → merge_entries section new ≡ section
unfolding merge_entries set_entry
merge_entries_same [] section h = refl
merge_entries_same (e ∷ new) section h =
    rw (set_entries_same e.key e.value section.entries h.0) (merge_entries_same new section h.1)
