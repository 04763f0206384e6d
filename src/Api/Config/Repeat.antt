-- ===== src/Api/Config/Repeat.antt =====
-- `UpsertConfig` with the same configuration again changes nothing.
use mathlib.Core.Option.{or_else}
use k8s_jumperless.Api.Config.Entries.{entry_value, UniqueKeys, merge_entries_same}
use k8s_jumperless.Api.Config.Upsert.{
  config_value, has_section, IsConfigMap, config_value-upsert_sections, has_section-upsert_section,
}
use k8s_jumperless.Api.Config.{upsert_section, upsert_sections, upsert_config}
use k8s_jumperless.Api.Types.{JumperlessConfigEntry, JumperlessConfigSection, JumperlessStatus}
use k8s_jumperless.Base.{
  true, false, ◌||◌, none, some, List, [], ◌∷◌, ◌≡◌, refl, ap, ◌∙◌, arith, Bytes, str_eq,
  str_eq_iff, str_eq_refl, All, All-map, Bool-cases, inl, inr,
}

abbrev Reads : List JumperlessConfigEntry → JumperlessConfigEntry → Type 0
Reads es e = entry_value e.key es ≡ some e.value

Reads-more :
    (e : JumperlessConfigEntry) (es ds : List JumperlessConfigEntry)
    → entry_value e.key ds ≡ none
    → All (Reads es) ds
    → All (Reads (e ∷ es)) ds
unfolding entry_value
Reads-more e es [] n h = tt
Reads-more e es (d ∷ ds) n h = (
  ground (arith, str_eq_iff e.key d.key, str_eq_iff d.key e.key, h.0),
  Reads-more e es ds (ground arith) h.1,
)

-- With unique keys every entry is the one that its key finds.
Reads-self : (es : List JumperlessConfigEntry) → UniqueKeys es → All (Reads es) es
Reads-self [] u = tt
Reads-self (e ∷ es) u = (
  unfold entry_value in ground (arith, str_eq_refl e.key),
  Reads-more e es es u.0 (Reads-self es u.1),
)

-- `secs` holds all that the section `new` would bring in.
abbrev Holds : List JumperlessConfigSection → JumperlessConfigSection → Type 0
Holds secs new =
    (has_section new.name secs ≡ true)
    × All (λ e. config_value new.name e.key secs ≡ some e.value) new.entries

Holds-more :
    (c : JumperlessConfigSection) (cs ds : List JumperlessConfigSection)
    → has_section c.name ds ≡ false
    → All (Holds cs) ds
    → All (Holds (c ∷ cs)) ds
unfolding has_section config_value
Holds-more c cs [] n h = tt
Holds-more c cs (d ∷ ds) n h =
    let apart : str_eq c.name d.name ≡ false =
      ground (arith, str_eq_iff c.name d.name, str_eq_iff d.name c.name) in
    ((rw (apart) h.0.0, rw (apart) h.0.1), Holds-more c cs ds (ground arith) h.1)

Holds-self :
    (config : List JumperlessConfigSection) → IsConfigMap config → All (Holds config) config
unfolding has_section config_value
Holds-self [] h = tt
Holds-self (c ∷ cs) h = (
  (rw (str_eq_refl c.name) refl, rw (str_eq_refl c.name) (Reads-self c.entries h.0)),
  Holds-more c cs cs h.1 (Holds-self cs h.2),
)

upsert_section_same :
    (new : JumperlessConfigSection) (secs : List JumperlessConfigSection)
    → Holds secs new
    → upsert_section new secs ≡ secs
unfolding upsert_section has_section config_value
upsert_section_same new [] h = cc
upsert_section_same new (s ∷ secs) h = elim (Bool-cases (str_eq s.name new.name)) [
  | inl e ↦ rw e (ap (λ t. t ∷ secs) (merge_entries_same new.entries s (rw e at h.1)))
  | inr e ↦ rw e (ap (◌∷◌ s) (upsert_section_same new secs (rw e at h)))
]

upsert_sections_same :
    (config secs : List JumperlessConfigSection)
    → All (Holds secs) config
    → upsert_sections config secs ≡ secs
unfolding upsert_sections
upsert_sections_same [] secs h = refl
upsert_sections_same (c ∷ cs) secs h =
    ap (upsert_sections cs) (upsert_section_same c secs h.0) ∙ upsert_sections_same cs secs h.1

has_section-upsert_sections :
    (name : Bytes) (config secs : List JumperlessConfigSection)
    → has_section name (upsert_sections config secs)
      ≡ (has_section name config || has_section name secs)
unfolding upsert_sections has_section
has_section-upsert_sections name [] secs = refl
has_section-upsert_sections name (c ∷ cs) secs = ground (
  arith,
  has_section-upsert_sections name cs (upsert_section c secs),
  has_section-upsert_section name c secs,
)

Holds-upsert_sections :
    (config secs : List JumperlessConfigSection)
    → IsConfigMap config
    → (c : JumperlessConfigSection) → Holds config c
    → Holds (upsert_sections config secs) c
unfolding or_else
Holds-upsert_sections config secs h c (named, held) = (
  rw (has_section-upsert_sections c.name config secs, named) refl,
  All-map _ _ c.entries (λ e r. config_value-upsert_sections c.name e.key config secs h ∙ rw r)
      held,
)

module _ {C : Type 0} where
  -- `UpsertConfig` twice with the same configuration is `UpsertConfig` once, so a device whose
  -- configuration has not changed leaves the status as it is. The configuration names each
  -- section once and each key once in its section.
  pub upsert_config_twice :
      (status : JumperlessStatus C) (config : List JumperlessConfigSection)
      → IsConfigMap config
      → upsert_config (upsert_config status config) config ≡ upsert_config status config
  unfolding upsert_config
  upsert_config_twice status config h =
      ap (λ (secs : List JumperlessConfigSection). record status { config = secs })
        (upsert_sections_same config (upsert_sections config status.config)
          (All-map _ _ config (Holds-upsert_sections config status.config h) (Holds-self config h)))
