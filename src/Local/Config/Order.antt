-- ===== src/Local/Config/Order.antt =====
-- The order in which Go ranges over a map does not show in the values of the result.
use mathlib.Core.List.{Permᴰ}
use mathlib.Core.Path.{subst₂}
use k8s_jumperless.Api.Config.Entries.{entry_value, UniqueKeys}
use k8s_jumperless.Api.Config.Upsert.{config_value, has_section, IsConfigMap}
use k8s_jumperless.Api.Types.{JumperlessConfigEntry, JumperlessConfigSection}
use k8s_jumperless.Base.{List, [], ◌∷◌, ◌≡◌, refl, sym, ◌∙◌, arith, Bytes, str_eq_iff}
use k8s_jumperless.Local.Config.{ConfigMap, read_config, parse_config}
use k8s_jumperless.Local.Config.Scan.{read_config-IsConfigMap}

UniqueKeys-swap :
    (a b : JumperlessConfigEntry) (l : List JumperlessConfigEntry)
    → UniqueKeys (a ∷ b ∷ l)
    → UniqueKeys (b ∷ a ∷ l)
unfolding entry_value
UniqueKeys-swap a b l u =
    (ground (arith, str_eq_iff a.key b.key, str_eq_iff b.key a.key), (ground arith, u.1.1))

-- A list of entries with unique keys has the same values in any order.
entry_value-perm :
    {es ds : List JumperlessConfigEntry}
    → Permᴰ es ds
    → UniqueKeys es
    → ((k : Bytes) → entry_value k es ≡ entry_value k ds) × UniqueKeys ds
unfolding entry_value
entry_value-perm Permᴰ.nil u = (λ k. refl, tt)
entry_value-perm (Permᴰ.cons {a = a} e p) u =
    let (same, v) = entry_value-perm p u.1 in
    (λ k. rw (← e, same k) refl, (rw (← e) (sym (same a.key) ∙ u.0), v))
entry_value-perm (Permᴰ.swap {a = a} {b = b} {l = l} e f) u = (
  λ k.
      rw (← e, ← f)
        (ground (arith, str_eq_iff a.key k, str_eq_iff b.key k, str_eq_iff b.key a.key)),
  subst₂ (λ x y. UniqueKeys (x ∷ y ∷ l)) f e (UniqueKeys-swap a b l u),
)
entry_value-perm (Permᴰ.trans p q) u =
    let (same, v) = entry_value-perm p u in
    let (same', w) = entry_value-perm q v in (λ k. same k ∙ same' k, w)

-- The same sections in the same order, each with its entries in some order.
pub data SameSections : ConfigMap → List JumperlessConfigSection → Type 0 where
  end : SameSections [] []
  section :
      {s t : JumperlessConfigSection} {ss ts : List JumperlessConfigSection}
      → s.name ≡ t.name
      → Permᴰ s.entries t.entries
      → SameSections ss ts
      → SameSections (s ∷ ss) (t ∷ ts)

-- What the two `range` loops may give for a map: its sections in some order, and in each its
-- entries in some order.
abbrev pub IsOrdering : ConfigMap → List JumperlessConfigSection → Type 0
IsOrdering config sections =
    (shuffled : List JumperlessConfigSection) × Permᴰ config shuffled
    × SameSections shuffled sections

-- What a list of sections is to a reader: its values, and which sections it has.
record Agrees (cs ds : List JumperlessConfigSection) : Type 0 where
  value : (n k : Bytes) → config_value n k cs ≡ config_value n k ds
  named : (n : Bytes) → has_section n cs ≡ has_section n ds
  unique : IsConfigMap ds

IsConfigMap-swap :
    (a b : JumperlessConfigSection) (l : List JumperlessConfigSection)
    → IsConfigMap (a ∷ b ∷ l)
    → IsConfigMap (b ∷ a ∷ l)
unfolding has_section
IsConfigMap-swap a b l h = (
  h.2.0,
  ground (arith, str_eq_iff a.name b.name, str_eq_iff b.name a.name),
  (h.0, ground arith, h.2.2),
)

Agrees-perm : {cs ds : List JumperlessConfigSection} → Permᴰ cs ds → IsConfigMap cs → Agrees cs ds
unfolding config_value has_section
Agrees-perm Permᴰ.nil h = record { value = λ n k. refl; named = λ n. refl; unique = tt }
Agrees-perm (Permᴰ.cons {a = a} e p) h =
    let r = Agrees-perm p h.2 in
    record {
      value = λ n k. rw (← e, r.value n k) refl;
      named = λ n. rw (← e, r.named n) refl;
      unique = rw (← e) (h.0, sym (r.named a.name) ∙ h.1, r.unique);
    }
Agrees-perm (Permᴰ.swap {a = a} {b = b} {l = l} e f) h = record {
  value = λ n k.
      rw (← e, ← f)
        (ground (arith, str_eq_iff a.name n, str_eq_iff b.name n, str_eq_iff b.name a.name));
  named = λ n. rw (← e, ← f) (ground arith);
  unique = subst₂ (λ x y. IsConfigMap (x ∷ y ∷ l)) f e (IsConfigMap-swap a b l h);
}
Agrees-perm (Permᴰ.trans p q) h =
    let r = Agrees-perm p h in
    let t = Agrees-perm q r.unique in
    record {
      value = λ n k. r.value n k ∙ t.value n k;
      named = λ n. r.named n ∙ t.named n;
      unique = t.unique;
    }

Agrees-SameSections :
    {cs ds : List JumperlessConfigSection} → SameSections cs ds → IsConfigMap cs → Agrees cs ds
unfolding config_value has_section
Agrees-SameSections end h = record { value = λ n k. refl; named = λ n. refl; unique = tt }
Agrees-SameSections (section {s = s} e p rest) h =
    let r = Agrees-SameSections rest h.2 in
    let (same, u) = entry_value-perm p h.0 in
    record {
      value = λ n k. rw (← e, same k, r.value n k) refl;
      named = λ n. rw (← e, r.named n) refl;
      unique = (u, rw (← e) (sym (r.named s.name) ∙ h.1), r.unique);
    }

module _ (order : ConfigMap → List JumperlessConfigSection)
    (is_order : (config : ConfigMap) → IsOrdering config (order config))
    (config_output : Bytes) where
  ordered : Agrees (read_config config_output).config (parse_config order config_output).0
  unfolding parse_config
  ordered =
      let config = (read_config config_output).config in
      let (shuffled, p, same) = is_order config in
      let r = Agrees-perm p (read_config-IsConfigMap config_output) in
      let t = Agrees-SameSections same r.unique in
      record {
        value = λ n k. r.value n k ∙ t.value n k;
        named = λ n. r.named n ∙ t.named n;
        unique = t.unique;
      }

  -- Whatever the order of the map's `range`, what `parseConfig` returns has each section and each
  -- key of a section once.
  pub parse_config-IsConfigMap : IsConfigMap (parse_config order config_output).0
  parse_config-IsConfigMap = ordered.unique

  -- Whatever the order of the map's `range`, the result has the values of the map.
  pub config_value-parse_config :
      (name key : Bytes)
      → config_value name key (parse_config order config_output).0
        ≡ config_value name key (read_config config_output).config
  config_value-parse_config name key = sym (ordered.value name key)
