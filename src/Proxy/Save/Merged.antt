-- ===== src/Proxy/Save/Merged.antt =====
-- What the saved mappings hold of the existing ones and of the recording.
use k8s_jumperless.Base.{
  codes, none, Bool, true, false, Bool-cases, ◌⊎◌, inl, inr, List, [], ◌∷◌, ◌++◌, ◌≡◌, ◌≢◌, refl,
  sym, ap, ◌∙◌, arith, if◌then◌else◌, Bytes, str_eq, str_eq_iff,
}
use k8s_jumperless.Emulator.Mappings.Laws.{
  UniqueRequests, add_response-UniqueRequests, has_request, responses_of, responses_of-add_response,
}
use k8s_jumperless.Emulator.Mappings.{EmulatorConfig, Mappings, add_response}
use k8s_jumperless.Proxy.Config.{ProxyConfig}
use k8s_jumperless.Proxy.Quoting.{Quoting}
use k8s_jumperless.Proxy.Recorder.Exchanges.{answers, run-UniqueRequests, run-answers}
use k8s_jumperless.Proxy.Recorder.{Event, run}
use k8s_jumperless.Proxy.Save.{
  add_all, merged, save_recording, with_settings, write_mappings, written,
}
use k8s_jumperless.Viper.{ConfigFiles, Reading, not_found, read_in, unreadable}
use mathlib.Core.List.{append-nil}

responses_of-no_request :
    (wanted : Bytes) (ms : Mappings) → has_request wanted ms ≡ false → responses_of wanted ms ≡ []
unfolding responses_of has_request
responses_of-no_request wanted [] h = refl
responses_of-no_request wanted (m ∷ ms) h = ground (arith, responses_of-no_request wanted ms)

responses_of-add_all :
    (wanted : Bytes) (mappings recording : Mappings)
    → UniqueRequests recording
    → responses_of wanted (add_all mappings recording)
      ≡ responses_of wanted mappings ++ responses_of wanted recording
unfolding add_all responses_of
responses_of-add_all wanted mappings [] u = sym (append-nil _)
responses_of-add_all wanted mappings (r ∷ rs) u =
    responses_of-add_all wanted (add_response mappings r.request r.responses) rs u.1
    ∙ ap (λ os. os ++ responses_of wanted rs)
        (responses_of-add_response wanted r.request mappings r.responses)
    ∙ elim (Bool-cases (str_eq r.request wanted)) [
      | inl e ↦
          let same : r.request ≡ wanted = (str_eq_iff r.request wanted).0 e in
          let none_left =
            responses_of-no_request wanted rs (ap (λ x. has_request x rs) (sym same) ∙ u.0) in
          rw (e, none_left, append-nil) refl
      | inr e ↦ rw e refl
    ]

add_all-UniqueRequests :
    (mappings recording : Mappings)
    → UniqueRequests mappings
    → UniqueRequests (add_all mappings recording)
unfolding add_all
add_all-UniqueRequests mappings [] u = u
add_all-UniqueRequests mappings (r ∷ rs) u =
    add_all-UniqueRequests (add_response mappings r.request r.responses) rs
      (add_response-UniqueRequests r.request mappings r.responses u)

-- The saved mappings have one mapping for each request, if the existing and the recorded ones have.
pub merged-UniqueRequests :
    (config : ProxyConfig) (emulator : EmulatorConfig) (recording : Mappings)
    → UniqueRequests emulator.mappings
    → UniqueRequests recording
    → UniqueRequests (merged config emulator recording)
unfolding merged
merged-UniqueRequests config emulator recording u v = elim (Bool-cases config.overwrite) [
  | inl e ↦ rw (e, merged) v
  | inr e ↦
      elim emulator.mappings
          as (λ o.
            emulator.mappings ≡ o
            → UniqueRequests o
            → UniqueRequests (merged config emulator recording)) [
              | [] ↦ λ f _. rw (e, merged, f) v
              | m ∷ ms ↦ λ f w. rw (e, merged, f) (add_all-UniqueRequests (m ∷ ms) recording w)
            ]
        refl u
]

-- Nothing is kept if the mappings are to be overwritten, or if there are none.
pub merged-recording :
    (config : ProxyConfig) (emulator : EmulatorConfig) (recording : Mappings)
    → (config.overwrite ≡ true) ⊎ (emulator.mappings ≡ [])
    → merged config emulator recording ≡ recording
unfolding merged
merged-recording config emulator recording (inl e) = rw (e, merged) refl
merged-recording config emulator recording (inr f) = elim (Bool-cases config.overwrite) [
  | inl e ↦ rw (e, merged) refl
  | inr e ↦ rw (e, merged, f) refl
]

responses_of-merged :
    (wanted : Bytes) (config : ProxyConfig) (emulator : EmulatorConfig) (recording : Mappings)
    → UniqueRequests recording
    → responses_of wanted (merged config emulator recording)
      ≡ (if config.overwrite then [] else responses_of wanted emulator.mappings)
        ++ responses_of wanted recording
unfolding merged
responses_of-merged wanted config emulator recording u = elim (Bool-cases config.overwrite) [
  | inl e ↦ rw (e, merged) refl
  | inr e ↦
      elim emulator.mappings
          as (λ o.
            emulator.mappings ≡ o
            → responses_of wanted (merged config emulator recording)
              ≡ (if config.overwrite then [] else responses_of wanted o)
                ++ responses_of wanted recording) [
                  | [] ↦ λ f. rw (e, merged, f) (unfold responses_of in refl)
                  | m ∷ ms ↦
                      λ f. rw (e, merged, f) (responses_of-add_all wanted (m ∷ ms) recording u)
                ]
        refl
]

pub merged-answers :
    (q : Quoting) (wanted : Bytes) (config : ProxyConfig) (emulator : EmulatorConfig)
    (events : List Event)
    → wanted ≢ []
    → responses_of wanted (merged config emulator (run q events))
      ≡ (if config.overwrite then [] else responses_of wanted emulator.mappings)
        ++ answers q wanted events
merged-answers q wanted config emulator events ne =
    responses_of-merged wanted config emulator (run q events) (run-UniqueRequests q events)
    ∙ ap (◌++◌ (if config.overwrite then [] else responses_of wanted emulator.mappings))
        (run-answers q wanted events ne)

-- The mappings in each file, of which it is known that writing a file without an error stores them in
-- that file.
module _ {W : Type 0} (files : ConfigFiles W) (stored : Bytes → W → Mappings)
    (log_stored : (settings : files.Settings) (ms : Mappings) (file : Bytes) (w : W)
      → let r =
          files.write_config_as
            (files.set_mappings (codes "emulator.mappings") ms settings)
            file
            w in
        (r.0 ≡ true) → stored file r.1 ≡ ms) where
  stored-write_mappings :
      (file : Bytes) (ms : Mappings) (settings : files.Settings) (w w' : W)
      → write_mappings files file ms settings w ≡ (none, w')
      → stored file w' ≡ ms
  stored-write_mappings file ms settings w w' e =
      go (files.write_config_as (files.set_mappings (codes "emulator.mappings") ms settings) file w)
        (log_stored settings ms file w) e
    where
      go :
          (r : Bool × W)
          → (r.0 ≡ true → stored file r.1 ≡ ms)
          → written files r ≡ (none, w')
          → stored file w' ≡ ms
      go (true, w1) f e = ap (stored file) (sym (ap (λ r. r.1) e)) ∙ f refl
      go (false, w1) f e = absurd (let x = ap (λ r. r.0) e in cc)

  stored-with_settings :
      (file : Bytes) (ms : Mappings) (r : Reading files.Settings × W) (w' : W)
      → with_settings files file ms r ≡ (none, w')
      → stored file w' ≡ ms
  stored-with_settings file ms (unreadable, w) w' e = absurd (let x = ap (λ r. r.0) e in cc)
  stored-with_settings file ms (not_found, w) w' e =
      stored-write_mappings file ms files.no_settings w w' e
  stored-with_settings file ms (read_in settings, w) w' e =
      stored-write_mappings file ms settings w w' e

  -- When `saveRecording` returns without an error and the recording is not empty, the file that it is
  -- given has the merged mappings.
  pub stored-save_recording :
      (config : ProxyConfig) (emulator : EmulatorConfig) (file : Bytes) (recording : Mappings)
      (w w' : W)
      → recording ≢ []
      → save_recording files config emulator file recording w ≡ (none, w')
      → stored file w' ≡ merged config emulator recording
  unfolding save_recording
  stored-save_recording config emulator file [] w w' ne e = absurd (ne refl)
  stored-save_recording config emulator file (r ∷ recording) w w' ne e =
      stored-with_settings file (merged config emulator (r ∷ recording))
        (files.read_in_config file w) w' e
