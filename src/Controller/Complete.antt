-- ===== src/Controller/Complete.antt =====
-- What a status holds behind a `reconcileLocal` without an error, and what `Reconcile` patches.
use k8s_jumperless.Api.Config.{upsert_config}
use k8s_jumperless.Api.Types.{
  DacStatus, JumperlessConfigSection, JumperlessHostLocal, JumperlessStatus, Net,
}
use k8s_jumperless.Base.{
  ℕ, false, none, List, [], ◌∷◌, ◌++◌, ◌≡◌, refl, sym, ap, ◌∙◌, Bytes, ℤ, Result, ok, err, map,
}
use k8s_jumperless.Controller.Ready.{status-closing}
use k8s_jumperless.Controller.{
  LocalFailure, Meta, config_into, connect, dac_onto, dacs_into, deref_bytes, is_stale, nets_into,
  read_board, read_dacs, reconcile_local, with_board, with_open,
}
use k8s_jumperless.Device.Board.{FindError, Tools}
use k8s_jumperless.Device.Port.{JumperlessPort, Run, Serial, open_port}
use k8s_jumperless.Local.Commands.{
  LocalError, channel_name, dac_channels, get_config, get_dac, get_nets,
}
use k8s_jumperless.Local.Config.{ConfigMap}
use mathlib.Core.List.{append-nil, append_assoc}

abbrev pub channels_of : List DacStatus → List Bytes
channels_of [] = []
channels_of (d ∷ dacs) = d.channel ∷ channels_of dacs

channels_of-append :
    (ds es : List DacStatus) → channels_of (ds ++ es) ≡ channels_of ds ++ channels_of es
channels_of-append [] es = refl
channels_of-append (d ∷ ds) es = ap (◌∷◌ d.channel) (channels_of-append ds es)

module _ (m : Meta) (serial : Serial) (tools : Tools serial)
    (order : ConfigMap → List JumperlessConfigSection) (fuel : ℕ) where
  read_dacs-channels :
      (j : JumperlessPort serial) (channels : List ℤ) (dacs : List DacStatus) (w : serial.World)
      (ds : List DacStatus)
      → (read_dacs m serial tools order fuel j channels dacs w).0 ≡ ok ds
      → channels_of ds ≡ channels_of dacs ++ map channel_name channels
  unfolding read_dacs
  read_dacs-channels j [] dacs w ds h =
      ap channels_of (let e : ds ≡ dacs = cc in e) ∙ sym (append-nil _)
  read_dacs-channels j (channel ∷ channels) dacs w ds h =
      go (λ more w1. read_dacs-channels j channels more w1 ds)
        (get_dac serial tools order fuel j channel w) h
    where
      go :
          ((more : List DacStatus) (w1 : serial.World)
            → (read_dacs m serial tools order fuel j channels more w1).0 ≡ ok ds
            → channels_of ds ≡ channels_of more ++ map channel_name channels)
          → (r : Result LocalError Bytes × serial.World)
          → (dac_onto m serial tools order fuel channel
              (read_dacs m serial tools order fuel j channels)
              dacs
              r).0
            ≡ ok ds
          → channels_of ds ≡ channels_of dacs ++ channel_name channel ∷ map channel_name channels
      go f (err e, w1) k = cc
      go f (ok voltage, w1) k =
          f _ w1 k
          ∙ ap (λ cs. cs ++ map channel_name channels) (channels_of-append dacs _)
          ∙ append_assoc (channels_of dacs) _ _

  dacs-config_into :
      (status : JumperlessStatus m.Conditions)
      (r : Result LocalError (List JumperlessConfigSection) × serial.World)
      → (config_into m serial tools order fuel status r).1.dacs ≡ status.dacs
  unfolding upsert_config
  dacs-config_into status (err e, w) = refl
  dacs-config_into status (ok config, w) = refl

  dacs-nets_into :
      (j : JumperlessPort serial) (status : JumperlessStatus m.Conditions)
      (r : Result LocalError (List Net) × serial.World)
      → (nets_into m serial tools order fuel j status r).1.dacs ≡ status.dacs
  dacs-nets_into j status (err e, w) = refl
  dacs-nets_into j status (ok nets, w) =
      dacs-config_into (record status { nets = nets }) (get_config serial tools order fuel j w)

  dacs_into-channels :
      (j : JumperlessPort serial) (status : JumperlessStatus m.Conditions)
      (r : Result LocalFailure (List DacStatus) × serial.World)
      → ((ds : List DacStatus) → r.0 ≡ ok ds → channels_of ds ≡ map channel_name dac_channels)
      → (dacs_into m serial tools order fuel j status r).0 ≡ none
      → channels_of (dacs_into m serial tools order fuel j status r).1.dacs
        ≡ map channel_name dac_channels
  dacs_into-channels j status (err e, w) f h = cc
  dacs_into-channels j status (ok dacs, w) f h =
      ap channels_of
        (dacs-nets_into j (record status { dacs = dacs }) (get_nets serial tools order fuel j w))
      ∙ f dacs refl

  module _ (generation : ℤ) where
    with_open-channels :
        (status : JumperlessStatus m.Conditions) (r : Run serial (JumperlessPort serial))
        → (with_open m serial tools order fuel generation status r).0 ≡ none
        → channels_of (with_open m serial tools order fuel generation status r).1.dacs
          ≡ map channel_name dac_channels
    unfolding read_board
    with_open-channels status (err e, w) h = cc
    with_open-channels status (ok j, w) h =
        let (same_error, same_status) =
          status-closing m serial tools order fuel j
            (read_board m serial tools order fuel generation j status w) in
        ap (λ (s : JumperlessStatus m.Conditions). channels_of s.dacs) same_status
        ∙ dacs_into-channels j _ (read_dacs m serial tools order fuel j dac_channels [] w)
            (λ ds e. read_dacs-channels j dac_channels [] w ds e) (sym same_error ∙ h)

    with_board-channels :
        (status : JumperlessStatus m.Conditions) (port : Bytes)
        (r : Result FindError (JumperlessPort serial) × serial.World)
        → (with_board m serial tools order fuel generation port status r).0 ≡ none
        → channels_of (with_board m serial tools order fuel generation port status r).1.dacs
          ≡ map channel_name dac_channels
    with_board-channels status port (err e, w) h = cc
    with_board-channels status port (ok j, w) h = with_open-channels status (open_port serial j w) h

    -- When `reconcileLocal` does not stop at a stale condition and returns no error, the status
    -- lists all four DAC channels, in the order of `DACChannels`.
    pub reconcile_local-channels :
        (host : JumperlessHostLocal) (status : JumperlessStatus m.Conditions) (w : serial.World)
        → is_stale (m.find_ready status.conditions) generation ≡ false
        → (reconcile_local m serial tools order fuel generation host status w).0 ≡ none
        → channels_of (reconcile_local m serial tools order fuel generation host status w).1.dacs
          ≡ map channel_name dac_channels
    unfolding reconcile_local connect
    reconcile_local-channels host status w fresh h =
        rw (fresh, reconcile_local)
          (with_board-channels status (deref_bytes host.port) _ (rw (fresh, reconcile_local) at h))
