-- ===== src/Device/Port/Tidy.antt =====
-- `NewJumperlessPort` closes each port that it opens.
use k8s_jumperless.Base.Calls.{Call, acquired, released, Tidy, Tidy-bracket, Tidy-same}
use k8s_jumperless.Base.{
  ℕ, zero, suc, Bool, true, false, Option, none, some, List, [], ◌∷◌, ◌++◌, ◌≡◌, refl, sym, ap, ◌∙◌,
  Bytes, codes, ℤ, pos, ok, err, ok-injective,
}
use k8s_jumperless.Device.Port.{
  JumperlessPort, PortError, Run, Serial, after_close, after_read, check_port, checked,
  checked_version, close_port, closed, default_rate, exec_on, exec_raw_command, found_version,
  is_jumperless_port, new_jumperless_port, onto_result, open_port, opened, read_all,
}

-- A log of the calls that open and close a port: an opening that succeeds, and a closing whether
-- it succeeds or not. No other call shows in it.
pub record IsLogged (serial : Serial) {R : Type 0} (log : serial.World → List (Call R))
    : Type 0 where
  pub port : serial.Handle → R
  pub log_open :
      (name : Bytes) (rate : ℤ) (w : serial.World) (h : serial.Handle)
      → (serial.open_serial name rate w).0 ≡ some h
      → log (serial.open_serial name rate w).1 ≡ log w ++ acquired (port h) ∷ []
  pub log_no_open :
      (name : Bytes) (rate : ℤ) (w : serial.World)
      → (serial.open_serial name rate w).0 ≡ none
      → log (serial.open_serial name rate w).1 ≡ log w
  pub log_close :
      (h : serial.Handle) (w : serial.World)
      → log (serial.close_serial h w).1 ≡ log w ++ released (port h) ∷ []
  pub log_reset_input :
      (h : serial.Handle) (w : serial.World) → log (serial.reset_input_buffer h w).1 ≡ log w
  pub log_reset_output :
      (h : serial.Handle) (w : serial.World) → log (serial.reset_output_buffer h w).1 ≡ log w
  pub log_write :
      (h : serial.Handle) (s : Bytes) (w : serial.World) → log (serial.write h s w).1 ≡ log w
  pub log_drain : (h : serial.Handle) (w : serial.World) → log (serial.drain h w).1 ≡ log w
  pub log_timeout :
      (h : serial.Handle) (t : ℤ) (w : serial.World) → log (serial.set_read_timeout h t w).1 ≡ log w
  pub log_read : (h : serial.Handle) (w : serial.World) → log (serial.read h w).1 ≡ log w
  pub log_sleep : (t : ℤ) (w : serial.World) → log (serial.sleep t w) ≡ log w

module _ (serial : Serial) {R : Type 0} (log : serial.World → List (Call R))
    (laws : IsLogged serial log) where
  log-onto_result : (s : Bytes) (r : Run serial Bytes) → log (onto_result serial s r).1 ≡ log r.1
  log-onto_result s (ok t, w) = refl
  log-onto_result s (err e, w) = refl

  log-after_read :
      (rest : serial.World → Run serial Bytes) (r : Option Bytes × serial.World)
      → ((w : serial.World) → log (rest w).1 ≡ log w)
      → log (after_read serial rest r).1 ≡ log r.1
  log-after_read rest (none, w) h = refl
  log-after_read rest (some [], w) h = refl
  log-after_read rest (some (c ∷ s), w) h = log-onto_result (c ∷ s) (rest w) ∙ h w

  log-read_all :
      (fuel : ℕ) (h : serial.Handle) (w : serial.World) → log (read_all serial fuel h w).1 ≡ log w
  unfolding read_all
  log-read_all zero h w = refl
  log-read_all (suc fuel) h w =
      log-after_read (read_all serial fuel h) (serial.read h w) (λ v. log-read_all fuel h v)
      ∙ laws.log_read h w

  log-checked :
      {A : Type 0} (e : PortError) (next : serial.World → Run serial A) (r : Bool × serial.World)
      → ((w : serial.World) → log (next w).1 ≡ log w)
      → log (checked serial e next r).1 ≡ log r.1
  log-checked e next (true, w) h = h w
  log-checked e next (false, w) h = refl

  log-exec_on :
      (fuel : ℕ) (h : serial.Handle) (command : Bytes) (wait : ℤ) (w : serial.World)
      → log (exec_on serial fuel h command wait w).1 ≡ log w
  unfolding exec_on
  log-exec_on fuel h command wait w =
      log-checked _ _ (serial.reset_input_buffer h w) (λ w1.
        log-checked _ _ (serial.reset_output_buffer h w1) (λ w2.
          log-checked _ _ (serial.write h command w2) (λ w3.
            log-checked _ _ (serial.drain h w3) (λ w4.
              log-checked _ _ (serial.set_read_timeout h (pos 1000000000) w4)
                (λ w5. log-read_all fuel h (serial.sleep wait w5) ∙ laws.log_sleep wait w5)
              ∙ laws.log_timeout h (pos 1000000000) w4)
            ∙ laws.log_drain h w3)
          ∙ laws.log_write h command w2)
        ∙ laws.log_reset_output h w1)
      ∙ laws.log_reset_input h w

  pub log-exec_raw_command :
      (fuel : ℕ) (p : JumperlessPort serial) (command : Bytes) (wait : ℤ) (w : serial.World)
      → log (exec_raw_command serial fuel p command wait w).1 ≡ log w
  unfolding exec_raw_command
  log-exec_raw_command fuel p command wait w =
      elim p.port
          as (λ o. p.port ≡ o → log (exec_raw_command serial fuel p command wait w).1 ≡ log w) [
            | none ↦ λ e. rw (e, exec_raw_command)
            | some h ↦ λ e. rw (e, exec_raw_command) (log-exec_on fuel h command wait w)
          ]
        refl

  log-is_jumperless_port :
      (fuel : ℕ) (p : JumperlessPort serial) (w : serial.World)
      → log (is_jumperless_port serial fuel p w).1 ≡ log w
  unfolding is_jumperless_port
  log-is_jumperless_port fuel p w =
      go (exec_raw_command serial fuel p (codes "?") (pos 10000000) w)
      ∙ log-exec_raw_command fuel p (codes "?") (pos 10000000) w
    where
      go : (r : Run serial Bytes) → log (checked_version serial r).1 ≡ log r.1
      go (err e, w) = refl
      go (ok s, w) = refl

  -- `Close` on an open port shows as the release of its handle.
  pub log-close_port :
      (p : JumperlessPort serial) (h : serial.Handle) (w : serial.World)
      → p.port ≡ some h
      → log (close_port serial p w).1 ≡ log w ++ released (laws.port h) ∷ []
  unfolding close_port
  log-close_port p h w e = rw (e, close_port) (go (serial.close_serial h w) ∙ laws.log_close h w)
    where
      go : (r : Bool × serial.World) → log (closed serial p r).1 ≡ log r.1
      go (true, w) = refl
      go (false, w) = refl

  log-found_version :
      (p : JumperlessPort serial) (h : serial.Handle) (r : Run serial (Option Bytes))
      → p.port ≡ some h
      → log (found_version serial p r).1 ≡ log r.1 ++ released (laws.port h) ∷ []
  log-found_version p h (err e, w) o = log-close_port p h w o
  log-found_version p h (ok none, w) o = log-close_port p h w o
  log-found_version p h (ok (some v), w) o =
      go (close_port serial (record p { version = v }) w)
      ∙ log-close_port (record p { version = v }) h w o
    where
      go :
          (r : Run serial (JumperlessPort serial))
          → log (after_close serial (record p { version = v }) r).1 ≡ log r.1
      go (err e, w) = refl
      go (ok q, w) = refl

  log-opened :
      (p : JumperlessPort serial) (w : serial.World) (r : Option serial.Handle × serial.World)
      → ((h : serial.Handle) → r.0 ≡ some h → log r.1 ≡ log w ++ acquired (laws.port h) ∷ [])
      → (q : JumperlessPort serial) → (opened serial p r).0 ≡ ok q
      → (h : serial.Handle) × (q.port ≡ some h)
        × (log (opened serial p r).1 ≡ log w ++ acquired (laws.port h) ∷ [])
  log-opened p w (none, w1) g q f = cc
  log-opened p w (some h, w1) g q f =
      (h, sym (ap (λ (x : JumperlessPort serial). x.port) (ok-injective f)), g h refl)

  -- `Open` with no error returns an open port, and shows as the acquisition of its handle.
  pub log-open_port :
      (p : JumperlessPort serial) (w : serial.World) (q : JumperlessPort serial)
      → (open_port serial p w).0 ≡ ok q
      → (h : serial.Handle) × (q.port ≡ some h)
        × (log (open_port serial p w).1 ≡ log w ++ acquired (laws.port h) ∷ [])
  unfolding open_port
  log-open_port p w q f =
      elim p.port
          as (λ o.
            p.port ≡ o
            → (h : serial.Handle) × (q.port ≡ some h)
              × (log (open_port serial p w).1 ≡ log w ++ acquired (laws.port h) ∷ [])) [
                | some h ↦ λ e. (let k = rw (e, open_port) at f in cc)
                | none ↦ λ e.
                    rw (e, open_port)
                      (log-opened p w (serial.open_serial p.port_name p.baud_rate w)
                        (λ h. laws.log_open p.port_name p.baud_rate w h) q (rw (e, open_port) at f))
              ]
        refl

  -- `Open` with an error does not show.
  pub log-open_port_failed :
      (p : JumperlessPort serial) (w : serial.World) (e : PortError)
      → (open_port serial p w).0 ≡ err e
      → log (open_port serial p w).1 ≡ log w
  unfolding open_port
  log-open_port_failed p w e f =
      elim p.port as (λ o. p.port ≡ o → log (open_port serial p w).1 ≡ log w) [
        | some h ↦ λ o. rw (o, open_port)
        | none ↦ λ o.
            rw (o, open_port)
              (go (serial.open_serial p.port_name p.baud_rate w)
                (laws.log_no_open p.port_name p.baud_rate w) (rw (o, open_port) at f))
      ]
        refl
    where
      go :
          (r : Option serial.Handle × serial.World)
          → (r.0 ≡ none → log r.1 ≡ log w)
          → (opened serial p r).0 ≡ err e
          → log (opened serial p r).1 ≡ log w
      go (none, w1) g f = g refl
      go (some h, w1) g f = cc

  check_port-Tidy :
      (fuel : ℕ) (p : JumperlessPort serial) (w : serial.World)
      (r : Option serial.Handle × serial.World)
      → ((h : serial.Handle) → r.0 ≡ some h → log r.1 ≡ log w ++ acquired (laws.port h) ∷ [])
      → (r.0 ≡ none → log r.1 ≡ log w)
      → Tidy log w (check_port serial fuel (opened serial p r)).1
  check_port-Tidy fuel p w (none, w1) f g = Tidy-same log (g refl)
  check_port-Tidy fuel p w (some h, w1) f g =
      let q = record p { port = some h } in
      Tidy-bracket log (laws.port h) (f h refl) (Tidy-same log (log-is_jumperless_port fuel q w1))
        (log-found_version q h (is_jumperless_port serial fuel q w1) refl)

  pub new_jumperless_port-Tidy :
      (fuel : ℕ) (name : Bytes) (rate : ℤ) (w : serial.World)
      → Tidy log w (new_jumperless_port serial fuel name rate w).1
  unfolding new_jumperless_port open_port
  new_jumperless_port-Tidy fuel name rate w =
      let p : JumperlessPort serial = record {
        port_name = name;
        baud_rate = default_rate rate;
        port = none;
        version = [];
      } in
      check_port-Tidy fuel p w (serial.open_serial name (default_rate rate) w)
        (λ h e. laws.log_open name (default_rate rate) w h e)
        (λ e. laws.log_no_open name (default_rate rate) w e)
