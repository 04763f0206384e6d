-- ===== src/Emulator/Lifecycle/Tidy.antt =====
-- What `Start` acquires is released, by `Stop` or when a later part of `Start` fails.
use k8s_jumperless.Base.Calls.{
  AllReleased, AllReleased-insert, Call, Tidy, acquired, first, released, Tidy-pair, Tidy-same,
}
use k8s_jumperless.Base.{
  Bool, true, false, Option, none, some, List, [], ◌∷◌, ◌++◌, ◌≡◌, ◌≢◌, refl, sym, ap, ◌∙◌, Bytes,
  Bool-cases, inl, inr, str_eq,
}
use k8s_jumperless.Emulator.Lifecycle.{
  Emulator, StartError, Started, linked, needs_link, new_emulator, nonblock_failed, nonblocking,
  start, start_link, stop, try_cleanup, unlinked, with_pty,
}
use k8s_jumperless.Emulator.Mappings.{EmulatorConfig}
use k8s_jumperless.Host.Logged.{IsLogged}
use k8s_jumperless.Host.{Host, Removal, absent, not_removed, removed}
use mathlib.Core.List.{append_assoc}
use mathlib.Core.Path.{subst}
use k8s_jumperless.Emulator.Lifecycle.Cleanup.{log-try_cleanup, removals}

module _ {W R : Type 0} (host : Host W) (config : EmulatorConfig) (log : W → List (Call R))
    (laws : IsLogged host log) where
  abbrev removals_of : List (Call R)
  removals_of = removals host config log laws config.virtual_port

  abbrev held : host.Tty → host.Tty → Bool → Emulator host config
  held p v running = record { pseudo_tty = some p; virtual_tty = some v; running = running }

  needs_link_path : (port name : Bytes) → needs_link port name ≡ true → port ≢ []
  unfolding str_eq
  needs_link_path [] name h e = (let k : false ≡ true = h in cc)
  needs_link_path (c ∷ port) name h e = cc

  removals_released : (port : Bytes) → AllReleased (removals host config log laws port)
  removals_released [] = tt
  removals_released (c ∷ port) = tt

  -- A link is removed by the last removal.
  link_released :
      (port : Bytes)
      → port ≢ []
      → AllReleased (
          released (laws.link port)
          ∷ acquired (laws.link port)
          ∷ removals host config log laws port)
  link_released [] ne = absurd (ne refl)
  link_released (c ∷ port) ne = (first, tt)

  -- A running emulator, and the calls behind the opening of its terminals.
  record Running (w : W) (e : Emulator host config) (w' : W) : Type 0 where
    p : host.Tty
    v : host.Tty
    calls : List (Call R)
    is_held : e ≡ held p v true
    logged : log w' ≡ log w ++ acquired (laws.tty p) ∷ acquired (laws.tty v) ∷ calls
    cleaned : AllReleased (calls ++ removals_of)

  abbrev IsClean : W → Started host config → Type 0
  IsClean w (none, e, w') = Running w e w'
  IsClean w (some error, e, w') = error ≢ nonblock_failed → Tidy log w w'

  -- The log of a world in which both terminals are open.
  abbrev Open : W → host.Tty → host.Tty → List (Call R) → W → Type 0
  Open w p v cs w' = log w' ≡ log w ++ acquired (laws.tty p) ∷ acquired (laws.tty v) ∷ cs

  cleanup-Tidy :
      (p v : host.Tty) (running : Bool) (w w' : W) (cs : List (Call R))
      → Open w p v cs w'
      → AllReleased (cs ++ removals_of)
      → Tidy log w (try_cleanup host config (held p v running) w')
  cleanup-Tidy p v running w w' cs o a =
      Tidy-pair log (laws.tty p) (laws.tty v) cs removals_of o
        (log-try_cleanup host config log laws p v running w') a

  linked-IsClean :
      (p v : host.Tty) (w w1 : W)
      → Open w p v (released (laws.link config.virtual_port) ∷ []) w1
      → config.virtual_port ≢ []
      → (r : Bool × W)
      → (r.0 ≡ true → log r.1 ≡ log w1 ++ acquired (laws.link config.virtual_port) ∷ [])
      → (r.0 ≡ false → log r.1 ≡ log w1)
      → IsClean w (linked host config (held p v false) r)
  linked-IsClean p v w w1 o ne (true, w2) f g = record {
    p = p;
    v = v;
    calls =
        released (laws.link config.virtual_port) ∷ acquired (laws.link config.virtual_port) ∷ [];
    is_held = refl;
    logged =
        f refl
        ∙ ap (λ l. l ++ acquired (laws.link config.virtual_port) ∷ []) o
        ∙ append_assoc (log w) _ _;
    cleaned = link_released config.virtual_port ne;
  }
  linked-IsClean p v w w1 o ne (false, w2) f g = λ _.
      cleanup-Tidy p v false w w2 (released (laws.link config.virtual_port) ∷ []) (g refl ∙ o)
        (removals_released config.virtual_port)

  unlinked-IsClean :
      (p v : host.Tty) (w w1 : W)
      → Open w p v [] w1
      → config.virtual_port ≢ []
      → (r : Removal × W) → log r.1 ≡ log w1 ++ released (laws.link config.virtual_port) ∷ []
      → IsClean w (unlinked host config (held p v false) v r)
  unlinked-IsClean p v w w1 o ne (removal, w2) f =
      let o2 : Open w p v (released (laws.link config.virtual_port) ∷ []) w2 =
        f
        ∙ ap (λ l. l ++ released (laws.link config.virtual_port) ∷ []) o
        ∙ append_assoc (log w) _ _ in
      let next = host.symlink (host.tty_name v) config.virtual_port w2 in
      let is_linked =
        linked-IsClean p v w w2 o2 ne next (laws.log_link (host.tty_name v) config.virtual_port w2)
          (laws.log_no_link (host.tty_name v) config.virtual_port w2) in
      elim removal as (λ x. IsClean w (unlinked host config (held p v false) v (x, w2))) [
        | removed ↦ is_linked
        | absent ↦ is_linked
        | not_removed ↦
            λ _. cleanup-Tidy p v false w w2 _ o2 (removals_released config.virtual_port)
      ]

  start_link-IsClean :
      (p v : host.Tty) (w w1 : W)
      → Open w p v [] w1
      → IsClean w (start_link host config (held p v false) v w1)
  unfolding start_link
  start_link-IsClean p v w w1 o =
      elim (Bool-cases (needs_link config.virtual_port (host.tty_name v))) [
        | inl e ↦
            rw (e, start_link)
              (unlinked-IsClean p v w w1 o (needs_link_path config.virtual_port (host.tty_name v) e)
                (host.remove config.virtual_port w1) (laws.log_remove config.virtual_port w1))
        | inr e ↦
            rw (e, start_link)
              (record {
                p = p;
                v = v;
                calls = [];
                is_held = refl;
                logged = o;
                cleaned = removals_released config.virtual_port;
              })
      ]

  nonblocking-IsClean :
      (p v : host.Tty) (w w1 : W)
      → Open w p v [] w1
      → (r : Bool × W) → log r.1 ≡ log w1
      → IsClean w (nonblocking host config (new_emulator host config) p v r)
  nonblocking-IsClean p v w w1 o (true, w2) f = start_link-IsClean p v w w2 (f ∙ o)
  nonblocking-IsClean p v w w1 o (false, w2) f = λ ne. absurd (ne refl)

  with_pty-IsClean :
      (w : W) (r : Option (host.Tty × host.Tty) × W)
      → ((p v : host.Tty) → r.0 ≡ some (p, v) → Open w p v [] r.1)
      → (r.0 ≡ none → log r.1 ≡ log w)
      → IsClean w (with_pty host config (new_emulator host config) r)
  with_pty-IsClean w (none, w1) f g = λ _. Tidy-same log (g refl)
  with_pty-IsClean w (some (p, v), w1) f g =
      nonblocking-IsClean p v w w1 (f p v refl) (host.set_nonblock p w1) (laws.log_nonblock p w1)

  start-IsClean : (w : W) → IsClean w (start host config (new_emulator host config) w)
  unfolding start
  start-IsClean w = with_pty-IsClean w (host.open_pty w) (laws.log_open w) (laws.log_no_open w)

  -- A `Start` of a new emulator that fails, but for the pseudo terminal that cannot be made
  -- non-blocking, closes the terminals that it has opened and removes the link that it has made.
  pub failed_start-Tidy :
      (w w' : W) (error : StartError) (e : Emulator host config)
      → error ≢ nonblock_failed
      → start host config (new_emulator host config) w ≡ (some error, e, w')
      → Tidy log w w'
  failed_start-Tidy w w' error e other result = subst (IsClean w) result (start-IsClean w) other

  Running-Tidy :
      (w w1 w2 : W) (e : Emulator host config) (wait : W → W)
      → Running w e w1
      → log w2 ≡ log w1
      → ((w : W) → log (wait w) ≡ log w)
      → Tidy log w (stop host config e wait w2)
  unfolding stop
  Running-Tidy w w1 w2 e wait r same quiet =
      let closed = (host.close_tty r.p w2).1 in
      let o3 : Open w r.p r.v (r.calls ++ released (laws.tty r.p) ∷ []) (wait closed) =
        quiet closed
        ∙ laws.log_close r.p w2
        ∙ ap (λ l. l ++ released (laws.tty r.p) ∷ []) (same ∙ r.logged)
        ∙ append_assoc (log w) _ _ in
      let again : AllReleased ((r.calls ++ released (laws.tty r.p) ∷ []) ++ removals_of) =
        subst AllReleased (sym (append_assoc r.calls _ _))
          (AllReleased-insert (laws.tty r.p) r.calls removals_of r.cleaned) in
      subst (λ x. Tidy log w (stop host config x wait w2)) (sym r.is_held)
        (cleanup-Tidy r.p r.v true w (wait closed) _ o3 again)

  -- After a `Start` of a new emulator that succeeds, and whatever calls that do not show in the
  -- log, `Stop` closes both terminals and removes the link that `Start` has made. The goroutine
  -- opens, closes and links nothing.
  pub stop-Tidy :
      (w w1 w2 : W) (e : Emulator host config) (wait : W → W)
      → start host config (new_emulator host config) w ≡ (none, e, w1)
      → log w2 ≡ log w1
      → ((w : W) → log (wait w) ≡ log w)
      → Tidy log w (stop host config e wait w2)
  stop-Tidy w w1 w2 e wait result same quiet =
      Running-Tidy w w1 w2 e wait (subst (IsClean w) result (start-IsClean w)) same quiet
