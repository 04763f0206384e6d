-- ===== src/Emulator/Respond/Written.antt =====
-- What `sendResponse` leaves on a terminal that takes every write.
use mathlib.Core.List.{append_assoc, append-nil}
use k8s_jumperless.Base.{
  ℕ, Option, none, some, List, [], ◌∷◌, ◌++◌, ◌≡◌, refl, sym, ap, ◌∙◌, arith, Bytes, length, ℤ,
  ◌==◌, Bool-cases, inl, inr, is_positive,
}
use k8s_jumperless.Emulator.Mappings.{ResponseChunk}
use k8s_jumperless.Emulator.Respond.{
  Terminal, Outcome, sent, send_chunks, chunk_text, chunk_delay, wait, after_write,
}
use k8s_jumperless.Proxy.Quoting.{Quoting}

-- Each write takes all its bytes, and nothing else changes what was written.
pub record IsReliable (t : Terminal) : Type 0 where
  pub written : t.State → Bytes
  pub write_all : (b : Bytes) (s : t.State) → (t.write b s).0 ≡ some (length b)
  pub write_appends : (b : Bytes) (s : t.State) → written (t.write b s).1 ≡ written s ++ b
  pub sleep_keeps : (d : ℤ) (s : t.State) → written (t.sleep d s) ≡ written s
  pub int63n_keeps : (n : ℤ) (s : t.State) → written (t.int63n n s).1 ≡ written s

module _ (q : Quoting) (t : Terminal) (reliable : IsReliable t) where
  open reliable use {written, write_all, write_appends, sleep_keeps, int63n_keeps}

  -- The texts of the chunks, one behind the other.
  unfoldable pub texts : List ResponseChunk → Bytes
  texts [] = []
  texts (chunk ∷ chunks) = chunk_text q t chunk.text ++ texts chunks

  written-wait : (delay : ℤ) (s : t.State) → written (wait q t delay s) ≡ written s
  unfolding wait
  written-wait delay s = elim (Bool-cases (is_positive delay)) [
    | inl e ↦ rw e (sleep_keeps delay s)
    | inr e ↦ rw e
  ]

  written-chunk_delay :
      (chunk : ResponseChunk) (s : t.State) → written (chunk_delay q t chunk s).1 ≡ written s
  unfolding chunk_delay
  written-chunk_delay chunk s = elim (Bool-cases (is_positive chunk.jitter_max)) [
    | inl e ↦ rw e (int63n_keeps chunk.jitter_max s)
    | inr e ↦ rw e
  ]

  after_write_all :
      (text : Bytes) (rest : t.State → Outcome × t.State) (r : Option ℕ × t.State)
      → r.0 ≡ some (length text)
      → after_write q t text rest r ≡ rest r.1
  after_write_all text rest (none, s) h = cc
  after_write_all text rest (some n, s) h = elim (Bool-cases (n == length text)) [
    | inl e ↦ rw (e, after_write)
    | inr e ↦ absurd (ground arith)
  ]

  -- All chunks are sent, and their texts are written in order and nothing else is.
  pub send_chunks-texts :
      (chunks : List ResponseChunk) (s : t.State)
      → ((send_chunks q t chunks s).0 ≡ sent)
        × (written (send_chunks q t chunks s).1 ≡ written s ++ texts chunks)
  unfolding send_chunks texts
  send_chunks-texts [] s = (refl, sym (append-nil _))
  send_chunks-texts (chunk ∷ chunks) s =
      let text = chunk_text q t chunk.text in
      let delayed = chunk_delay q t chunk s in
      let waited = wait q t delayed.0 delayed.1 in
      let wrote = t.write text waited in
      let next = after_write_all text (send_chunks q t chunks) wrote (write_all text waited) in
      let (ended, rest) = send_chunks-texts chunks wrote.1 in
      let before : written wrote.1 ≡ written s ++ text =
        write_appends text waited
        ∙ ap (λ b. b ++ text) (written-wait delayed.0 delayed.1 ∙ written-chunk_delay chunk s) in
      (
        ap (λ r. r.0) next ∙ ended,
        ap (λ r. written r.1) next
            ∙ rest
            ∙ ap (λ b. b ++ texts chunks) before
            ∙ append_assoc (written s) text (texts chunks),
      )
