-- ===== src/Emulator/Respond/Rotation.antt =====
-- Which response `sendResponse` picks, and what it writes.
use mathlib.Core.Path.{subst}
use native.Mathlib.Nat.{mod-lt}
use k8s_jumperless.Base.{
  ℕ, zero, suc, ◌+◌, ◌%◌, ◌^◌, ◌<◌, some, List, [], ◌∷◌, ◌≡◌, ◌≢◌, refl, sym, ap, ◌∙◌, arith, Bytes,
  str_eq_refl, length, get_elem?,
}
use k8s_jumperless.Emulator.Mappings.{ResponseOption, RequestResponse}
use k8s_jumperless.Emulator.Respond.{
  Terminal, Counters, remainder, response_index, count_request, send_chunks, send_option,
  send_response,
}
use k8s_jumperless.Proxy.Quoting.{Quoting}

response_index_rotates : (c n : ℕ) → c < 2 ^ 63 → 0 < n → response_index c n ≡ some (c % n)
unfolding response_index remainder
response_index_rotates c zero h p = absurd (omega arith)
response_index_rotates c (suc zero) h p = ap some (omega arith)
response_index_rotates c (suc (suc n)) h p = ground arith

pub get_elem?_bounded :
    {A : Type 0} (xs : List A) (i : ℕ) → i < length xs → (a : A) × (get_elem? xs i ≡ some a)
get_elem?_bounded [] i h = absurd (omega arith)
get_elem?_bounded (x ∷ xs) zero h = (x, refl)
get_elem?_bounded (x ∷ xs) (suc i) h = get_elem?_bounded xs i (omega arith)

pub index_bounded : {A : Type 0} (k : ℕ) (xs : List A) → xs ≢ [] → k % length xs < length xs
index_bounded k [] ne = absurd (ne refl)
index_bounded k (x ∷ xs) ne = mod-lt k (omega arith)

module _ (q : Quoting) (t : Terminal) where
  -- The counters and the terminal after `sendResponse` was called `k` times for a mapping.
  unfoldable pub after_sends : ℕ → RequestResponse → Counters → t.State → Counters × t.State
  after_sends zero m counters s = (counters, s)
  after_sends (suc k) m counters s =
      let (c, s') = after_sends k m counters s in
      let (outcome, c', s'') = send_response q t m c s' in (c', s'')

  -- With responses, the option of the counter's remainder is sent, and the counter goes up.
  pub send_response_picks :
      (m : RequestResponse) (counters : Counters) (s : t.State)
      → counters m.request < 2 ^ 63
      → m.responses ≢ []
      → send_response q t m counters s ≡ (
          let sending =
            send_option q t (get_elem? m.responses (counters m.request % length m.responses)) s in
          (sending.0, count_request m.request counters, sending.1))
  unfolding send_response
  send_response_picks m counters s h ne = go m.responses refl ne
    where
      go :
          (os : List ResponseOption)
          → m.responses ≡ os
          → os ≢ []
          → send_response q t m counters s ≡ (
              let sending =
                send_option q t
                  (get_elem? m.responses (counters m.request % length m.responses))
                  s in
              (sending.0, count_request m.request counters, sending.1))
      go [] e ne = absurd (ne refl)
      go (o ∷ os) e ne = rw (
        e,
        send_response,
        response_index_rotates (counters m.request) (suc (length os)) h (omega arith),
      )

  count_request_self :
      (key : Bytes) (counters : Counters)
      → counters key < 2 ^ 63
      → count_request key counters key ≡ counters key + 1
  unfolding count_request
  count_request_self key counters h = rw (str_eq_refl key) (omega arith)

  after_sends_count :
      (k : ℕ) (m : RequestResponse) (counters : Counters) (s : t.State)
      → counters m.request ≡ 0
      → m.responses ≢ []
      → k < 2 ^ 63
      → (after_sends k m counters s).0 m.request ≡ k
  unfolding after_sends
  after_sends_count zero m counters s z ne h = z
  after_sends_count (suc k) m counters s z ne h =
      let (c, s') = after_sends k m counters s in
      let e : c m.request ≡ k = after_sends_count k m counters s z ne (omega arith) in
      let below : c m.request < 2 ^ 63 = omega arith in
      ap (λ r. r.1 m.request) (send_response_picks m c s' below ne)
      ∙ count_request_self m.request c below
      ∙ omega arith

  -- The responses of a mapping are sent in turn: the call with number k (from 0, below 2 ^ 63)
  -- for a mapping with responses sends the one with index k modulo their number, which is there,
  -- and ends as the sending of its chunks does. The counter of the mapping's request is 0 at first.
  pub send_response_rotates :
      (k : ℕ) (m : RequestResponse) (counters : Counters) (s : t.State)
      → counters m.request ≡ 0
      → m.responses ≢ []
      → k < 2 ^ 63
      → let state = after_sends k m counters s in
        let result = send_response q t m state.0 state.1 in
        (option : ResponseOption) × (get_elem? m.responses (k % length m.responses) ≡ some option)
        × (result.0 ≡ (send_chunks q t option.chunks state.1).0)
        × (result.2 ≡ (send_chunks q t option.chunks state.1).1)
  unfolding send_option
  send_response_rotates k m counters s z ne h =
      let (c, s') = after_sends k m counters s in
      let e : c m.request ≡ k = after_sends_count k m counters s z ne h in
      let (option, found) =
        get_elem?_bounded m.responses (k % length m.responses) (index_bounded k m.responses ne) in
      let picked = send_response_picks m c s' (subst (λ n. n < 2 ^ 63) (sym e) h) ne in
      let same : get_elem? m.responses (c m.request % length m.responses) ≡ some option =
        ap (λ n. get_elem? m.responses (n % length m.responses)) e ∙ found in
      let sending = ap (λ o. send_option q t o s') same in
      (
        option,
        found,
        ap (λ r. r.0) picked ∙ ap (λ r. r.0) sending,
        ap (λ r. r.2) picked ∙ ap (λ r. r.1) sending,
      )
