-- ===== src/Proxy/Timing.antt =====
-- The delay with which the emulator plays a recorded chunk.
use k8s_jumperless.Base.{
  ℕ, zero, suc, ◌+◌, ◌-◌, ◌/◌, ◌<◌, ◌≤◌, ◌≡◌, refl, sym, ap, ◌∙◌, arith, Bytes, ℤ, pos, ◌+ℤ◌,
  quotient, sub_ℕ, saturate_int64, wrap_int64, ◌^◌,
}
use k8s_jumperless.Emulator.Respond.{Terminal, chunk_delay}
use k8s_jumperless.Proxy.Quoting.{Quoting}
use k8s_jumperless.Proxy.Recorder.{chunk_of}

-- `rand.Int63n` of a positive number is not negative and below it.
pub record IsRandom (t : Terminal) : Type 0 where
  pub below : (n : ℕ) (s : t.State) → (j : ℕ) × ((t.int63n (pos (suc n)) s).0 ≡ pos j) × (j < suc n)

-- A delay of at least `shortest` and at most `longest`.
pub record IsBetween (shortest longest : ℕ) (delay : ℤ) : Type 0 where
  pub time : ℕ
  pub is_time : delay ≡ pos time
  pub not_shorter : shortest ≤ time
  pub not_longer : time ≤ longest

sub_ℕ-le : (a b : ℕ) → b ≤ a → sub_ℕ a b ≡ pos (a - b)
sub_ℕ-le a b le = ground arith

-- A number below `2 ^ 63` is an `int64`.
wrap_int64-pos : (n : ℕ) → n < 2 ^ 63 → wrap_int64 (pos n) ≡ pos n
unfolding wrap_int64
wrap_int64-pos n fits = ground arith

saturate_int64-pos : (n : ℕ) → n < 2 ^ 63 → saturate_int64 (pos n) ≡ pos n
unfolding saturate_int64
saturate_int64-pos n fits = ground arith

pos-add : (a b : ℕ) → pos a +ℤ pos b ≡ pos (a + b)
unfolding ◌+ℤ◌
pos-add a b = ground arith

-- The jitter that is drawn below a positive number, and none below 0.
unfoldable pub drawn : (t : Terminal) → ℕ → t.State → ℤ
drawn t zero s = pos 0
drawn t (suc n) s = (t.int63n (pos (suc n)) s).0

module _ (q : Quoting) (t : Terminal) (random : IsRandom t) where
  jittered-IsBetween :
      (text : Bytes) (d j : ℕ) (s : t.State)
      → j ≡ d / 10
      → d + d / 10 < 2 ^ 63
      → let delay =
          (chunk_delay q t (record { text = text; delay = pos d; jitter_max = pos j }) s).0 in
        IsBetween d (d + d / 10) delay × (delay ≡ pos d +ℤ drawn t j s)
  unfolding chunk_delay drawn
  jittered-IsBetween text d zero s e fits = (
    record { time = d; is_time = refl; not_shorter = omega arith; not_longer = omega arith },
    sym (pos-add d 0 ∙ ap pos (omega arith)),
  )
  jittered-IsBetween text d (suc n) s e fits =
      let (j, is_j, small) = random.below n s in
      let sum : pos d +ℤ drawn t (suc n) s ≡ pos (d + j) =
        ap (λ x. pos d +ℤ x) is_j ∙ pos-add d j in
      let is_time = ap wrap_int64 sum ∙ wrap_int64-pos (d + j) (omega arith) in
      (
        record {
          time = d + j;
          is_time = is_time;
          not_shorter = omega arith;
          not_longer = omega arith;
        },
        is_time ∙ sym sum,
      )

  -- A chunk that was read a time `d` after the event before it is played with a delay of `d` and the
  -- jitter that is drawn below `d / 10`, and so of at least `d` and at most `d + d / 10`, for a clock
  -- that does not run backwards and as long as `d + d / 10` is an `int64`, beyond which the sum of
  -- the delay and its jitter could wrap. `rand.Int63n` of a positive number is not negative and
  -- below it.
  pub chunk_delay-IsBetween :
      (text : Bytes) (start since : ℕ) (s : t.State)
      → start ≤ since
      → (since - start) + (since - start) / 10 < 2 ^ 63
      → let delay = (chunk_delay q t (chunk_of q text start since) s).0 in
        IsBetween (since - start) ((since - start) + (since - start) / 10) delay
        × (delay ≡ pos (since - start) +ℤ drawn t ((since - start) / 10) s)
  unfolding quotient
  chunk_delay-IsBetween text start since s le fits =
      rw (sub_ℕ-le since start le, saturate_int64-pos (since - start) (omega arith))
        (jittered-IsBetween (q.quote text) (since - start) ((since - start) / 10) s refl fits)
