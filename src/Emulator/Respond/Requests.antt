-- ===== src/Emulator/Respond/Requests.antt =====
-- The request buffer of `handleRequests` between two reads.
use mathlib.Core.Option.{some-injective}
use k8s_jumperless.Base.{
  Option, none, some, List, [], ◌∷◌, ◌++◌, ◌≡◌, refl, sym, ap, ◌∙◌, Bytes, if◌then◌else◌, str_eq,
  str_eq_iff, Bool-cases, inl, inr,
}
use k8s_jumperless.Emulator.Mappings.{RequestResponse, Mappings}
use k8s_jumperless.Emulator.Respond.{
  Terminal, Read, timeout, end_of_input, failed, bytes, Handler, answer, find_response, handle_read,
  handle_reads,
}
use k8s_jumperless.Proxy.Quoting.{Quoting}
use k8s_jumperless.Strings.Space.Laws.{trim_space-trim_space}
use k8s_jumperless.Strings.Space.{trim_space}

pub trim_space_nil : trim_space [] ≡ []
unfolding trim_space
trim_space_nil = refl

module _ (q : Quoting) (t : Terminal) where
  answer-buffer : (h : Handler q t) (m : Option RequestResponse) → (answer q t h m).buffer ≡ []
  unfolding answer
  answer-buffer h none = refl
  answer-buffer h (some m) = refl

  handle_read-buffer :
      (ms : Mappings) (h : Handler q t) (r : Read q t)
      → trim_space h.buffer ≡ []
      → trim_space (handle_read q t ms h r).buffer ≡ []
  unfolding handle_read
  handle_read-buffer ms h timeout e = e
  handle_read-buffer ms h end_of_input e = e
  handle_read-buffer ms h failed e = e
  handle_read-buffer ms h (bytes []) e = e
  handle_read-buffer ms h (bytes (b ∷ bs)) e = go (trim_space (h.buffer ++ b ∷ bs)) refl
    where
      go :
          (s : Bytes)
          → trim_space (h.buffer ++ b ∷ bs) ≡ s
          → trim_space (handle_read q t ms h (bytes (b ∷ bs))).buffer ≡ []
      go [] blank = rw (blank, handle_read) blank
      go (c ∷ s) found =
          rw (found, handle_read)
            (ap trim_space (
                answer-buffer (record h { buffer = h.buffer ++ b ∷ bs }) (find_response ms (c ∷ s)))
              ∙ trim_space_nil)

  -- Between two reads the request buffer holds nothing but white space: whatever else was read
  -- was taken for a request, answered if a mapping fits, and dropped if none does. The buffer holds nothing else at first.
  pub handle_reads-buffer :
      (ms : Mappings) (h : Handler q t) (rs : List (Read q t))
      → trim_space h.buffer ≡ []
      → trim_space (handle_reads q t ms h rs).buffer ≡ []
  unfolding handle_reads
  handle_reads-buffer ms h [] e = e
  handle_reads-buffer ms h (r ∷ rs) e =
      handle_reads-buffer ms (handle_read q t ms h r) rs (handle_read-buffer ms h r e)

pub find_response_trimmed_request :
    (ms : Mappings) (req : Bytes) → find_response ms (trim_space req) ≡ find_response ms req
unfolding find_response
find_response_trimmed_request [] req = refl
find_response_trimmed_request (m ∷ ms) req = rw (trim_space-trim_space req) (
    ap (λ o. if str_eq (trim_space req) (trim_space m.request) then some m else o)
      (find_response_trimmed_request ms req))

found_request :
    (ms : Mappings) (req : Bytes) (m : RequestResponse)
    → find_response ms req ≡ some m
    → trim_space m.request ≡ trim_space req
unfolding find_response
found_request [] req m h = cc
found_request (x ∷ ms) req m h =
    elim (Bool-cases (str_eq (trim_space req) (trim_space x.request))) [
      | inl e ↦
          ap (λ (y : RequestResponse). trim_space y.request) (sym (some-injective _ _ (rw e at h)))
          ∙ sym ((str_eq_iff _ _).0 e)
      | inr e ↦ found_request ms req m (rw e at h)
    ]

-- A mapping that is found for a request has the same request up to white space at the ends, and
-- the request without that white space finds the same mapping.
pub find_response-trim_space :
    (ms : Mappings) (req : Bytes) (m : RequestResponse)
    → find_response ms req ≡ some m
    → (find_response ms (trim_space req) ≡ some m) × (trim_space m.request ≡ trim_space req)
find_response-trim_space ms req m h =
    (find_response_trimmed_request ms req ∙ h, found_request ms req m h)
