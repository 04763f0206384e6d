-- ===== src/Emulator/Mappings/Laws.antt =====
-- The mappings as a map from requests to lists of responses.
use k8s_jumperless.Base.{
  Bool, false, ◌||◌, some, List, [], ◌∷◌, ◌++◌, ◌≡◌, refl, arith, if◌then◌else◌, Bytes, str_eq,
  str_eq_iff,
}
use k8s_jumperless.Emulator.Mappings.{ResponseOption, Mappings, get, add_response}

-- The responses recorded for a request, none if it has no mapping.
unfoldable pub responses_of : Bytes → Mappings → List ResponseOption
responses_of request [] = []
responses_of request (m ∷ ms) =
    if str_eq m.request request then m.responses else responses_of request ms

unfoldable pub has_request : Bytes → Mappings → Bool
has_request request [] = false
has_request request (m ∷ ms) = str_eq m.request request || has_request request ms

-- No request has two mappings.
abbrev pub UniqueRequests : Mappings → Type 0
UniqueRequests [] = Unit
UniqueRequests (m ∷ ms) = (has_request m.request ms ≡ false) × UniqueRequests ms

pub responses_of-add_response :
    (q r : Bytes) (ms : Mappings) (response : List ResponseOption)
    → responses_of q (add_response ms r response)
      ≡ (if str_eq r q then responses_of q ms ++ response else responses_of q ms)
unfolding responses_of add_response
responses_of-add_response q r [] response = refl
responses_of-add_response q r (m ∷ ms) response = ground (
  arith,
  str_eq_iff m.request r,
  str_eq_iff m.request q,
  str_eq_iff r q,
  responses_of-add_response q r ms response,
)

has_request-add_response :
    (q r : Bytes) (ms : Mappings) (response : List ResponseOption)
    → has_request q (add_response ms r response) ≡ (str_eq r q || has_request q ms)
unfolding has_request add_response
has_request-add_response q r [] response = refl
has_request-add_response q r (m ∷ ms) response = ground (
  arith,
  str_eq_iff m.request r,
  str_eq_iff m.request q,
  str_eq_iff r q,
  has_request-add_response q r ms response,
)

pub add_response-UniqueRequests :
    (r : Bytes) (ms : Mappings) (response : List ResponseOption)
    → UniqueRequests ms
    → UniqueRequests (add_response ms r response)
unfolding add_response
add_response-UniqueRequests r [] response u = (unfold has_request in refl, tt)
add_response-UniqueRequests r (m ∷ ms) response u = ground (
  arith,
  str_eq_iff m.request r,
  str_eq_iff r m.request,
  has_request-add_response m.request r ms response,
  add_response-UniqueRequests r ms response u.1,
)

-- `Get` after `AddResponse`, for every request: the mapping that was extended or added has the
-- old responses, if there were any, with the new ones behind them; any other is left as it was.
pub get-add_response :
    (q r : Bytes) (ms : Mappings) (response : List ResponseOption)
    → get (add_response ms r response) q ≡ (
        if str_eq r q
        then some (record { request = r; responses = responses_of r ms ++ response })
        else get ms q)
unfolding get add_response responses_of
get-add_response q r [] response = refl
get-add_response q r (m ∷ ms) response = ground (
  arith,
  str_eq_iff m.request r,
  str_eq_iff m.request q,
  str_eq_iff r q,
  get-add_response q r ms response,
)
