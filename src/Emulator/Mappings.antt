-- ===== src/Emulator/Mappings.antt =====
-- The mappings of utils/internal/emulator/config/config.go. A `time.Duration` is a number of
-- nanoseconds, as an integer.
pub mod Laws
use k8s_jumperless.Base.{Option, none, some, List, [], ◌∷◌, ◌++◌, if◌then◌else◌, Bytes, str_eq, ℤ}

pub record ResponseChunk : Type 0 where
  pub text : Bytes
  pub delay : ℤ
  pub jitter_max : ℤ

pub record ResponseOption : Type 0 where
  pub chunks : List ResponseChunk

pub record RequestResponse : Type 0 where
  pub request : Bytes
  pub responses : List ResponseOption

abbrev pub Mappings : Type 0
Mappings = List RequestResponse

pub record EmulatorConfig : Type 0 where
  pub buffer_size : ℤ
  pub virtual_port : Bytes
  pub mappings : Mappings

-- `Get`: the first mapping with the request.
unfoldable pub get : Mappings → Bytes → Option RequestResponse
get [] request = none
get (m ∷ ms) request = if str_eq m.request request then some m else get ms request

-- `AddResponse`: the responses go behind those of the first mapping with the request, or into a
-- new mapping at the end.
unfoldable pub add_response : Mappings → Bytes → List ResponseOption → Mappings
add_response [] request response = record { request = request; responses = response } ∷ []
add_response (m ∷ ms) request response =
    if str_eq m.request request
    then record m { responses = m.responses ++ response } ∷ ms
    else m ∷ add_response ms request response

-- `All`, read to its end: the pairs of a request and its mapping, in order.
unfoldable pub all : Mappings → List (Bytes × RequestResponse)
all [] = []
all (m ∷ ms) = (m.request, m) ∷ all ms
