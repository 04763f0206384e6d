-- ===== src/Emulator/Respond/Untimed.antt =====
-- What the emulator writes does not depend on delays and jitters.
use k8s_jumperless.Base.{
  ℕ, zero, suc, ◌%◌, ◌^◌, ◌≤◌, Bool-cases, inl, inr, Option, none, some, List, [], ◌∷◌, ◌++◌, ◌≡◌,
  ◌≢◌, refl, sym, ap, ◌∙◌, if◌then◌else◌, map, All, Bytes, str_eq, length, get_elem?, pos,
}
use k8s_jumperless.Emulator.Mappings.{Mappings, RequestResponse, ResponseChunk, ResponseOption}
use k8s_jumperless.Emulator.Respond.Session.{
  handle_reads-replies, is_answered, option_texts, replies, reply, times,
}
use k8s_jumperless.Emulator.Respond.Written.{IsReliable, texts}
use k8s_jumperless.Emulator.Respond.{Terminal, bytes, find_response, handle_reads}
use k8s_jumperless.Proxy.Quoting.{Quoting}
use k8s_jumperless.Strings.Space.{trim_space}
use mathlib.Core.Path.{ap₂}

abbrev pub untimed_chunk : ResponseChunk → ResponseChunk
untimed_chunk chunk = record { text = chunk.text; delay = pos 0; jitter_max = pos 0 }

abbrev pub untimed_option : ResponseOption → ResponseOption
untimed_option option = record { chunks = map untimed_chunk option.chunks }

abbrev pub untimed_mapping : RequestResponse → RequestResponse
untimed_mapping m = record { request = m.request; responses = map untimed_option m.responses }

-- The mappings with all delays and jitters set to 0.
abbrev pub untimed : Mappings → Mappings
untimed ms = map untimed_mapping ms

abbrev if_some : {A B : Type 0} → (A → B) → Option A → Option B
if_some f none = none
if_some f (some x) = some (f x)

length-map : {A B : Type 0} (f : A → B) (xs : List A) → length (map f xs) ≡ length xs
length-map f [] = refl
length-map f (x ∷ xs) = ap (λ n. suc n) (length-map f xs)

get_elem?-map :
    {A B : Type 0} (f : A → B) (xs : List A) (i : ℕ)
    → get_elem? (map f xs) i ≡ if_some f (get_elem? xs i)
get_elem?-map f [] i = refl
get_elem?-map f (x ∷ xs) zero = refl
get_elem?-map f (x ∷ xs) (suc i) = get_elem?-map f xs i

find_response-untimed :
    (ms : Mappings) (req : Bytes)
    → find_response (untimed ms) req ≡ if_some untimed_mapping (find_response ms req)
unfolding find_response
find_response-untimed [] req = refl
find_response-untimed (m ∷ ms) req =
    elim (Bool-cases (str_eq (trim_space req) (trim_space m.request))) [
      | inl e ↦ rw e refl
      | inr e ↦ rw e (find_response-untimed ms req)
    ]

is_answered-untimed :
    (key : Bytes) (o : Option RequestResponse)
    → is_answered key (if_some untimed_mapping o) ≡ is_answered key o
unfolding is_answered
is_answered-untimed key none = refl
is_answered-untimed key (some m) =
    elim m.responses
        as (λ os.
          m.responses ≡ os
          → is_answered key (if_some untimed_mapping (some m)) ≡ is_answered key (some m)) [
            | [] ↦ λ e. rw (e, is_answered) refl
            | o ∷ os ↦ λ e. rw (e, is_answered) refl
          ]
      refl

times-untimed :
    (ms : Mappings) (key : Bytes) (past : List Bytes)
    → times (untimed ms) key past ≡ times ms key past
unfolding times
times-untimed ms key [] = refl
times-untimed ms key (req ∷ past) =
    ap₂ (λ b n. if b then suc n else n)
      (ap (is_answered key) (find_response-untimed ms req)
        ∙ is_answered-untimed key (find_response ms req))
      (times-untimed ms key past)

module _ (q : Quoting) (t : Terminal) (reliable : IsReliable t) where
  texts-untimed :
      (chunks : List ResponseChunk)
      → texts q t reliable (map untimed_chunk chunks) ≡ texts q t reliable chunks
  unfolding texts
  texts-untimed [] = refl
  texts-untimed (chunk ∷ chunks) = ap (◌++◌ _) (texts-untimed chunks)

  option_texts-untimed :
      (ms : Mappings) (o : Option ResponseOption)
      → option_texts q t reliable (untimed ms) (if_some untimed_option o)
        ≡ option_texts q t reliable ms o
  unfolding option_texts
  option_texts-untimed ms none = refl
  option_texts-untimed ms (some o) = texts-untimed o.chunks

  reply-untimed :
      (ms : Mappings) (past : List Bytes) (o : Option RequestResponse)
      → reply q t reliable (untimed ms) past (if_some untimed_mapping o)
        ≡ reply q t reliable ms past o
  unfolding reply
  reply-untimed ms past none = refl
  reply-untimed ms past (some m) =
      let i = times ms m.request past % length m.responses in
      ap (option_texts q t reliable (untimed ms)) (
        ap₂ (λ n l. get_elem? (map untimed_option m.responses) (n % l))
          (times-untimed ms m.request past) (length-map untimed_option m.responses)
        ∙ get_elem?-map untimed_option m.responses i)
      ∙ option_texts-untimed ms (get_elem? m.responses i)

  replies-untimed :
      (ms : Mappings) (past reqs : List Bytes)
      → replies q t reliable (untimed ms) past reqs ≡ replies q t reliable ms past reqs
  unfolding replies
  replies-untimed ms past [] = refl
  replies-untimed ms past (req ∷ reqs) =
      ap₂ (◌++◌)
        (ap (reply q t reliable (untimed ms) past) (find_response-untimed ms req)
          ∙ reply-untimed ms past (find_response ms req))
        (replies-untimed ms (req ∷ past) reqs)

  -- What the emulator writes does not depend on the delays and the jitters of its mappings: two
  -- lists of mappings that are the same but for these make it write the same bytes for a session in
  -- which each read brings a whole request. No request is blank, there are at most 2 ^ 63, the
  -- counters are 0 at first, and the terminal takes every write.
  pub handle_reads-untimed :
      (ms ms' : Mappings) (reqs : List Bytes) (s : t.State)
      → untimed ms ≡ untimed ms'
      → All (λ req. trim_space req ≢ []) reqs
      → length reqs ≤ 2 ^ 63
      → reliable.written
          (handle_reads q t ms
            (record { buffer = []; counters = λ key. 0; terminal = s })
            (map bytes reqs)).terminal
        ≡ reliable.written
            (handle_reads q t ms'
              (record { buffer = []; counters = λ key. 0; terminal = s })
              (map bytes reqs)).terminal
  handle_reads-untimed ms ms' reqs s same not_blank short =
      handle_reads-replies q t reliable ms reqs s not_blank short
      ∙ ap (◌++◌ (reliable.written s)) (
          sym (replies-untimed ms [] reqs)
          ∙ ap (λ l. replies q t reliable l [] reqs) same
          ∙ replies-untimed ms' [] reqs)
      ∙ sym (handle_reads-replies q t reliable ms' reqs s not_blank short)
