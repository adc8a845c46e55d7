-- ===== src/LocalCache/Examples.antt =====
-- localcache.go: tests and examples with a disk in memory.
use gotst.LocalCache.Serve.{Job, answer, serve, message_request}
use gotst.LocalCache.ServeLaws.{IsReady, answer-none, serve-IsReady}
use gotst.Go.Paths.{has_slash}
use gotst.Prelude.{
  ◌↔◌, All, text_beq, insert, zero, suc, lookup, ◌<◌, suc, ℕ, ◌≡◌, refl, ◌%◌, true, [], ◌∷◌, ◌++◌,
  Option, none, some, Text, text, length, arith, ap,
}
use gotst.Go.Hex.{decode_string, encode_to_string, AreBytes}
use gotst.Files.{unreadable, contents, Os}
use gotst.Files.Memory.{Memory, memory_os, memory-Laws}
use gotst.LocalCache.Data.{
  command_close, valid_cache_hex, action_path, CacheProgResponse, CacheProgRequest, command_get,
  empty_response, LocalCacheIndex, LocalBuildCache, output_path,
}
use gotst.LocalCache.Store.{local_put, local_get}
use gotst.LocalCache.StoreLaws.{Sound, local_put-Sound}
use gotst.LocalCache.GetLaws.{local_get-Sound}
use gotst.LocalCache.RoundTrip.{local_get-local_put}

abbrev repeat : ℕ → ℕ → Text
repeat zero b = []
repeat (suc n) b = b ∷ repeat n b

-- A hash for tests.
abbrev length_hash : Text → Text
length_hash s = repeat 32 (length s % 256)

repeat-AreBytes : (n b : ℕ) → b < 256 → AreBytes (repeat n b)
repeat-AreBytes zero b h = tt
repeat-AreBytes (suc n) b h = (h, repeat-AreBytes n b h)

length_hash-AreBytes : (s : Text) → AreBytes (length_hash s)
length_hash-AreBytes s = repeat-AreBytes 32 (length s % 256) (omega arith)

abbrev test_marshal : LocalCacheIndex → Option Text
test_marshal i = some (i.version ∷ i.size ∷ i.time_nanos ∷ i.output_id)

abbrev drop_last : Text → Text
drop_last [] = []
drop_last (a ∷ []) = []
drop_last (a ∷ b ∷ s) = a ∷ drop_last (b ∷ s)

abbrev test_unmarshal : Text → Option LocalCacheIndex
test_unmarshal (v ∷ n ∷ t ∷ s) =
    some (record { version = v; output_id = drop_last s; size = n; time_nanos = t })
test_unmarshal _ = none

drop_last-append : (s : Text) (b : ℕ) → drop_last (s ++ b ∷ []) ≡ s
drop_last-append [] b = refl
drop_last-append (a ∷ []) b = refl
drop_last-append (a ∷ c ∷ s) b = ap (λ r. a ∷ r) (drop_last-append (c ∷ s) b)

test_json :
    (i : LocalCacheIndex) (t : Text)
    → test_marshal i ≡ some t
    → test_unmarshal (t ++ 10 ∷ []) ≡ some i
test_json i t h =
    let same : i.version ∷ i.size ∷ i.time_nanos ∷ i.output_id ≡ t = ground (arith, h) in
    rw (← same, drop_last-append i.output_id 10)

abbrev test_cache : LocalBuildCache
test_cache = record { dir = text "/c"; stock_dir = [] }

abbrev test_action : Text
test_action = repeat 32 171

abbrev test_body : Text
test_body = text "hello"

abbrev after_put : Memory × Option Text
after_put =
    local_put memory_os length_hash test_marshal test_unmarshal test_cache test_action
      (length_hash test_body) 5 test_body []

abbrev test_path : Text
test_path = output_path test_cache (encode_to_string (length_hash test_body))

put_succeeds : after_put.1 ≡ some test_path
unfolding local_put valid_cache_hex encode_to_string decode_string text_beq lookup has_slash insert
    output_path action_path
put_succeeds = refl

local_get-local_put_example :
    (t : ℕ) × (memory_os.read_file after_put.0 test_path ≡ contents test_body)
    × (local_get memory_os length_hash test_marshal test_unmarshal test_cache test_action
          after_put.0
        ≡ some (record empty_response {
          output_id = length_hash test_body;
          size = 5;
          time = some t;
          disk_path = test_path;
        }))
local_get-local_put_example =
    local_get-local_put memory_os memory-Laws length_hash test_marshal test_unmarshal test_cache
      length_hash-AreBytes test_json test_action (length_hash test_body) 5 test_body test_path []
      put_succeeds

empty-Sound : Sound memory_os length_hash test_cache []
unfolding lookup
empty-Sound id body valid h = ground arith

local_put-Sound_example : Sound memory_os length_hash test_cache after_put.0
local_put-Sound_example =
    local_put-Sound memory_os memory-Laws length_hash test_marshal test_unmarshal
      length_hash-AreBytes test_cache test_action (length_hash test_body) 5 test_body [] empty-Sound

abbrev found : CacheProgResponse
found = record empty_response {
  output_id = length_hash test_body;
  size = 5;
  time = some 7;
  disk_path = test_path;
}

get_finds :
    local_get memory_os length_hash test_marshal test_unmarshal test_cache test_action after_put.0
    ≡ some found
unfolding local_put local_get valid_cache_hex encode_to_string decode_string lookup text_beq
    has_slash insert output_path action_path
get_finds = refl

reads_body : memory_os.read_file after_put.0 test_path ≡ contents test_body
unfolding local_put lookup valid_cache_hex encode_to_string decode_string text_beq has_slash insert
    output_path action_path
reads_body = refl

local_get-Sound_example :
    (found.output_id ≡ length_hash test_body) × (found.size ≡ length test_body)
local_get-Sound_example =
    local_get-Sound memory_os memory-Laws length_hash test_marshal test_unmarshal
      length_hash-AreBytes test_cache test_action test_body after_put.0 found refl
      local_put-Sound_example get_finds refl reads_body

-- A disk whose files cannot be read.
abbrev broken_os : Os Memory
broken_os = record memory_os { read_file = λ d p. unreadable }

abbrev get_job : Job
get_job = record {
  request = record {
    id = 3;
    command = command_get;
    action_id = test_action;
    output_id = [];
    object_id = [];
    body_size = 0;
  };
  body = [];
}

answer-none_example :
    (answer broken_os length_hash test_marshal test_unmarshal (text "error") test_cache get_job []
      ≡ none)
    ↔ ((command_get ≡ command_get)
        × (valid_cache_hex (encode_to_string test_action) ≡ true)
        × (unreadable ≡ unreadable))
answer-none_example =
    answer-none broken_os length_hash test_marshal test_unmarshal test_cache [] (text "error")
      get_job

abbrev close_request : CacheProgRequest
close_request = record get_job.request { command = command_close }

serve-IsReady_example :
    All IsReady
      (serve none (message_request get_job.request ∷ message_request close_request ∷ [])).jobs
serve-IsReady_example =
    serve-IsReady (message_request get_job.request ∷ message_request close_request ∷ [])
