-- ===== src/LocalCache/Serve.antt =====
-- localcache.go: the protocol loop of serve, which serveCmdGo of cacheprog.go has too, and the answer
-- to a request. The messages are what the JSON decoder returns; requests are answered concurrently,
-- so the loop returns the requests that it starts.
use gotst.Prelude.{
  ℕ, Bool, true, false, not, ◌&&◌, List, [], ◌∷◌, Option, none, some, Text, length, is_empty, eqb,
  ltb, if◌then◌else◌,
}
use gotst.Files.{Os}
use gotst.LocalCache.Data.{
  command_get, command_put, command_close, command_other, CacheProgRequest, CacheProgResponse,
  empty_response, LocalCacheIndex, LocalBuildCache,
}
use gotst.LocalCache.Store.{local_get, local_put}

-- What a call of Decode finds; after the last message is the end of the input.
pub data Message : Type 0 where
  message_request : CacheProgRequest → Message
  message_body : Text → Message
  malformed : Message

-- A request that is started, with its body.
pub record Job : Type 0 where
  pub request : CacheProgRequest
  pub body : Text

-- How the loop ends: at the end of the input, with an error, or on the request to close of an ID.
pub data ServeEnd : Type 0 where
  end_of_input input_error : ServeEnd
  closed : ℕ → ServeEnd

pub record Served : Type 0 where
  pub jobs : List Job
  pub ends : ServeEnd

abbrev pub start_job : CacheProgRequest → Text → Served → Served
start_job req body s = record s { jobs = record { request = req; body = body } ∷ s.jobs }

abbrev pub stop_serving : ServeEnd → Served
stop_serving e = record { jobs = []; ends = e }

-- The older name of the output ID.
unfoldable pub with_output_id : CacheProgRequest → CacheProgRequest
with_output_id req =
    if is_empty req.output_id && not (is_empty req.object_id)
    then record req { output_id = req.object_id }
    else req

unfoldable pub has_body : CacheProgRequest → Bool
has_body req = elim req.command [
  | command_get ↦ false
  | command_put ↦ ltb 0 req.body_size
  | command_close ↦ false
  | command_other name ↦ false
]

unfoldable pub is_close : CacheProgRequest → Bool
is_close req = elim req.command [
  | command_get ↦ false
  | command_put ↦ false
  | command_close ↦ true
  | command_other name ↦ false
]

-- The loop; the first argument is the put whose body is read next.
unfoldable pub serve : Option CacheProgRequest → List Message → Served
unfolding with_output_id has_body is_close
serve none [] = stop_serving end_of_input
serve none (malformed ∷ ms) = stop_serving input_error
serve none (message_body b ∷ ms) = stop_serving input_error
serve none (message_request raw ∷ ms) =
    let req = with_output_id raw in
    elim (has_body req) [
      | true ↦ serve (some req) ms
      | false ↦ elim (is_close req) [
        | true ↦ stop_serving (closed req.id)
        | false ↦ start_job req [] (serve none ms)
      ]
    ]
serve (some req) (message_body b ∷ ms) = elim (eqb (length b) req.body_size) [
  | true ↦ start_job req b (serve none ms)
  | false ↦ stop_serving input_error
]
serve (some req) [] = stop_serving input_error
serve (some req) (malformed ∷ ms) = stop_serving input_error
serve (some req) (message_request r ∷ ms) = stop_serving input_error

module _ {D : Type 0} (os : Os D) (sha256 : Text → Text) (marshal : LocalCacheIndex → Option Text)
    (unmarshal : Text → Option LocalCacheIndex) (message : Text) where
  -- A response of get gets the ID; an error is the text `message`. Where get has an error there is no
  -- response, and `res.ID` is a nil dereference.
  unfoldable pub answer : LocalBuildCache → Job → D → Option (D × CacheProgResponse)
  unfolding local_get local_put
  answer c job d =
      let req = job.request in
      let failed : CacheProgResponse = record empty_response { id = req.id; err = message } in
      elim req.command [
        | command_get ↦ elim (local_get os sha256 marshal unmarshal c req.action_id d) [
          | none ↦ none
          | some res ↦ some (d, record res { id = req.id })
        ]
        | command_put ↦
            let r =
              local_put os sha256 marshal unmarshal c req.action_id req.output_id req.body_size
                job.body d in
            some (
              r.0,
              elim r.1 [
                | none ↦ failed
                | some path ↦ record empty_response { id = req.id; disk_path = path }
              ],
            )
        | command_close ↦ some (d, failed)
        | command_other name ↦ some (d, failed)
      ]
