-- ===== src/CacheProg/Client.antt =====
-- cacheprog.go: cacheProgClient with readLoop and send. Their steps are the parts that run under the
-- mutex; the helper's messages and the results of writes come from outside.
use gotst.Prelude.{
  ℕ, ◌+◌, ◌%◌, ◌<◌, ◌≡◌, List, [], ◌∷◌, Option, none, some, Text, nat_eq, contains, delete, lookup,
  insert, is_some, is_empty, if◌then◌else◌,
}
use gotst.LocalCache.{CacheProgResponse}

-- The channel of a request, and what its receiver can find there. A request whose writing failed has
-- no receiver.
pub data Channel : Type 0 where
  waiting shut abandoned : Channel
  holding : CacheProgResponse → Channel

-- `cacheProgClient`; `next_id` is an int64 modulo 2 ^ 64. `pending` has the keys of the map, whose
-- values are the channels of the same number.
pub record CacheProgClient : Type 0 where
  pub next_id : ℕ
  pub pending : List ℕ
  pub read_err : Option Text
  pub channels : List (ℕ × Channel)

abbrev pub new_client : CacheProgClient
new_client = record { next_id = 0; pending = []; read_err = none; channels = [] }

abbrev pub id_modulus : ℕ
id_modulus = 18_446_744_073_709_551_616

-- `send` up to its write; `none` where the helper is gone.
unfoldable pub begin_send : CacheProgClient → Option (ℕ × CacheProgClient)
begin_send c =
    let id = (c.next_id + 1) % id_modulus in
    if is_some c.read_err
    then none
    else some (
      id,
      record c { next_id = id; pending = id ∷ c.pending; channels = insert id waiting c.channels },
    )

-- `send` after a write that failed.
unfoldable pub fail_send : ℕ → CacheProgClient → CacheProgClient
fail_send id c = record c {
  pending = delete id c.pending;
  channels = insert id abandoned c.channels;
}

-- `readLoop` with a response.
unfoldable pub receive : CacheProgResponse → CacheProgClient → CacheProgClient
receive res c = record c {
  pending = delete res.id c.pending;
  channels =
      if contains c.pending res.id then insert res.id (holding res) c.channels else c.channels;
}

-- The loop of `readLoop` over the map, in any order.
unfoldable pub shut_all : List ℕ → List (ℕ × Channel) → List (ℕ × Channel)
shut_all [] channels = channels
shut_all (id ∷ ids) channels = insert id shut (shut_all ids channels)

-- `readLoop` with an error.
unfoldable pub end_reading : Text → CacheProgClient → CacheProgClient
unfolding shut_all
end_reading err c = record c {
  read_err = some err;
  pending = [];
  channels = shut_all c.pending c.channels;
}

-- What the select of `send` returns, if it does not wait.
pub data SendResult : Type 0 where
  waits : SendResult
  send_error : Text → SendResult
  answered : CacheProgResponse → SendResult

unfoldable pub send_result : CacheProgClient → ℕ → SendResult
send_result c id = elim (lookup id c.channels) [
  | none ↦ waits
  | some ch ↦ elim ch [
    | waiting ↦ waits
    | abandoned ↦ waits
    | shut ↦ elim c.read_err [ none ↦ send_error [] | some err ↦ send_error err ]
    | holding res ↦ if is_empty res.err then answered res else send_error res.err
  ]
]

-- The steps of the client, in any order; no request is begun after the loop has ended, and the
-- numbers are not used up.
pub data Step : CacheProgClient → CacheProgClient → Type 0 where
  begins :
      (c : CacheProgClient) (id : ℕ) (next : CacheProgClient)
      → c.next_id + 1 < id_modulus
      → begin_send c ≡ some (id, next)
      → Step c next
  fails :
      (c : CacheProgClient) (id : ℕ) (ch : Channel)
      → lookup id c.channels ≡ some ch
      → Step c (fail_send id c)
  receives :
      (c : CacheProgClient) (res : CacheProgResponse) → c.read_err ≡ none → Step c (receive res c)
  ends : (c : CacheProgClient) (err : Text) → c.read_err ≡ none → Step c (end_reading err c)

pub data Reaches : CacheProgClient → Type 0 where
  starts : Reaches new_client
  steps : (c d : CacheProgClient) → Reaches c → Step c d → Reaches d
