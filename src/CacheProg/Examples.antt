-- ===== src/CacheProg/Examples.antt =====
-- cacheprog.go: tests and examples.
use gotst.Prelude.{
  delete, contains, nat_eq, insert, true, ◌≤◌, is_some, arith, ◌≡◌, refl, [], ◌∷◌, none, some, text,
  lookup,
}
use gotst.LocalCache.{CacheProgResponse, empty_response}
use gotst.CacheProg.Client.{
  shut, abandoned, CacheProgClient, new_client, waiting, begin_send, receive, end_reading,
  send_result, waits, begins, receives, ends, Reaches, starts, steps,
}
use gotst.CacheProg.ClientLaws.{Agrees, Reaches-Agrees, send_result-ended}

-- Two requests; the second is answered, then the helper goes.
abbrev begun_one : CacheProgClient
begun_one = record { next_id = 1; pending = 1 ∷ []; read_err = none; channels = (1, waiting) ∷ [] }

abbrev begun_two : CacheProgClient
begun_two = record {
  next_id = 2;
  pending = 2 ∷ 1 ∷ [];
  read_err = none;
  channels = (1, waiting) ∷ (2, waiting) ∷ [];
}

abbrev answer_two : CacheProgResponse
answer_two = record empty_response { id = 2 }

abbrev gone : CacheProgClient
gone = end_reading (text "EOF") (receive answer_two begun_two)

first_begins : begin_send new_client ≡ some (1, begun_one)
unfolding begin_send insert
first_begins = refl

second_begins : begin_send begun_one ≡ some (2, begun_two)
unfolding begin_send insert
second_begins = refl

gone_open : (receive answer_two begun_two).read_err ≡ none
unfolding receive
gone_open = refl

reaches_gone : Reaches gone
reaches_gone =
    steps _ _
      (steps _ _
        (steps _ _ (steps _ _ starts (begins new_client 1 begun_one (omega arith) first_begins))
          (begins begun_one 2 begun_two (omega arith) second_begins))
        (receives begun_two answer_two refl))
      (ends _ (text "EOF") gone_open)

Reaches-Agrees_example : Agrees gone
Reaches-Agrees_example = Reaches-Agrees gone reaches_gone

gone_ended : is_some gone.read_err ≡ true
unfolding end_reading
gone_ended = refl

gone_next : 1 ≤ gone.next_id
unfolding end_reading receive
gone_next = omega arith

gone_shut : lookup 1 gone.channels ≡ some shut
unfolding end_reading lookup receive delete insert contains
gone_shut = refl

gone_given : ¬ (lookup 1 gone.channels ≡ some abandoned)
gone_given h = ground (arith, gone_shut, h)

send_result-ended_example : ¬ (send_result gone 1 ≡ waits)
send_result-ended_example =
    send_result-ended gone 1 reaches_gone gone_ended (omega arith) gone_next gone_given
