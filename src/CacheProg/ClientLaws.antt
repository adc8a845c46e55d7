-- ===== src/CacheProg/ClientLaws.antt =====
-- cacheprog.go: the client's requests in every order of its steps.
use gotst.Prelude.{
  Option-cases, inr, inl, if◌then◌else◌, Bool-cases, ◌%◌, ◌↔◌, ◌+◌, ℕ, ◌≡◌, ◌≤◌, ◌<◌, refl, true,
  false, List, [], ◌∷◌, none, some, Text, nat_eq, contains, contains-delete, lookup, insert,
  lookup-insert, is_some, arith,
}
use gotst.CacheProg.Client.{
  CacheProgClient, Channel, waiting, shut, abandoned, holding, id_modulus, new_client, begin_send,
  fail_send, receive, shut_all, end_reading, send_result, waits, Step, begins, fails, receives,
  ends, Reaches, starts, steps,
}
use gotst.LocalCache.{CacheProgResponse}

-- A number's channel waits just while the number is pending, a response is held for its own number,
-- the numbers from 1 to the last one have channels, and nothing is pending once reading has ended.
pub record Agrees (c : CacheProgClient) : Type 0 where
  pub waits_pending : (k : ℕ) → contains c.pending k ≡ true ↔ lookup k c.channels ≡ some waiting
  pub own_response :
      (k : ℕ) (res : CacheProgResponse) → lookup k c.channels ≡ some (holding res) → res.id ≡ k
  pub numbered : (k : ℕ) (ch : Channel) → lookup k c.channels ≡ some ch → (1 ≤ k) × (k ≤ c.next_id)
  pub known : (k : ℕ) → 1 ≤ k → k ≤ c.next_id → is_some (lookup k c.channels) ≡ true
  pub ended : (k : ℕ) → is_some c.read_err ≡ true → contains c.pending k ≡ false

new_client-Agrees : Agrees new_client
unfolding contains lookup
new_client-Agrees = record {
  waits_pending = λ k. ground arith;
  own_response = λ k res h. ground arith;
  numbered = λ k ch h. ground arith;
  known = λ k h g. ground arith;
  ended = λ k h. refl;
}

begin_send-Agrees :
    (c : CacheProgClient) (id : ℕ) (next : CacheProgClient)
    → c.next_id + 1 < id_modulus
    → begin_send c ≡ some (id, next)
    → Agrees c
    → Agrees next
unfolding begin_send contains
begin_send-Agrees c id next room h i =
    let plain : (c.next_id + 1) % id_modulus ≡ c.next_id + 1 = omega arith in
    let same : next ≡ record c {
      next_id = c.next_id + 1;
      pending = (c.next_id + 1) ∷ c.pending;
      channels = insert (c.next_id + 1) waiting c.channels;
    } =
      ground (arith, h) in
    let open_ : is_some c.read_err ≡ false = ground (arith, h) in
    rw same (record {
      waits_pending = λ k.
          ground (arith, lookup-insert (c.next_id + 1) k waiting c.channels, i.waits_pending k);
      own_response = λ k res h.
          ground (arith, lookup-insert (c.next_id + 1) k waiting c.channels, i.own_response k res);
      numbered = λ k ch h.
          ground (arith, lookup-insert (c.next_id + 1) k waiting c.channels, i.numbered k ch);
      known =
          λ k h g. ground (arith, lookup-insert (c.next_id + 1) k waiting c.channels, i.known k);
      ended = λ k h. ground (arith, open_, h);
    })

fail_send-Agrees :
    (c : CacheProgClient) (id : ℕ) (ch : Channel)
    → lookup id c.channels ≡ some ch
    → Agrees c
    → Agrees (fail_send id c)
unfolding fail_send
fail_send-Agrees c id ch h i = record {
  waits_pending = λ k. ground (
    arith,
    lookup-insert id k abandoned c.channels,
    contains-delete id k c.pending,
    i.waits_pending k,
  );
  own_response =
      λ k res h. ground (arith, lookup-insert id k abandoned c.channels, i.own_response k res);
  numbered = λ k ch' h'.
      ground (arith, lookup-insert id k abandoned c.channels, i.numbered k ch', i.numbered id ch h);
  known = λ k h g. ground (arith, lookup-insert id k abandoned c.channels, i.known k);
  ended = λ k h. ground (arith, contains-delete id k c.pending, i.ended k);
}

receive-Agrees :
    (c : CacheProgClient) (res : CacheProgResponse)
    → c.read_err ≡ none
    → Agrees c
    → Agrees (receive res c)
unfolding receive
receive-Agrees c res open_ i = elim (Bool-cases (contains c.pending res.id)) [
  | inl e ↦
      let was : lookup res.id c.channels ≡ some waiting = (i.waits_pending res.id).0 e in
      rw (e) (record {
        waits_pending = λ k. ground (
          arith,
          lookup-insert res.id k (holding res) c.channels,
          contains-delete res.id k c.pending,
          i.waits_pending k,
        );
        own_response = λ k r h.
            ground (arith, lookup-insert res.id k (holding res) c.channels, i.own_response k r);
        numbered = λ k ch h. ground (
          arith,
          lookup-insert res.id k (holding res) c.channels,
          i.numbered k ch,
          i.numbered res.id waiting was,
        );
        known = λ k h g. ground (arith, lookup-insert res.id k (holding res) c.channels, i.known k);
        ended = λ k h. ground (arith, contains-delete res.id k c.pending, i.ended k);
      })
  | inr e ↦ rw (e) (record {
    waits_pending = λ k. ground (arith, e, contains-delete res.id k c.pending, i.waits_pending k);
    own_response = i.own_response;
    numbered = i.numbered;
    known = i.known;
    ended = λ k h. ground (arith, contains-delete res.id k c.pending, i.ended k);
  })
]

lookup-shut_all :
    (ids : List ℕ) (k : ℕ) (channels : List (ℕ × Channel))
    → lookup k (shut_all ids channels) ≡ (if contains ids k then some shut else lookup k channels)
unfolding shut_all contains
lookup-shut_all [] k channels = refl
lookup-shut_all (id ∷ ids) k channels =
    ground (arith, lookup-insert id k shut (shut_all ids channels), lookup-shut_all ids k channels)

end_reading-Agrees : (c : CacheProgClient) (err : Text) → Agrees c → Agrees (end_reading err c)
unfolding end_reading contains
end_reading-Agrees c err i = record {
  waits_pending = λ k. ground (arith, lookup-shut_all c.pending k c.channels, i.waits_pending k);
  own_response =
      λ k r h. ground (arith, lookup-shut_all c.pending k c.channels, i.own_response k r);
  numbered = λ k ch h. ground (
    arith,
    lookup-shut_all c.pending k c.channels,
    i.numbered k ch,
    i.numbered k waiting,
    i.waits_pending k,
  );
  known = λ k h g. ground (arith, lookup-shut_all c.pending k c.channels, i.known k);
  ended = λ k h. refl;
}

Step-Agrees : (c d : CacheProgClient) → Step c d → Agrees c → Agrees d
Step-Agrees c d (begins _ id next room h) i = begin_send-Agrees c id next room h i
Step-Agrees c d (fails _ id ch h) i = fail_send-Agrees c id ch h i
Step-Agrees c d (receives _ res h) i = receive-Agrees c res h i
Step-Agrees c d (ends _ err h) i = end_reading-Agrees c err i

-- After any order of the client's steps, the numbers that are pending are just those whose
-- channels wait, a response is held in the channel of its own number, just the numbers handed out
-- have channels, and nothing is pending once reading has ended.
pub Reaches-Agrees : (c : CacheProgClient) → Reaches c → Agrees c
Reaches-Agrees c starts = new_client-Agrees
Reaches-Agrees c (steps b _ before step) = Step-Agrees b c step (Reaches-Agrees b before)

-- What a receiver finds in its channel.
waits-none :
    (c : CacheProgClient) (id : ℕ) (ch : Channel)
    → lookup id c.channels ≡ some ch
    → (lookup id c.channels ≡ some abandoned → ⊥)
    → (ch ≡ waiting → ⊥)
    → send_result c id ≡ waits
    → ⊥
unfolding send_result
waits-none c id waiting e given open_ h = open_ refl
waits-none c id abandoned e given open_ h = given e
waits-none c id shut e given open_ h = elim (Option-cases c.read_err) [
  | inl f ↦ ground (arith, e, f, h)
  | inr (err, f) ↦ ground (arith, e, f, h)
]
waits-none c id (holding res) e given open_ h = ground (arith, e, h)

-- Once reading from the helper has ended, no request that was begun and written waits for ever.
pub send_result-ended :
    (c : CacheProgClient) (id : ℕ)
    → Reaches c
    → is_some c.read_err ≡ true
    → 1 ≤ id
    → id ≤ c.next_id
    → (lookup id c.channels ≡ some abandoned → ⊥)
    → ¬ (send_result c id ≡ waits)
send_result-ended c id reached over low high given h =
    let i = Reaches-Agrees c reached in
    elim (Option-cases (lookup id c.channels)) [
      | inl e ↦ ground (arith, e, i.known id low high)
      | inr (ch, e) ↦
          waits-none c id ch e given
            (λ w. ground (arith, i.waits_pending id, i.ended id over, e, w)) h
    ]
