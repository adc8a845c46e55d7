-- ===== src/HistoryStore/ClientLaws.antt =====
-- history.go: what the service's histories are taken for.
use gotst.Prelude.{
  map, if-cases, inr, inl, ◌||◌, if◌then◌else◌, ℕ, ◌≡◌, refl, true, not, List, [], ◌∷◌, Option,
  none, some, Text, text_eq, All, take, length-take-le, lookup, insert, contains, eqb, arith,
  IfSome, IfSome-eq, Bool-cases,
}
use gotst.Go.Sort.{sort_by}
use gotst.Go.SortLaws.{Sorted-take, All-take, All-sorted}
use gotst.History.{Key, Observation, TestHistory}
use gotst.HistoryStore.Disk.{observation_before, history_version, history_request_limit}
use gotst.HistoryStore.Client.{LookupResponse, all_of_key, accept_histories, http_lookup}
use gotst.HistoryStore.DiskLaws.{AllPromised, insert-AllPromised, NoNewer, sort-NoNewer, Promised}

module _ (key_id : Key → Text) where
  all_of_key-All :
      (id : Text) (os : List Observation)
      → all_of_key key_id id os ≡ true
      → All (λ (o : Observation). key_id o.key ≡ id) os
  unfolding all_of_key
  all_of_key-All id [] h = tt
  all_of_key-All id (o ∷ os) h = (
    (text_eq.beq_iff (key_id o.key) id).0 (ground (arith, h)),
    all_of_key-All id os (ground (arith, h)),
  )

  accept_histories-Promised :
      (wanted : List Text) (limit : ℕ) (hs : List (Option TestHistory))
      (acc : List (Text × TestHistory))
      → AllPromised key_id limit acc
      → IfSome (AllPromised key_id limit) (accept_histories key_id wanted limit hs acc)
  unfolding accept_histories
  accept_histories-Promised wanted limit [] acc all = all
  accept_histories-Promised wanted limit (none ∷ hs) acc all =
      accept_histories-Promised wanted limit hs acc all
  accept_histories-Promised wanted limit (some h ∷ hs) acc all =
      elim (Bool-cases
        (not (eqb h.version history_version) || not (contains wanted (key_id h.key)))) [
          | inl e ↦ rw (e, accept_histories) (accept_histories-Promised wanted limit hs acc all)
          | inr e ↦ elim (Bool-cases (all_of_key key_id (key_id h.key) h.observations)) [
            | inr f ↦ rw (e, f, accept_histories) tt
            | inl f ↦
                let taken : TestHistory = record h {
                  observations = take limit (sort_by observation_before h.observations);
                } in
                let own : Promised key_id limit (key_id h.key) taken = record {
                  own_key = refl;
                  bounded = length-take-le limit (sort_by observation_before h.observations);
                  newest_first = Sorted-take NoNewer limit _ (sort-NoNewer h.observations);
                  of_key = All-take _ limit _ (
                      All-sorted _ observation_before h.observations
                        (all_of_key-All (key_id h.key) h.observations f));
                } in
                rw (e, f, accept_histories)
                  (accept_histories-Promised wanted limit hs (insert (key_id h.key) taken acc)
                    (insert-AllPromised key_id limit (key_id h.key) taken acc own all))
          ]
        ]

  http_lookup-AllPromised :
      (keys : List Key) (limit : ℕ) (response : Option LookupResponse)
      → IfSome
          (AllPromised key_id (if eqb limit 0 then history_request_limit else limit))
          (http_lookup key_id keys limit response)
  unfolding http_lookup lookup
  http_lookup-AllPromised keys limit none = tt
  http_lookup-AllPromised keys limit (some res) =
      if-cases (IfSome (AllPromised key_id (if eqb limit 0 then history_request_limit else limit)))
        (not (eqb res.version history_version)) none _ (λ e. tt)
        λ e.
          accept_histories-Promised (map key_id keys)
            (if eqb limit 0 then history_request_limit else limit) res.histories []
            (λ id h g. absurd (ground (arith, g)))

  -- Whatever the history service answers, what the lookup returns is as the interface of a store
  -- promises: each history stands under the ID of its key, has at most as many observations as are
  -- asked for, or the default for zero, newest first, and all of its key.
  pub http_lookup-Promised :
      (keys : List Key) (limit : ℕ) (response : Option LookupResponse)
      (r : List (Text × TestHistory)) (id : Text) (h : TestHistory)
      → http_lookup key_id keys limit response ≡ some r
      → lookup id r ≡ some h
      → Promised key_id (if eqb limit 0 then history_request_limit else limit) id h
  http_lookup-Promised keys limit response r id h e =
      IfSome-eq (AllPromised key_id (if eqb limit 0 then history_request_limit else limit))
        (http_lookup key_id keys limit response) r e (http_lookup-AllPromised keys limit response)
        id h
