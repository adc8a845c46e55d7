-- ===== src/HistoryStore/DiskLaws.antt =====
-- history.go: what the stores return, and what pruning leaves.
use gotst.Prelude.{
  is_empty, if-cases, ◌⊎◌, subst, some-injective, IfSome-eq, Option-cases, inl, inr, Bool-cases,
  IfSome, ℕ, ◌≤◌, ◌≡◌, refl, Bool, true, false, List, [], ◌∷◌, map, Option, some, Text, text_eq,
  ◌==◌, All, take, length, length-take-le, lookup, lookup-insert, insert, contains, eqb, arith,
  if◌then◌else◌,
}
use gotst.Go.Sort.{sort_by}
use gotst.Go.SortLaws.{Sorted, sort_by-Sorted, Sorted-take, All-take, All-sorted}
use gotst.History.{Key, Observation, TestHistory}
use gotst.Schedule.{newer}
use gotst.Files.{Os}
use gotst.HistoryStore.Disk.{
  decode_files, Listing-kinds, key_dir, Listing, HistoryRead, found, not_found, read_error, gather,
  read_history, lookup_keys, disk_lookup, observation_before, history_request_limit,
}

abbrev pub NoNewer : Observation → Observation → Type 0
NoNewer a b = b.observed_at ≤ a.observed_at

before-NoNewer : (a b : Observation) → observation_before a b ≡ true → NoNewer a b
unfolding observation_before newer
before-NoNewer a b h = ground arith

behind-NoNewer : (a b : Observation) → observation_before a b ≡ false → NoNewer b a
unfolding observation_before newer
behind-NoNewer a b h = ground arith

pub sort-NoNewer : (os : List Observation) → Sorted NoNewer (sort_by observation_before os)
sort-NoNewer os =
    sort_by-Sorted NoNewer observation_before before-NoNewer behind-NoNewer
      (λ a b c h g. omega (arith, h, g)) os

-- What the interface of a store promises of the histories that a lookup returns.
pub record Promised (key_id : Key → Text) (limit : ℕ) (id : Text) (h : TestHistory) : Type 0 where
  pub own_key : key_id h.key ≡ id
  pub bounded : length h.observations ≤ limit
  pub newest_first : Sorted NoNewer h.observations
  pub of_key : All (λ (o : Observation). key_id o.key ≡ id) h.observations

gather-of_key :
    (key_id : Key → Text) (key : Key) (seen : List Text) (os : List Observation)
    → IfSome (All (λ (o : Observation). key_id o.key ≡ key_id key)) (gather key_id key seen os)
unfolding gather
gather-of_key key_id key seen [] = tt
gather-of_key key_id key seen (o ∷ os) = elim (Bool-cases (key_id o.key == key_id key)) [
  | inr e ↦ rw (e, gather) tt
  | inl e ↦
      let same : key_id o.key ≡ key_id key = (text_eq.beq_iff _ _).0 e in
      elim (Bool-cases (contains seen o.id)) [
        | inl f ↦ rw (e, f, gather) (gather-of_key key_id key seen os)
        | inr f ↦
            let rest = gather-of_key key_id key (o.id ∷ seen) os in
            elim (Option-cases (gather key_id key (o.id ∷ seen) os)) [
              | inl g ↦ rw (e, f, g, gather) tt
              | inr (r, g) ↦ rw (e, f, g, gather) (same, IfSome-eq _ _ r g rest)
            ]
      ]
]

module _ (key_id : Key → Text) where
  -- Every history of a result is as the interface promises.
  abbrev pub AllPromised : ℕ → List (Text × TestHistory) → Type 0
  AllPromised limit r =
      (id : Text) (h : TestHistory) → lookup id r ≡ some h → Promised key_id limit id h

  pub insert-AllPromised :
      (limit : ℕ) (id : Text) (h : TestHistory) (r : List (Text × TestHistory))
      → Promised key_id limit id h
      → AllPromised limit r
      → AllPromised limit (insert id h r)
  insert-AllPromised limit id h r p all other g e = elim (Bool-cases (id == other)) [
    | inl same ↦
        let eq : id ≡ other = (text_eq.beq_iff id other).0 same in
        let taken : h ≡ g =
          some-injective h g (ground (arith, lookup-insert id other h r, same, e)) in
        subst (λ x. Promised key_id limit x g) eq (subst (Promised key_id limit id) taken p)
    | inr differ ↦ all other g (ground (arith, lookup-insert id other h r, differ, e))
  ]

module _ {D : Type 0} (os : Os D) (read_dir : D → Text → Listing) (key_id : Key → Text)
    (sha256 : Text → Text) (marshal : Observation → Option Text)
    (unmarshal : Text → Option Observation) (dir : Text) where
  -- What `read` finds of a key, before the limit.
  abbrev Found : Key → HistoryRead → Type 0
  Found key not_found = Unit
  Found key read_error = Unit
  Found key (found h) =
      (key_id h.key ≡ key_id key)
      × Sorted NoNewer h.observations
      × All (λ (o : Observation). key_id o.key ≡ key_id key) h.observations

  read_history-Found :
      (d : D) (key : Key)
      → Found key (read_history os read_dir key_id sha256 marshal unmarshal dir d key)
  unfolding read_history
  read_history-Found d key =
      let at = key_dir os read_dir key_id sha256 marshal unmarshal dir (key_id key) in
      elim (Listing-kinds (read_dir d at)) [
        | inl (inl e) ↦ rw (e, read_history) tt
        | inl (inr e) ↦ rw (e, read_history) tt
        | inr (es, e) ↦
            elim (Option-cases
              (decode_files os read_dir key_id sha256 marshal unmarshal dir d at es)) [
                | inl f ↦ rw (e, f, read_history) tt
                | inr (files, f) ↦
                    elim (Option-cases (gather key_id key [] (map (λ x. x.obs) files))) [
                      | inl g ↦ rw (e, f, g, read_history) tt
                      | inr (obs, g) ↦
                          let own =
                            IfSome-eq _ _ obs g
                              (gather-of_key key_id key [] (map (λ x. x.obs) files)) in
                          rw (e, f, g, read_history)
                            (if-cases (Found key) (is_empty obs) not_found _ (λ h. tt)
                              λ h.
                                (refl, sort-NoNewer obs, All-sorted _ observation_before obs own))
                    ]
              ]
      ]

  Found-Promised :
      (limit : ℕ) (key : Key) (h : TestHistory)
      → Found key (found h)
      → Promised key_id limit (key_id key) (record h { observations = take limit h.observations })
  Found-Promised limit key h f = record {
    own_key = f.0;
    bounded = length-take-le limit h.observations;
    newest_first = Sorted-take NoNewer limit h.observations f.1;
    of_key = All-take _ limit h.observations f.2;
  }

  HistoryRead-kinds :
      (r : HistoryRead) → ((r ≡ not_found) ⊎ (r ≡ read_error)) ⊎ ((h : TestHistory) × (r ≡ found h))
  HistoryRead-kinds not_found = inl (inl refl)
  HistoryRead-kinds read_error = inl (inr refl)
  HistoryRead-kinds (found h) = inr (h, refl)

  lookup_keys-Promised :
      (cancelled : Key → Bool) (limit : ℕ) (d : D) (keys : List Key)
      → IfSome
          (AllPromised key_id limit)
          (lookup_keys os read_dir key_id sha256 marshal unmarshal dir cancelled limit d keys)
  unfolding lookup_keys lookup
  lookup_keys-Promised cancelled limit d [] = λ id h e. absurd (ground (arith, e))
  lookup_keys-Promised cancelled limit d (key ∷ keys) =
      let rest = lookup_keys-Promised cancelled limit d keys in
      elim (Bool-cases (cancelled key)) [
        | inl c ↦ rw (c, lookup_keys) tt
        | inr c ↦
            elim (HistoryRead-kinds
              (read_history os read_dir key_id sha256 marshal unmarshal dir d key)) [
                | inl (inl e) ↦ rw (c, e, lookup_keys) rest
                | inl (inr e) ↦ rw (c, e, lookup_keys) tt
                | inr (h, e) ↦
                    let f : Found key (found h) = subst (Found key) e (read_history-Found d key) in
                    elim (Option-cases (
                      lookup_keys os read_dir key_id sha256 marshal unmarshal dir cancelled limit d
                        keys)) [
                          | inl g ↦ rw (c, e, g, lookup_keys) tt
                          | inr (r, g) ↦
                              rw (c, e, g, lookup_keys)
                                (insert-AllPromised key_id limit (key_id key)
                                  (record h { observations = take limit h.observations }) r
                                  (Found-Promised limit key h f)
                                  (IfSome-eq (AllPromised key_id limit) _ r g rest))
                        ]
              ]
      ]

  -- What the lookup of the store on disk returns is as the interface of a store promises: each
  -- history stands under the ID of its key, has at most as many observations as are asked for, or
  -- the default for zero, newest first, and all of its key.
  pub disk_lookup-Promised :
      (cancelled : Key → Bool) (limit : ℕ) (d : D) (keys : List Key) (r : List (Text × TestHistory))
      (id : Text) (h : TestHistory)
      → disk_lookup os read_dir key_id sha256 marshal unmarshal dir cancelled limit d keys ≡ some r
      → lookup id r ≡ some h
      → Promised key_id (if eqb limit 0 then history_request_limit else limit) id h
  unfolding disk_lookup
  disk_lookup-Promised cancelled limit d keys r id h e =
      IfSome-eq (AllPromised key_id (if eqb limit 0 then history_request_limit else limit)) _ r e
        (lookup_keys-Promised cancelled (if eqb limit 0 then history_request_limit else limit) d
          keys)
        id h
