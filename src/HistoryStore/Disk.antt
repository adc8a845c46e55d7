-- ===== src/HistoryStore/Disk.antt =====
-- history.go: diskHistoryStore. Key.ID, the JSON of an observation, the listing of a directory and the
-- operations on the disk are parameters.
use gotst.Prelude.{
  refl, inr, inl, ◌⊎◌, ◌≡◌, ℕ, Bool, true, false, not, ◌||◌, List, [], ◌∷◌, ◌++◌, map, Option, none,
  some, Text, text, text_eq, ◌==◌, contains, insert, is_empty, is_some, take, drop, eqb,
  if◌then◌else◌,
}
use gotst.Go.Paths.{extension}
use gotst.Go.Hex.{encode_to_string}
use gotst.Go.Sort.{sort_by}
use gotst.History.{Key, Observation, TestHistory}
use gotst.Schedule.{newer}
use gotst.Files.{missing, unreadable, contents, Os, Disk, checked, continue, ◌>>=◌, ◌>>◌}

abbrev pub history_version : ℕ
history_version = 1

abbrev pub local_history_limit : ℕ
local_history_limit = 32

abbrev pub history_request_limit : ℕ
history_request_limit = 32

-- A directory's entries, as `os.ReadDir` returns them.
pub record DirEntry : Type 0 where
  pub name : Text
  pub is_dir : Bool

pub data Listing : Type 0 where
  no_directory listing_error : Listing
  entries : List DirEntry → Listing

pub Listing-kinds :
    (l : Listing)
    → ((l ≡ no_directory) ⊎ (l ≡ listing_error)) ⊎ ((es : List DirEntry) × (l ≡ entries es))
Listing-kinds no_directory = inl (inl refl)
Listing-kinds listing_error = inl (inr refl)
Listing-kinds (entries es) = inr (es, refl)

-- `fileObservation`
pub record FileObservation : Type 0 where
  pub path : Text
  pub obs : Observation

-- The order of `compareHistoryObservations`: whether `a` is not behind `b`.
unfoldable pub file_before : FileObservation → FileObservation → Bool
file_before a b = not (newer b.obs a.obs)

unfoldable pub observation_before : Observation → Observation → Bool
observation_before a b = not (newer b a)

-- What a lookup finds of a key.
pub data HistoryRead : Type 0 where
  not_found read_error : HistoryRead
  found : TestHistory → HistoryRead

-- The loop of `read` behind the decoding: an observation of another key is an error, and one ID counts once.
unfoldable pub gather :
    (Key → Text) → Key → List Text → List Observation → Option (List Observation)
gather key_id key seen [] = some []
gather key_id key seen (o ∷ os) = elim (key_id o.key == key_id key) [
  | false ↦ none
  | true ↦ elim (contains seen o.id) [
    | true ↦ gather key_id key seen os
    | false ↦ elim (gather key_id key (o.id ∷ seen) os) [
      | none ↦ none
      | some rest ↦ some (o ∷ rest)
    ]
  ]
]

module _ {D : Type 0} (os : Os D) (read_dir : D → Text → Listing) (key_id : Key → Text)
    (sha256 : Text → Text) (marshal : Observation → Option Text)
    (unmarshal : Text → Option Observation) (dir : Text) where
  -- `keyDir` and `observationPath`
  unfoldable pub key_dir : Text → Text
  key_dir id = dir ++ (b'/' ∷ take 2 id) ++ (b'/' ∷ id)

  unfoldable pub observation_path : Observation → Text
  unfolding key_dir
  observation_path obs =
      key_dir (key_id obs.key) ++ (b'/' ∷ encode_to_string (sha256 obs.id)) ++ text ".json"

  -- The loops of `read` and `prune` that decode a directory's files; a file that has gone is skipped.
  unfoldable pub decode_files : D → Text → List DirEntry → Option (List FileObservation)
  decode_files d at [] = some []
  decode_files d at (e ∷ es) =
      let path = at ++ (b'/' ∷ e.name) in
      elim (e.is_dir || not (extension e.name == text ".json")) [
        | true ↦ decode_files d at es
        | false ↦ elim (os.read_file d path) [
          | missing ↦ decode_files d at es
          | unreadable ↦ none
          | contents s ↦ elim (unmarshal s) [
            | none ↦ none
            | some o ↦ elim (decode_files d at es) [
              | none ↦ none
              | some rest ↦ some (record { path = path; obs = o } ∷ rest)
            ]
          ]
        ]
      ]

  -- `read`
  unfoldable pub read_history : D → Key → HistoryRead
  read_history d key = elim (read_dir d (key_dir (key_id key))) [
    | no_directory ↦ not_found
    | listing_error ↦ read_error
    | entries es ↦ elim (decode_files d (key_dir (key_id key)) es) [
      | none ↦ read_error
      | some files ↦ elim (gather key_id key [] (map (λ f. f.obs) files)) [
        | none ↦ read_error
        | some obs ↦
            if is_empty obs
            then not_found
            else found (record {
              version = history_version;
              key = key;
              observations = sort_by observation_before obs;
            })
      ]
    ]
  ]

  -- `Lookup` with a limit that is set, until the context is cancelled; `none` is an error.
  unfoldable pub lookup_keys : (Key → Bool) → ℕ → D → List Key → Option (List (Text × TestHistory))
  lookup_keys cancelled limit d [] = some []
  lookup_keys cancelled limit d (key ∷ keys) = elim (cancelled key) [
    | true ↦ none
    | false ↦ elim (read_history d key) [
      | not_found ↦ lookup_keys cancelled limit d keys
      | read_error ↦ none
      | found h ↦ elim (lookup_keys cancelled limit d keys) [
        | none ↦ none
        | some rest ↦
            some (insert (key_id key) (record h { observations = take limit h.observations }) rest)
      ]
    ]
  ]

  unfoldable pub disk_lookup : (Key → Bool) → ℕ → D → List Key → Option (List (Text × TestHistory))
  disk_lookup cancelled limit d keys =
      lookup_keys cancelled (if eqb limit 0 then history_request_limit else limit) d keys

  -- The temporary file of `writeObservation`, which is removed in the end.
  unfoldable pub install_observation : Text → Text → Text → Disk D (Unit {0})
  install_observation tmp dst bytes = do
    checked (λ d. os.chmod d tmp 0o600)
    checked (λ d. os.write d tmp bytes)
    checked (λ d. os.close d tmp)
    λ d.
        let r = os.rename d tmp dst in
        (r.0, if r.1 || is_some (os.stat r.0 dst) then some tt else none)

  -- `writeObservation`
  unfoldable pub write_observation : Observation → Disk D (Unit {0})
  unfolding install_observation observation_path
  write_observation obs = do
    checked (λ d. os.mkdir_all d (key_dir (key_id obs.key)))
    bytes ← λ d. (d, marshal obs)
    tmp ← λ d. os.create_temp d (key_dir (key_id obs.key)) (text ".history-")
    λ d.
        let r = install_observation tmp (observation_path obs) (bytes ++ 10 ∷ []) d in
        ((os.remove r.0 tmp).0, r.1)

  -- The loop of `prune`; a file that has gone is no error.
  unfoldable pub remove_files : List FileObservation → Disk D (Unit {0})
  remove_files [] d = (d, some tt)
  remove_files (f ∷ fs) d =
      let r = os.remove d f.path in
      elim (r.1 || not (is_some (os.stat r.0 f.path))) [
        | true ↦ remove_files fs r.0
        | false ↦ (r.0, none)
      ]

  -- The files that `prune` removes.
  unfoldable pub pruned : ℕ → List FileObservation → List FileObservation
  unfolding sort_by
  pruned limit files = drop limit (sort_by file_before files)

  -- `prune`
  unfoldable pub prune : Text → ℕ → Disk D (Unit {0})
  prune id limit d = elim (read_dir d (key_dir id)) [
    | no_directory ↦ (d, some tt)
    | listing_error ↦ (d, none)
    | entries es ↦ elim (decode_files d (key_dir id) es) [
      | none ↦ (d, none)
      | some files ↦ remove_files (pruned limit files) d
    ]
  ]

  -- The first loop of `Record`, with the directories to prune, each once.
  unfoldable pub write_all_observations :
      (Observation → Bool) → List Text → List Text → List Observation → Disk D (List Text)
  unfolding write_observation
  write_all_observations cancelled seen ids [] d = (d, some ids)
  write_all_observations cancelled seen ids (o ∷ os') d =
      let entry = key_id o.key ++ (0 ∷ o.id) in
      elim (cancelled o) [
        | true ↦ (d, none)
        | false ↦ elim (contains seen entry) [
          | true ↦ write_all_observations cancelled seen ids os' d
          | false ↦ continue (write_observation o d) λ u e.
              write_all_observations cancelled (entry ∷ seen)
                (if contains ids (key_id o.key) then ids else key_id o.key ∷ ids) os' e
        ]
      ]

  unfoldable pub prune_all : (Text → Bool) → List Text → Disk D (Unit {0})
  unfolding prune
  prune_all cancelled [] d = (d, some tt)
  prune_all cancelled (id ∷ ids) d = elim (cancelled id) [
    | true ↦ (d, none)
    | false ↦ continue (prune id local_history_limit d) λ u e. prune_all cancelled ids e
  ]

  -- `Record`; the code prunes the directories in any order.
  unfoldable pub disk_record :
      (Observation → Bool) → (Text → Bool) → List Observation → Disk D (Unit {0})
  unfolding write_all_observations prune_all
  disk_record cancelled cancelled_later observations = do
    ids ← write_all_observations cancelled [] [] observations
    prune_all cancelled_later ids
