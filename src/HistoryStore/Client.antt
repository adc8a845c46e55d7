-- ===== src/HistoryStore/Client.antt =====
-- history.go: the lookup of httpHistoryStore behind the request, loadHistory and flushHistory. Key.ID
-- and what the service or the store returns are parameters.
use gotst.Prelude.{
  ℕ, Bool, true, false, not, ◌&&◌, ◌||◌, List, [], ◌∷◌, map, Option, none, some, Text, text_eq,
  ◌==◌, contains, insert, is_empty, take, eqb, if◌then◌else◌,
}
use gotst.Go.Sort.{sort_by}
use gotst.History.{Key, Observation, TestHistory}
use gotst.Server.{Server, TestTask, history_key_for_task}
use gotst.HistoryStore.Disk.{history_version, history_request_limit, observation_before}

-- `LookupResponse`; a nil history is `none`.
pub record LookupResponse : Type 0 where
  pub version : ℕ
  pub histories : List (Option TestHistory)

-- The histories of a run: those loaded, and whether the one lookup was attempted.
pub record LoadedHistories : Type 0 where
  pub histories : List (Text × TestHistory)
  pub history_loaded : Bool

module _ (key_id : Key → Text) where
  unfoldable pub all_of_key : Text → List Observation → Bool
  all_of_key id [] = true
  all_of_key id (o ∷ os) = key_id o.key == id && all_of_key id os

  -- The loop over the histories of a response; `none` is an error.
  unfoldable pub accept_histories :
      List Text
      → ℕ
      → List (Option TestHistory)
      → List (Text × TestHistory)
      → Option (List (Text × TestHistory))
  unfolding all_of_key sort_by
  accept_histories wanted limit [] acc = some acc
  accept_histories wanted limit (none ∷ hs) acc = accept_histories wanted limit hs acc
  accept_histories wanted limit (some h ∷ hs) acc =
      elim (not (eqb h.version history_version) || not (contains wanted (key_id h.key))) [
        | true ↦ accept_histories wanted limit hs acc
        | false ↦ elim (all_of_key (key_id h.key) h.observations) [
          | false ↦ none
          | true ↦ accept_histories wanted limit hs (
              insert (key_id h.key)
                (record h { observations = take limit (sort_by observation_before h.observations) })
                acc)
        ]
      ]

  -- `httpHistoryStore.Lookup`; `response` is what the request returns.
  unfoldable pub http_lookup :
      List Key → ℕ → Option LookupResponse → Option (List (Text × TestHistory))
  unfolding accept_histories
  http_lookup keys recent_per_key response = elim response [
    | none ↦ none
    | some res ↦
        if not (eqb res.version history_version)
        then none
        else accept_histories (map key_id keys)
            (if eqb recent_per_key 0 then history_request_limit else recent_per_key) res.histories
            []
  ]

  -- The keys that `loadHistory` asks for, each once.
  unfoldable pub history_keys : List Text → List Key → List Key
  history_keys seen [] = []
  history_keys seen (key ∷ keys) = elim (contains seen (key_id key)) [
    | true ↦ history_keys seen keys
    | false ↦ key ∷ history_keys (key_id key ∷ seen) keys
  ]

  abbrev pub add_histories :
      List (Text × TestHistory) → List (Text × TestHistory) → List (Text × TestHistory)
  add_histories [] known = known
  add_histories ((id, h) ∷ rest) known = add_histories rest (insert id h known)

  -- `loadHistory`; `store` is the store's lookup, if there is a store.
  unfoldable pub load_history :
      Server
      → Option (List Key → Option (List (Text × TestHistory)))
      → List TestTask
      → LoadedHistories
      → LoadedHistories
  unfolding history_keys
  load_history s store tasks l = elim store [
    | none ↦ l
    | some look ↦
        if is_empty tasks || l.history_loaded
        then l
        else elim (look
            (history_keys [] (map (λ t. history_key_for_task s.flags t s.profile) tasks))) [
              | none ↦ record l { history_loaded = true }
              | some found ↦ record {
                histories = add_histories found l.histories;
                history_loaded = true;
              }
            ]
  ]

-- `flushHistory`: what is given to the store's Record, if anything.
unfoldable pub flush_history : Bool → Server → Option (List Observation) × Server
flush_history has_store s = if not has_store then (none, s) else (
  if is_empty s.history_pending then none else some s.history_pending,
  record s { history_pending = [] },
)
