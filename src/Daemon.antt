-- ===== src/Daemon.antt =====
-- cmd/testhistoryd: the checks of requests and observations, and parseUUID. The database is a parameter.
pub mod Laws
pub mod Examples
use gotst.Prelude.{
  zero, suc, ℕ, ◌≤◌, Bool, true, false, not, ◌&&◌, ◌||◌, List, [], ◌∷◌, ◌++◌, Option, none, some,
  Text, text, text_eq, ◌==◌, lookup, is_empty, length, ltb, leb, eqb, get_elem?, filter,
  if◌then◌else◌,
}
use gotst.Go.Hex.{decode_string}
use gotst.History.{Key, Observation, TestHistory, Dependency}

-- An observation as it comes in a request: numbers may be negative, an outcome may be any text, and the
-- zero time is `none`.
pub data Signed : Type 0 where
  nonnegative negative : ℕ → Signed

pub record SentObservation : Type 0 where
  pub id : Text
  pub key : Key
  pub observed_at : Option ℕ
  pub outcome : Text
  pub duration : Signed
  pub attempts : Signed
  pub peak_rss_bytes : Signed

abbrev is_negative : Signed → Bool
is_negative (nonnegative n) = false
is_negative (negative n) = true

abbrev below_one : Signed → Bool
below_one (nonnegative n) = eqb n 0
below_one (negative n) = true

abbrev is_zero_time : Option ℕ → Bool
is_zero_time none = true
is_zero_time (some t) = false

-- `validateObservation`: whether there is no error.
unfoldable pub validate_observation : SentObservation → Bool
validate_observation obs =
    if is_empty obs.id || ltb 256 (length obs.id)
    then false
    else if is_empty obs.key.package_path
        || is_empty obs.key.test
        || is_empty obs.key.goos
        || is_empty obs.key.goarch
    then false
    else if is_zero_time obs.observed_at
    then false
    else if is_negative obs.duration || below_one obs.attempts || is_negative obs.peak_rss_bytes
    then false
    else obs.outcome == text "pass" || obs.outcome == text "fail" || obs.outcome == text "flaky"

unfoldable pub dash_at : Text → ℕ → Bool
dash_at v i = elim (get_elem? v i) [ none ↦ false | some c ↦ eqb c b'-' ]

-- The checks of the length and of four dashes
unfoldable pub refused : Text → Bool
unfolding dash_at
refused v =
    not (eqb (length v) 36)
    || not (dash_at v 8)
    || not (dash_at v 13)
    || not (dash_at v 18)
    || not (dash_at v 23)

abbrev pub without_dashes : Text → Text
without_dashes = filter (λ c. not (eqb c b'-'))

-- `copy`, which leaves what is not copied to.
unfoldable pub copy_into : Text → Text → Text
copy_into [] bytes = []
copy_into (r ∷ rest) [] = r ∷ rest
copy_into (r ∷ rest) (b ∷ bytes) = b ∷ copy_into rest bytes

abbrev pub zeros : ℕ → Text
zeros zero = []
zeros (suc n) = 0 ∷ zeros n

-- `parseUUID`, whose result is an array of 16 bytes.
unfoldable pub parse_uuid : Text → Option Text
unfolding copy_into
parse_uuid v = if refused v then none else elim (decode_string (without_dashes v)) [
  | none ↦ none
  | some bytes ↦ some (copy_into (zeros 16) bytes)
]

-- The replies of the server.
pub data Reply {ℓ} (A : Type ℓ) : Type ℓ where
  bad_request internal_error : Reply A
  replies : A → Reply A

abbrev pub max_request_items : ℕ
max_request_items = 10_000

abbrev pub protocol_version : ℕ
protocol_version = 1

-- The histories of the requested keys, in their order.
unfoldable pub reply_histories :
    (Key → Text) → List (Text × TestHistory) → List Key → List TestHistory
reply_histories key_id histories [] = []
reply_histories key_id histories (key ∷ keys) =
    let rest = reply_histories key_id histories keys in
    elim (lookup (key_id key) histories) [ none ↦ rest | some h ↦ h ∷ rest ]

abbrev limit_refused : Signed → Bool
limit_refused (nonnegative n) = ltb 256 n
limit_refused (negative n) = true

-- `serveLookup` behind the decoding; `store` is the store's lookup.
unfoldable pub serve_lookup :
    (Key → Text)
    → (List Key → Signed → Option (List (Text × TestHistory)))
    → ℕ
    → List Key
    → Signed
    → Reply (List TestHistory)
unfolding reply_histories
serve_lookup key_id store version keys limit =
    if not (eqb version protocol_version)
      || ltb max_request_items (length keys)
      || limit_refused limit
    then bad_request
    else elim (store keys limit) [
      | none ↦ internal_error
      | some histories ↦ replies (reply_histories key_id histories keys)
    ]

unfoldable pub all_valid : List SentObservation → Bool
unfolding validate_observation
all_valid [] = true
all_valid (o ∷ os) = validate_observation o && all_valid os

-- `serveRecord` behind the decoding: with the observations that the store gets. `stored` says whether
-- the store's Record has no error.
unfoldable pub serve_record :
    Bool → ℕ → List SentObservation → Option (List SentObservation) × Reply (Unit {0})
unfolding all_valid
serve_record stored version observations =
    if not (eqb version protocol_version)
      || ltb max_request_items (length observations)
      || not (all_valid observations)
    then (none, bad_request)
    else (some observations, if stored then replies tt else internal_error)
