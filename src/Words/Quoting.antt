-- ===== src/Words/Quoting.antt =====
-- cacheprog.go: envWithout, splitQuoted and quoteCacheProgArg.
use gotst.Prelude.{
  ℕ, zero, suc, Bool, true, false, not, ◌||◌, List, [], ◌∷◌, ◌++◌, filter, Option, none, some, Text,
  text_eq, length, contains, eqb, if◌then◌else◌, ◌>>=◌,
}

-- What stands before the first `=`, or all: the name that `strings.Cut` gives.
unfoldable pub env_name : Text → Text
env_name [] = []
env_name (c ∷ s) = let rest = env_name s in if eqb c b'=' then [] else c ∷ rest

unfoldable pub env_without : List Text → List Text → List Text
unfolding env_name
env_without env names = filter (λ kv. not (contains names (env_name kv))) env

abbrev pub is_space : ℕ → Bool
is_space c = eqb c 32 || eqb c 9 || eqb c 13 || eqb c 10

abbrev pub is_quote : ℕ → Bool
is_quote c = eqb c 39 || eqb c 34

unfoldable pub trim_left : Text → Text
trim_left [] = []
trim_left (c ∷ s) = let rest = trim_left s in if is_space c then rest else c ∷ s

-- The texts before and behind the first `quote`.
unfoldable pub cut_quote : ℕ → Text → Option (Text × Text)
cut_quote quote [] = none
cut_quote quote (c ∷ s) =
    let rest = cut_quote quote s in
    if eqb c quote then some ([], s) else elim rest [ none ↦ none | some (a, b) ↦ some (c ∷ a, b) ]

-- The text before the first space, and what follows from the space on; `none` if there is no space.
unfoldable pub cut_word : Text → Option (Text × Text)
cut_word [] = none
cut_word (c ∷ s) =
    let rest = cut_word s in
    if is_space c
    then some ([], c ∷ s)
    else elim rest [ none ↦ none | some (a, b) ↦ some (c ∷ a, b) ]

-- The rounds of `splitQuoted`, each of which takes at least one byte; `none` is the error.
unfoldable pub split_rounds : ℕ → Text → Option (List Text)
unfolding cut_quote cut_word
split_rounds zero s = some []
split_rounds (suc fuel) s = elim (trim_left s) [
  | [] ↦ some []
  | c ∷ r ↦ elim (is_quote c) [
    | true ↦ elim (cut_quote c r) [
      | none ↦ none
      | some (word, rest) ↦ do words ← split_rounds fuel rest; some (word ∷ words)
    ]
    | false ↦ elim (cut_word (c ∷ r)) [
      | none ↦ some ((c ∷ r) ∷ [])
      | some (word, rest) ↦ do words ← split_rounds fuel rest; some (word ∷ words)
    ]
  ]
]

unfoldable pub split_quoted : Text → Option (List Text)
unfolding split_rounds
split_quoted s = split_rounds (length s) s

-- `strings.Contains` of a byte, and `strings.ContainsAny` of spaces and quotes.
unfoldable pub has_byte : ℕ → Text → Bool
has_byte b [] = false
has_byte b (c ∷ s) = eqb c b || has_byte b s

unfoldable pub has_special : Text → Bool
has_special [] = false
has_special (c ∷ s) = is_space c || is_quote c || has_special s

unfoldable pub quote_cache_prog_arg : Text → Text
unfolding has_byte has_special
quote_cache_prog_arg s =
    if not (has_special s)
    then s
    else if not (has_byte 39 s)
    then (39 ∷ s) ++ 39 ∷ []
    else if not (has_byte 34 s)
    then (34 ∷ s) ++ 34 ∷ []
    else s
