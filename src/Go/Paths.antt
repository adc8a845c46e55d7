-- ===== src/Go/Paths.antt =====
-- Go's package path/filepath on a system whose separator is `/`.
use gotst.Prelude.{
  true, arith, ◌++◌, Bool, false, ◌||◌, [], ◌∷◌, Text, text, eqb, if◌then◌else◌, ◌≡◌, refl,
}

-- The path without its trailing separators.
unfoldable pub trim_slashes : Text → Text
trim_slashes [] = []
trim_slashes (c ∷ s) = elim (trim_slashes s) [
  | [] ↦ if eqb c b'/' then [] else c ∷ []
  | d ∷ r ↦ c ∷ d ∷ r
]

unfoldable pub has_slash : Text → Bool
has_slash [] = false
has_slash (d ∷ r) = eqb d b'/' || has_slash r

-- What follows the last separator.
unfoldable pub after_last_slash : Text → Text
unfolding has_slash
after_last_slash [] = []
after_last_slash (c ∷ s) =
    let rest = after_last_slash s in if has_slash s then rest else (if eqb c b'/' then s else c ∷ s)

-- `filepath.Base`
unfoldable pub base : Text → Text
unfolding trim_slashes after_last_slash
base [] = text "."
base (c ∷ s) = elim (trim_slashes (c ∷ s)) [ [] ↦ text "/" | d ∷ r ↦ after_last_slash (d ∷ r) ]

base_of_path : base (text "/tmp/c/abc123") ≡ text "abc123"
unfolding base
base_of_path = refl

has_slash-append : (a b : Text) → has_slash (a ++ b'/' ∷ b) ≡ true
unfolding has_slash
has_slash-append [] b = refl
has_slash-append (c ∷ a) b = ground (arith, has_slash-append a b)

pub has_slash-append-false :
    (a b : Text) → has_slash a ≡ false → has_slash b ≡ false → has_slash (a ++ b) ≡ false
unfolding has_slash
has_slash-append-false [] b ha hb = hb
has_slash-append-false (c ∷ a) b ha hb = ground (arith, has_slash-append-false a b)

-- The last element of a path.
pub after_last_slash-append :
    (a b : Text) → has_slash b ≡ false → after_last_slash (a ++ b'/' ∷ b) ≡ b
unfolding after_last_slash has_slash
after_last_slash-append [] b h = ground arith
after_last_slash-append (c ∷ a) b h =
    ground (arith, has_slash-append a b, after_last_slash-append a b h)

-- The text from its last dot on.
unfoldable pub has_dot : Text → Bool
has_dot [] = false
has_dot (c ∷ s) = eqb c b'.' || has_dot s

-- `filepath.Ext` of a name without a slash
unfoldable pub extension : Text → Text
unfolding has_dot
extension [] = []
extension (c ∷ s) =
    let rest = extension s in if has_dot s then rest else (if eqb c b'.' then c ∷ s else [])
