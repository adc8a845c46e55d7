-- ===== src/Go/Hex.antt =====
-- Go's package encoding/hex, and `strings.Fields` and `strconv.ParseInt` as the code uses them.
use gotst.Go.Strings.{has_prefix}
use gotst.Go.Paths.{has_slash}
use gotst.Prelude.{
  IfSome-eq, IfSome, some-injective, ap, ◌∙◌, append-nil, sym, subst, ◌≤◌, ◌++◌, is_some, ℕ, ◌+◌,
  ◌-◌, ◌*◌, ◌/◌, ◌%◌, ◌<◌, ◌≡◌, refl, true, false, ◌&&◌, [], ◌∷◌, Option, none, some, arith, ltb,
  leb, if◌then◌else◌, Text, All, ◌>>=◌, length,
}

abbrev hex_digit : ℕ → ℕ
hex_digit n = if ltb n 10 then n + 48 else n + 87

-- `hex.EncodeToString`
unfoldable pub encode_to_string : Text → Text
encode_to_string [] = []
encode_to_string (b ∷ bs) = hex_digit (b / 16) ∷ hex_digit (b % 16) ∷ encode_to_string bs

abbrev from_hex : ℕ → Option ℕ
from_hex c =
    if leb 48 c && leb c 57
    then some (c - 48)
    else if leb 97 c && leb c 102
    then some (c - 87)
    else if leb 65 c && leb c 70
    then some (c - 55)
    else none

-- `hex.DecodeString`
unfoldable pub decode_string : Text → Option Text
decode_string [] = some []
decode_string (c ∷ []) = none
decode_string (c ∷ d ∷ s) = do
  high ← from_hex c
  low ← from_hex d
  rest ← decode_string s
  some ((high * 16 + low) ∷ rest)

abbrev pub AreBytes : Text → Type 0
AreBytes = All (λ b. b < 256)

from_hex-hex_digit : (n : ℕ) → n < 16 → from_hex (hex_digit n) ≡ some n
from_hex-hex_digit n h = ground arith

pub decode_string-encode_to_string :
    (b : Text) → AreBytes b → decode_string (encode_to_string b) ≡ some b
unfolding decode_string encode_to_string
decode_string-encode_to_string [] h = refl
decode_string-encode_to_string (b ∷ bs) h =
    let whole : b / 16 * 16 + b % 16 ≡ b = omega arith in
    let high = from_hex-hex_digit (b / 16) (omega (arith, h.0)) in
    let low = from_hex-hex_digit (b % 16) (omega arith) in
    rw (high, low, decode_string-encode_to_string bs h.1, whole)

from_hex-is_some : (c : ℕ) → is_some (from_hex c) ≡ true → 48 ≤ c
from_hex-is_some c h = ground arith

decode_string-odd : (c : ℕ) → is_some (decode_string (c ∷ [])) ≡ true → ⊥
unfolding decode_string
decode_string-odd c h = ground arith

three-is_some :
    (x y : Option ℕ) (z : Option Text) (f : ℕ → ℕ → Text → Text)
    → is_some (x >>= λ a. y >>= λ b. z >>= λ r. some (f a b r)) ≡ true
    → (is_some x ≡ true) × (is_some y ≡ true) × (is_some z ≡ true)
three-is_some (some a) (some b) (some r) f h = (refl, refl, refl)
three-is_some (some a) (some b) none f h = ground arith
three-is_some (some a) none z f h = ground arith
three-is_some none y z f h = ground arith

decode_string-inv :
    (c d : ℕ) (s : Text)
    → is_some (decode_string (c ∷ d ∷ s)) ≡ true
    → (48 ≤ c) × (48 ≤ d) × (is_some (decode_string s) ≡ true)
unfolding decode_string
decode_string-inv c d s h =
    let parts = three-is_some (from_hex c) (from_hex d) (decode_string s) _ h in
    (from_hex-is_some c parts.0, from_hex-is_some d parts.1, parts.2)

-- The bytes of hexadecimal text.
pub decode_string-has_slash : (s : Text) → is_some (decode_string s) ≡ true → has_slash s ≡ false
unfolding has_slash
decode_string-has_slash [] h = refl
decode_string-has_slash (c ∷ []) h = absurd (decode_string-odd c h)
decode_string-has_slash (c ∷ d ∷ s) h =
    let parts = decode_string-inv c d s h in ground (arith, decode_string-has_slash s parts.2)

pub decode_string-start :
    (s t rest : Text)
    → is_some (decode_string s) ≡ true
    → 0 < length s
    → has_prefix (s ++ t) (b'.' ∷ rest) ≡ false
unfolding has_prefix
decode_string-start [] t rest h l = absurd (omega arith)
decode_string-start (c ∷ []) t rest h l = absurd (decode_string-odd c h)
decode_string-start (c ∷ d ∷ s) t rest h l = let parts = decode_string-inv c d s h in ground arith

pub decode_string-no_dot :
    (s rest : Text) → is_some (decode_string s) ≡ true → has_prefix s (b'.' ∷ rest) ≡ false
unfolding has_prefix
decode_string-no_dot [] rest h = refl
decode_string-no_dot (c ∷ s) rest h =
    subst (λ x. has_prefix x (b'.' ∷ rest) ≡ false) (append-nil (c ∷ s))
      (decode_string-start (c ∷ s) [] rest h (omega arith))

pub encode_to_string-is_some :
    (b : Text) → AreBytes b → is_some (decode_string (encode_to_string b)) ≡ true
encode_to_string-is_some b h = rw (decode_string-encode_to_string b h)

pub encode_to_string-injective :
    (a b : Text) → AreBytes a → AreBytes b → encode_to_string a ≡ encode_to_string b → a ≡ b
encode_to_string-injective a b ha hb e = some-injective a b (
    sym (decode_string-encode_to_string a ha)
    ∙ ap decode_string e
    ∙ decode_string-encode_to_string b hb)

three-length :
    (x y : Option ℕ) (z : Option Text) (n : ℕ)
    → IfSome (λ r. n ≡ 2 * length r) z
    → IfSome (λ r. n + 2 ≡ 2 * length r) (x >>= λ h. y >>= λ l. z >>= λ r. some ((h * 16 + l) ∷ r))
three-length (some h) (some l) (some r) n e = omega (arith, e)
three-length (some h) (some l) none n e = tt
three-length (some h) none z n e = tt
three-length none y z n e = tt

decode_string-IfSome : (s : Text) → IfSome (λ r. length s ≡ 2 * length r) (decode_string s)
unfolding decode_string
decode_string-IfSome [] = refl
decode_string-IfSome (c ∷ []) = tt
decode_string-IfSome (c ∷ d ∷ s) =
    subst (λ n. IfSome (λ (r : Text). n ≡ 2 * length r) (decode_string (c ∷ d ∷ s))) (omega arith)
      (three-length (from_hex c) (from_hex d) (decode_string s) (length s) (decode_string-IfSome s))

pub length-decode_string : (s b : Text) → decode_string s ≡ some b → length s ≡ 2 * length b
length-decode_string s b h =
    IfSome-eq (λ (r : Text). length s ≡ 2 * length r) (decode_string s) b h (decode_string-IfSome s)
