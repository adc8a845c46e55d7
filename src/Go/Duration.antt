-- ===== src/Go/Duration.antt =====
-- Decimal numbers and `time.Duration.String` for durations that are not negative, in nanoseconds.
use gotst.Prelude.{
  ℕ, zero, suc, ◌+◌, ◌*◌, ◌/◌, ◌%◌, ◌≡◌, refl, Bool, true, false, [], ◌∷◌, ◌++◌, eqb, ltb,
  if◌then◌else◌, Text, text,
}

abbrev pub millisecond : ℕ
millisecond = 1_000_000

abbrev pub second : ℕ
second = 1_000_000_000

-- The digits of `n` before `acc`; a number has fewer digits than the fuel `n + 1`.
digits_onto : ℕ → ℕ → Text → Text
digits_onto zero n acc = acc
digits_onto (suc f) n acc =
    let done = (n % 10 + 48) ∷ acc in
    let more = digits_onto f (n / 10) done in if ltb n 10 then done else more

unfoldable pub decimal : ℕ → Text
unfolding digits_onto
decimal n = digits_onto (n + 1) n []

-- `fmtFrac`: the last `prec` digits of `v` as a fraction before `acc`, without trailing zeros.
fraction_onto : ℕ → ℕ → Bool → Text → Text
fraction_onto zero v printed acc = if printed then 46 ∷ acc else acc
fraction_onto (suc p) v printed acc =
    if (if printed then true else (if eqb (v % 10) 0 then false else true))
    then fraction_onto p (v / 10) true ((v % 10 + 48) ∷ acc)
    else fraction_onto p (v / 10) false acc

ten_to : ℕ → ℕ
ten_to zero = 1
ten_to (suc p) = 10 * ten_to p

scaled : ℕ → ℕ → Text → Text
unfolding decimal fraction_onto ten_to
scaled v prec unit = decimal (v / ten_to prec) ++ fraction_onto prec v false unit

clock : ℕ → Text → Text
unfolding decimal
clock secs tail =
    if ltb secs 60
    then decimal secs ++ tail
    else if ltb secs 3600
    then decimal (secs / 60) ++ text "m" ++ decimal (secs % 60) ++ tail
    else decimal (secs / 3600)
      ++ text "h"
      ++ decimal (secs / 60 % 60)
      ++ text "m"
      ++ decimal (secs % 60)
      ++ tail

unfoldable pub duration_string : ℕ → Text
unfolding scaled clock fraction_onto
duration_string d =
    if eqb d 0
    then text "0s"
    else if ltb d 1000
    then scaled d 0 (text "ns")
    else if ltb d millisecond
    then scaled d 3 (0xc2 ∷ 0xb5 ∷ text "s")
    else if ltb d second
    then scaled d 6 (text "ms")
    else clock (d / second) (fraction_onto 9 d false (text "s"))

two_units : duration_string 90_500_000_000 ≡ text "1m30.5s"
unfolding duration_string
two_units = refl

hours : duration_string 36_000_000_000_000 ≡ text "10h0m0s"
unfolding duration_string
hours = refl

millis : duration_string 1_500_000 ≡ text "1.5ms"
unfolding duration_string
millis = refl
