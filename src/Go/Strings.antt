-- ===== src/Go/Strings.antt =====
-- Go's package strings over byte lists: prefixes, cuts, joins and the order of `strings.Compare`.
use gotst.Prelude.{◌-◌, not, ◌+◌, ltb, ◌*◌, ◌>>=◌}
use gotst.Prelude.{
  leb, ◌||◌, ℕ, text, map, is_empty, ◌≡◌, refl, Bool, true, false, ◌&&◌, Option, none, some, List,
  [], ◌∷◌, ◌++◌, arith, eqb, if◌then◌else◌, Text,
}
use Prim.Native.Nat.{Ordering, compare}

unfoldable pub has_prefix : Text → Text → Bool
has_prefix s [] = true
has_prefix [] (p ∷ ps) = false
has_prefix (c ∷ s) (p ∷ ps) = eqb c p && has_prefix s ps

-- `strings.CutPrefix`: the rest behind the prefix, if it is there.
unfoldable pub cut_prefix : Text → Text → Option Text
cut_prefix s [] = some s
cut_prefix [] (p ∷ ps) = none
cut_prefix (c ∷ s) (p ∷ ps) = let rest = cut_prefix s ps in if eqb c p then rest else none

-- `strings.Join`.
unfoldable pub join : Text → List Text → Text
join sep [] = []
join sep (x ∷ []) = x
join sep (x ∷ y ∷ r) = x ++ (sep ++ join sep (y ∷ r))

-- `strings.Compare`, the order of bytes.
unfoldable pub compare_text : Text → Text → Ordering
compare_text [] [] = Ordering.eq
compare_text [] (b ∷ bs) = Ordering.lt
compare_text (a ∷ r) [] = Ordering.gt
compare_text (a ∷ r) (b ∷ bs) =
    let rest = compare_text r bs in
    elim (compare a b) [
      | Ordering.lt ↦ Ordering.lt
      | Ordering.eq ↦ rest
      | Ordering.gt ↦ Ordering.gt
    ]

-- The space of ASCII, for `strings.Fields`.
abbrev is_field_space : ℕ → Bool
is_field_space c = (leb 9 c && leb c 13) || eqb c 32

-- `strings.Fields` of ASCII; `word` is the field that is being read.
fields_onto : Text → Text → List Text
fields_onto word [] = if is_empty word then [] else word ∷ []
fields_onto word (c ∷ s) = elim (is_field_space c) [
  | false ↦ fields_onto (word ++ c ∷ []) s
  | true ↦ let next = fields_onto [] s in if is_empty word then next else word ∷ next
]

unfoldable pub fields : Text → List Text
unfolding fields_onto
fields s = fields_onto [] s

digits_value : ℕ → Text → Option ℕ
digits_value acc [] = some acc
digits_value acc (c ∷ s) =
    let rest = digits_value (acc * 10 + (c - 48)) s in if leb 48 c && leb c 57 then rest else none

without_sign : Text → Text
without_sign [] = []
without_sign (c ∷ s) = if eqb c b'+' || eqb c b'-' then s else c ∷ s

-- `strconv.ParseInt` to base 10 and 64 bits, where the result is an error or negative none.
unfoldable pub parse_natural : Text → Option ℕ
unfolding digits_value without_sign
parse_natural s = if is_empty (without_sign s) then none else do
  n ← digits_value 0 (without_sign s)
  if ltb n (9223372036854775808) && (not (has_prefix s (text "-")) || eqb n 0) then some n else none

parse_signs :
    map parse_natural
      (text "12" ∷ text "-0" ∷ text "-1" ∷ text "+" ∷ text "9223372036854775808" ∷ [])
    ≡ some 12 ∷ some 0 ∷ none ∷ none ∷ none ∷ []
unfolding parse_natural has_prefix
parse_signs = refl

fields_of_line : fields (text " v1 ab  c") ≡ text "v1" ∷ text "ab" ∷ text "c" ∷ []
unfolding fields
fields_of_line = refl

pub cut_prefix-append : (p s : Text) → cut_prefix (p ++ s) p ≡ some s
unfolding cut_prefix
cut_prefix-append [] s = refl
cut_prefix-append (c ∷ p) s = ground (arith, cut_prefix-append p s)

pub cut_prefix-eq_some : (s p r : Text) → cut_prefix s p ≡ some r → s ≡ p ++ r
unfolding cut_prefix
cut_prefix-eq_some s [] r h = ground arith
cut_prefix-eq_some [] (p ∷ ps) r h = ground arith
cut_prefix-eq_some (c ∷ s) (p ∷ ps) r h = ground (arith, cut_prefix-eq_some s ps r)

pub has_prefix-append : (p s : Text) → has_prefix (p ++ s) p ≡ true
unfolding has_prefix
has_prefix-append [] s = refl
has_prefix-append (c ∷ p) s = ground (arith, has_prefix-append p s)

pub compare_text-eq : (a b : Text) → compare_text a b ≡ Ordering.eq → a ≡ b
unfolding compare_text
compare_text-eq [] [] h = refl
compare_text-eq [] (b ∷ bs) h = ground arith
compare_text-eq (a ∷ r) [] h = ground arith
compare_text-eq (a ∷ r) (b ∷ bs) h = ground (arith, compare_text-eq r bs)
