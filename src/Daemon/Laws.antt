-- ===== src/Daemon/Laws.antt =====
-- cmd/testhistoryd: parseUUID.
use gotst.Prelude.{
  length-append, sym, ◌-◌, zero, suc, ◌++◌, ◌∙◌, ap, true, some-injective, drop, ◌≤◌, get_elem?,
  Option-cases, ℕ, ◌+◌, ◌*◌, ◌≡◌, refl, Bool-cases, inl, inr, false, [], ◌∷◌, some, Text, length,
  eqb, arith, if◌then◌else◌,
}
use gotst.Go.Hex.{decode_string, length-decode_string}
use gotst.Daemon.{suc, dash_at, without_dashes, copy_into, zeros, parse_uuid, refused}

abbrev pub dashes : Text → ℕ
dashes [] = 0
dashes (c ∷ s) = let n = dashes s in if eqb c b'-' then n + 1 else n

length-without_dashes : (s : Text) → length (without_dashes s) + dashes s ≡ length s
length-without_dashes [] = refl
length-without_dashes (c ∷ s) = ground (arith, length-without_dashes s)

dash_at-drop : (n i : ℕ) (v : Text) → dash_at v (n + i) ≡ true → dash_at (drop n v) i ≡ true
unfolding dash_at get_elem?
dash_at-drop zero i v h = ap (dash_at v) (omega arith) ∙ h
dash_at-drop (suc n) i [] h = ground arith
dash_at-drop (suc n) i (c ∷ v) h =
    let same : suc (n + i) ≡ suc n + i = omega arith in
    dash_at-drop n i v (ap (dash_at (c ∷ v)) same ∙ h)

-- A dash and those behind it.
dashes-drop : (i : ℕ) (v : Text) → dash_at v i ≡ true → dashes (drop (suc i) v) + 1 ≤ dashes v
unfolding dash_at get_elem?
dashes-drop i [] h = ground arith
dashes-drop zero (c ∷ v) h = ground arith
dashes-drop (suc i) (c ∷ v) h = ground (arith, dashes-drop i v h)

refused-length : (v : Text) → refused v ≡ false → length v ≡ 36
unfolding refused
refused-length v h = ground arith

refused-dashes : (v : Text) → refused v ≡ false → 4 ≤ dashes v
unfolding refused
refused-dashes v h =
    let second = drop 9 v in
    let third = drop 5 second in
    let fourth = drop 5 third in
    let at_second = dash_at-drop 9 4 v (ground arith) in
    let at_third = dash_at-drop 5 4 second (dash_at-drop 9 9 v (ground arith)) in
    let at_fourth =
      dash_at-drop 5 4 third (dash_at-drop 5 9 second (dash_at-drop 9 14 v (ground arith))) in
    omega (
      arith,
      dashes-drop 8 v (ground arith),
      dashes-drop 4 second at_second,
      dashes-drop 4 third at_third,
      dashes-drop 4 fourth at_fourth,
    )

copy_into-zeros :
    (n : ℕ) (bytes : Text)
    → length bytes ≤ n
    → copy_into (zeros n) bytes ≡ bytes ++ zeros (n - length bytes)
unfolding copy_into
copy_into-zeros zero [] h = let same : 0 ≡ 0 - 0 = omega arith in ap zeros same
copy_into-zeros zero (b ∷ bytes) h = absurd (omega (arith, h))
copy_into-zeros (suc n) [] h = let same : suc n ≡ suc n - 0 = omega arith in ap zeros same
copy_into-zeros (suc n) (b ∷ bytes) h =
    ap (λ r. b ∷ r) (copy_into-zeros n bytes (omega (arith, h)))
    ∙ ap (λ k. b ∷ (bytes ++ zeros k)) (omega arith)

length-zeros : (n : ℕ) → length (zeros n) ≡ n
length-zeros zero = refl
length-zeros (suc n) = omega (arith, length-zeros n)

-- What parseUUID makes of a text: the bytes of its digits, and zeros.
pub record Parsed (v u : Text) : Type 0 where
  pub bytes : Text
  pub decodes : decode_string (without_dashes v) ≡ some bytes
  pub padded : u ≡ bytes ++ zeros (16 - length bytes)
  pub size : length u ≡ 16
  pub digits : 2 * length bytes + dashes v ≡ 36
  pub four : 4 ≤ dashes v

-- What parseUUID accepts has four dashes at least; its result has 16 bytes, which are those of the
-- text's digits without any dash, and zeros, one for each two dashes besides four.
pub parse_uuid-Parsed : (v u : Text) → parse_uuid v ≡ some u → Parsed v u
unfolding parse_uuid
parse_uuid-Parsed v u h = elim (Bool-cases (refused v)) [
  | inl e ↦ absurd (ground (arith, e, h))
  | inr e ↦ elim (Option-cases (decode_string (without_dashes v))) [
    | inl f ↦ absurd (ground (arith, e, f, h))
    | inr (bytes, f) ↦
        let digits : 2 * length bytes + dashes v ≡ 36 =
          omega
            (arith, length-decode_string _ bytes f, length-without_dashes v, refused-length v e) in
        let four = refused-dashes v e in
        let same : copy_into (zeros 16) bytes ≡ u =
          some-injective (copy_into (zeros 16) bytes) u (ground (arith, e, f, h)) in
        let padded : u ≡ bytes ++ zeros (16 - length bytes) =
          sym same ∙ copy_into-zeros 16 bytes (omega (arith, digits, four)) in
        record {
          bytes = bytes;
          decodes = f;
          padded = padded;
          size =
              ap length padded
              ∙ length-append bytes (zeros (16 - length bytes))
              ∙ omega (arith, length-zeros (16 - length bytes), digits, four);
          digits = digits;
          four = four;
        }
  ]
]
