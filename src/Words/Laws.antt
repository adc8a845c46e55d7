-- ===== src/Words/Laws.antt =====
-- cacheprog.go: splitQuoted and quoteCacheProgArg together, and envWithout.
use gotst.Prelude.{
  ◌≤◌, ◌<◌, ◌⊎◌, Option-cases, zero, ℕ, suc, ◌≡◌, refl, ◌∙◌, ap, true, false, not, ◌&&◌, List, [],
  ◌∷◌, ◌++◌, none, some, arith, Text, length, length-append, contains, text_eq, text_beq_iff,
  is_empty, eqb_iff, Bool-cases, inl, inr,
}
use gotst.Words.Quoting.{
  is_space, env_name, env_without, is_quote, trim_left, cut_quote, cut_word, split_rounds,
  split_quoted, has_byte, has_special, quote_cache_prog_arg,
}

cut_quote-append :
    (q : ℕ) (s : Text) → has_byte q s ≡ false → cut_quote q (s ++ q ∷ []) ≡ some (s, [])
unfolding cut_quote has_byte
cut_quote-append q [] h = ground (arith, eqb_iff q q)
cut_quote-append q (c ∷ s) h = ground (arith, cut_quote-append q s)

cut_word-plain : (s : Text) → has_special s ≡ false → cut_word s ≡ none
unfolding cut_word has_special
cut_word-plain [] h = refl
cut_word-plain (c ∷ s) h = ground (arith, cut_word-plain s)

split_rounds-quoted :
    (fuel q : ℕ) (s : Text)
    → is_quote q ≡ true
    → has_byte q s ≡ false
    → split_rounds (suc (suc fuel)) (q ∷ s ++ q ∷ []) ≡ some (s ∷ [])
unfolding split_rounds trim_left
split_rounds-quoted fuel q s h k = ground (arith, cut_quote-append q s k)

split_rounds-plain :
    (fuel c : ℕ) (s : Text)
    → has_special (c ∷ s) ≡ false
    → split_rounds (suc fuel) (c ∷ s) ≡ some ((c ∷ s) ∷ [])
unfolding split_rounds trim_left has_special
split_rounds-plain fuel c s h = ground (arith, cut_word-plain (c ∷ s) (unfold has_special in h))

split_quoted-quoted :
    (q : ℕ) (s : Text)
    → is_quote q ≡ true
    → has_byte q s ≡ false
    → split_quoted (q ∷ s ++ q ∷ []) ≡ some (s ∷ [])
unfolding split_quoted
split_quoted-quoted q s h k =
    let n : length (q ∷ s ++ q ∷ []) ≡ suc (suc (length s)) =
      omega (arith, length-append s (q ∷ [])) in
    ap (λ fuel. split_rounds fuel (q ∷ s ++ q ∷ [])) n ∙ split_rounds-quoted (length s) q s h k

-- A nonempty word without one of the two quotes is quoted into a command line that splits into
-- just that word.
pub split_quoted-quote_cache_prog_arg :
    (s : Text)
    → is_empty s ≡ false
    → (has_byte 39 s && has_byte 34 s) ≡ false
    → split_quoted (quote_cache_prog_arg s) ≡ some (s ∷ [])
unfolding quote_cache_prog_arg
split_quoted-quote_cache_prog_arg [] h k = ground arith
split_quoted-quote_cache_prog_arg (c ∷ s) h k = elim (Bool-cases (has_special (c ∷ s))) [
  | inr plain ↦ rw plain (unfold split_quoted in split_rounds-plain (length s) c s plain)
  | inl special ↦ rw special (elim (Bool-cases (has_byte 39 (c ∷ s))) [
    | inr no_single ↦ rw no_single (split_quoted-quoted 39 (c ∷ s) (ground arith) no_single)
    | inl single ↦
        let no_double : has_byte 34 (c ∷ s) ≡ false = ground arith in
        rw (single, no_double) (split_quoted-quoted 34 (c ∷ s) (ground arith) no_double)
  ])
]

-- An entry is in the environment without some names if and only if it is in the environment and
-- its name is none of them.
pub env_without-contains :
    (env names : List Text) (kv : Text)
    → contains (env_without env names) kv ≡ (contains env kv && not (contains names (env_name kv)))
unfolding env_without contains
env_without-contains [] names kv = refl
env_without-contains (x ∷ env) names kv =
    ground (arith, env_without-contains env names kv, text_beq_iff x kv)

-- The fuel of `split_rounds`: each round takes a byte.
length-trim_left : (s : Text) → length (trim_left s) ≤ length s
unfolding trim_left
length-trim_left [] = omega arith
length-trim_left (c ∷ s) = ground (arith, length-trim_left s)

length-cut_quote :
    (q : ℕ) (s word rest : Text) → cut_quote q s ≡ some (word, rest) → length rest < length s
unfolding cut_quote
length-cut_quote q [] word rest h = ground arith
length-cut_quote q (c ∷ s) word rest h = elim (Option-cases (cut_quote q s)) [
  | inl e ↦ ground arith
  | inr ((w, r), e) ↦ ground (arith, length-cut_quote q s w r e)
]

length-cut_word : (s word rest : Text) → cut_word s ≡ some (word, rest) → length rest ≤ length s
unfolding cut_word
length-cut_word [] word rest h = ground arith
length-cut_word (c ∷ s) word rest h = elim (Option-cases (cut_word s)) [
  | inl e ↦ ground arith
  | inr ((w, r), e) ↦ ground (arith, length-cut_word s w r e)
]

Text-cases : (s : Text) → (s ≡ []) ⊎ ((c : ℕ) × (r : Text) × (s ≡ c ∷ r))
Text-cases [] = inl refl
Text-cases (c ∷ r) = inr (c, r, refl)

-- Behind a word that does not start with a space less is left.
length-cut_word_lt :
    (c : ℕ) (s word rest : Text)
    → is_space c ≡ false
    → cut_word (c ∷ s) ≡ some (word, rest)
    → length rest < length (c ∷ s)
unfolding cut_word
length-cut_word_lt c s word rest h e = elim (Option-cases (cut_word s)) [
  | inl o ↦ ground arith
  | inr ((w, r), o) ↦ ground (arith, length-cut_word s w r o)
]

trim_left-starts : (s : Text) (c : ℕ) (r : Text) → trim_left s ≡ c ∷ r → is_space c ≡ false
unfolding trim_left
trim_left-starts [] c r h = ground arith
trim_left-starts (d ∷ s) c r h = ground (arith, trim_left-starts s c r)

-- As many rounds as the text has bytes are enough to split it: one more round changes nothing.
pub split_rounds-enough :
    (fuel : ℕ) (s : Text) → length s ≤ fuel → split_rounds (suc fuel) s ≡ split_rounds fuel s
unfolding split_rounds
split_rounds-enough zero s h = ground (arith, length-trim_left s)
split_rounds-enough (suc fuel) s h = elim (Text-cases (trim_left s)) [
  | inl e ↦ ground arith
  | inr (c, r, e) ↦ elim (Bool-cases (is_quote c)) [
    | inl q ↦ elim (Option-cases (cut_quote c r)) [
      | inl o ↦ ground arith
      | inr ((w, rest), o) ↦
          let short : length rest ≤ fuel =
            ground (arith, length-trim_left s, length-cut_quote c r w rest o) in
          let ih = split_rounds-enough fuel rest short in ground arith
    ]
    | inr q ↦ elim (Option-cases (cut_word (c ∷ r))) [
      | inl o ↦ ground arith
      | inr ((w, rest), o) ↦
          let starts = trim_left-starts s c r e in
          let short : length rest ≤ fuel =
            ground (arith, length-trim_left s, length-cut_word_lt c r w rest starts o) in
          let ih = split_rounds-enough fuel rest short in ground arith
    ]
  ]
]
