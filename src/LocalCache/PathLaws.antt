-- ===== src/LocalCache/PathLaws.antt =====
-- localcache.go: the paths of objects and of the index, which are no other's.
use gotst.Prelude.{
  refl, length-append, inr, ap, ◌∙◌, sym, inl, append-nil, subst, Bool-cases, ◌<◌, ◌≡◌, true, false,
  [], ◌++◌, Text, text, text_eq, ◌==◌, arith, length, is_some,
}
use gotst.Go.Strings.{has_prefix}
use gotst.Go.Hex.{decode_string-has_slash, decode_string-start, decode_string}
use gotst.Go.Paths.{has_slash, has_slash-append-false, after_last_slash-append, after_last_slash}
use gotst.LocalCache.Data.{
  output_dir, action_dir, LocalBuildCache, valid_cache_hex, action_path, output_path,
}
use gotst.LocalCache.Store.{temp_start}

valid→is_some :
    (s : Text) → valid_cache_hex s ≡ true → (length s ≡ 64) × (is_some (decode_string s) ≡ true)
unfolding valid_cache_hex
valid→is_some s h = ground arith

module _ (c : LocalBuildCache) (id : Text) (valid : valid_cache_hex id ≡ true) where
  long : 0 < length id
  long = omega (arith, (valid→is_some id valid).0)

  output_path-last : after_last_slash (output_path c id) ≡ id
  unfolding output_path output_dir
  output_path-last =
      after_last_slash-append (output_dir c id) id
        (decode_string-has_slash id (valid→is_some id valid).1)

  action_path-last : after_last_slash (action_path c id) ≡ id ++ text ".json"
  unfolding action_path action_dir has_slash
  action_path-last = after_last_slash-append (action_dir c id) (id ++ text ".json") (
      has_slash-append-false id (text ".json")
        (decode_string-has_slash id (valid→is_some id valid).1) refl)

  pub output_path-kept : has_prefix (after_last_slash (output_path c id)) temp_start ≡ false
  output_path-kept = rw (output_path-last) (
      subst (λ x. has_prefix x temp_start ≡ false) (append-nil id)
        (decode_string-start id [] _ (valid→is_some id valid).1 long))

  pub action_path-kept : has_prefix (after_last_slash (action_path c id)) temp_start ≡ false
  action_path-kept =
      rw (action_path-last)
        (decode_string-start id (text ".json") _ (valid→is_some id valid).1 long)

module _ (c : LocalBuildCache) (id other : Text) (valid : valid_cache_hex id ≡ true)
    (valid' : valid_cache_hex other ≡ true) where
  pub action_path-output_path : (action_path c id == output_path c other) ≡ false
  action_path-output_path = elim (Bool-cases (action_path c id == output_path c other)) [
    | inl e ↦
        let same : id ++ text ".json" ≡ other =
          sym (action_path-last c id valid)
          ∙ ap after_last_slash ((text_eq.beq_iff _ _).0 e)
          ∙ output_path-last c other valid' in
        absurd (
          omega (
            arith,
            ap length same,
            length-append id (text ".json"),
            (valid→is_some id valid).0,
            (valid→is_some other valid').0,
          ))
    | inr e ↦ e
  ]

  pub output_path-injective : output_path c id ≡ output_path c other → id ≡ other
  output_path-injective e =
      sym (output_path-last c id valid) ∙ ap after_last_slash e ∙ output_path-last c other valid'
