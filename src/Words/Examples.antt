-- ===== src/Words/Examples.antt =====
-- cacheprog.go: a path with a space, and an environment.
use gotst.Prelude.{arith, ◌≡◌, refl, [], ◌∷◌, some, text, text_eq}
use gotst.Words.Quoting.{split_rounds, split_quoted, quote_cache_prog_arg, has_byte}
use gotst.Words.Laws.{split_quoted-quote_cache_prog_arg, split_rounds-enough}

split_quoted-quote_cache_prog_arg_example :
    split_quoted (quote_cache_prog_arg (text "/my dir/gotst")) ≡ some (text "/my dir/gotst" ∷ [])
unfolding has_byte
split_quoted-quote_cache_prog_arg_example =
    split_quoted-quote_cache_prog_arg (text "/my dir/gotst") refl refl

split_rounds-enough_example : split_rounds 4 (text "a b") ≡ split_rounds 3 (text "a b")
split_rounds-enough_example = split_rounds-enough 3 (text "a b") (omega arith)
