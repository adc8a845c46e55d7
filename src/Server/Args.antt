-- ===== src/Server/Args.antt =====
-- gotst.go: the arguments that a captured test binary runs with, and the history key of a task.
use gotst.Prelude.{
  Bool, true, false, not, ◌||◌, List, [], ◌∷◌, ◌++◌, map, none, some, Text, text, text_eq, ◌==◌,
  eqb, if◌then◌else◌, filter,
}
use gotst.Go.Strings.{has_prefix, cut_prefix}
use gotst.Go.Duration.{duration_string}
use gotst.Go.Sort.{sort_texts}
use gotst.Go.Paths.{base}
use gotst.Profile.{RunProfile}
use gotst.History.{Key}
use gotst.Server.Data.{Flags, TestTask}

unfoldable pub bin_hash : Text → Text
bin_hash abs_bin = base abs_bin

unfoldable pub direct_test_args : List Text → List Text
direct_test_args args = filter (λ arg. not (arg == text "-test.v=test2json")) args

unfoldable pub normalize_test_flag : Text → Text
normalize_test_flag arg =
    if arg == text "-short" || arg == text "-testing.short" || arg == text "-test.short"
    then text "-test.short=true"
    else elim (cut_prefix arg (text "-testing.")) [ some rest ↦ text "-test." ++ rest | none ↦ arg ]

-- Whether `set_test_arg` drops an argument.
unfoldable pub sets_arg : Text → Text → Bool
sets_arg name arg = arg == name || has_prefix arg (name ++ text "=")

unfoldable pub set_test_arg : List Text → Text → Text → List Text
unfolding sets_arg
set_test_arg args name value =
    filter (λ arg. not (sets_arg name arg)) args ++ (name ++ text "=" ++ value) ∷ []

abbrev pub bool_text : Bool → Text
bool_text true = text "true"
bool_text false = text "false"

unfoldable pub profile_test_args : List Text → RunProfile → List Text
unfolding direct_test_args set_test_arg normalize_test_flag
profile_test_args args profile =
    let direct = direct_test_args args in
    let short =
      if profile.short_set
      then set_test_arg direct (text "-test.short") (bool_text profile.short)
      else direct in
    let timed =
      if eqb profile.timeout 0
      then short
      else set_test_arg short (text "-test.timeout") (duration_string profile.timeout) in
    timed ++ map normalize_test_flag profile.test_flags

unfoldable pub effective_test_args : Flags → TestTask → RunProfile → List Text
unfolding profile_test_args
effective_test_args flags task profile =
    let args =
      set_test_arg (profile_test_args task.bin.args profile) (text "-test.count") (text "1") in
    let fast =
      if flags.fail_fast then set_test_arg args (text "-test.failfast") (text "true") else args in
    if flags.json_summary then set_test_arg fast (text "-test.v") (text "true") else fast

unfoldable pub history_key_for_task : Flags → TestTask → RunProfile → Key
history_key_for_task flags task profile = record {
  package_path = task.bin.pkg;
  test = task.test;
  goos = flags.goos;
  goarch = flags.goarch;
  tags = sort_texts profile.tags;
  args = effective_test_args flags task profile;
}
