-- ===== src/Profile/Merge.antt =====
-- profile.go: appendUnique, mergeRunProfile and mergeRawProfile. `time.ParseDuration` is the
-- parameter `parse_duration`.
use gotst.Prelude.{
  ℕ, Bool, true, not, ◌&&◌, ◌||◌, List, [], ◌∷◌, ◌++◌, Option, none, some, Text, eqb, if◌then◌else◌,
  contains, is_empty, text_eq,
}
use gotst.Profile.Data.{
  RawProfile, RunProfile, ParsedDuration, bad_duration, not_positive, positive, Outcome, ok, err,
  out_of_fuel, invalid_timeout, timeout_not_positive,
}

unfoldable pub append_unique : List Text → List Text → List Text
append_unique dst [] = dst
append_unique dst (v ∷ values) =
    append_unique (if not (is_empty v) && not (contains dst v) then dst ++ v ∷ [] else dst) values

unfoldable pub merge_run_profile : RunProfile → RunProfile → RunProfile
merge_run_profile dst src = record dst {
  packages = append_unique dst.packages src.packages;
  exclude_packages = append_unique dst.exclude_packages src.exclude_packages;
  tags = append_unique dst.tags src.tags;
  test_flags = append_unique dst.test_flags src.test_flags;
  short = if src.short_set then src.short else dst.short;
  short_set = src.short_set || dst.short_set;
  race = if src.race_set then src.race else dst.race;
  race_set = src.race_set || dst.race_set;
  timeout = if eqb src.timeout 0 then dst.timeout else src.timeout;
}

abbrev pub or_default : Option Bool → Bool → Bool
or_default none b = b
or_default (some v) b = v

abbrev pub is_set : Option Bool → Bool → Bool
is_set none b = b
is_set (some v) b = true

-- The timeout of a merge: the old one if the source sets none.
unfoldable pub merge_timeout : (Text → ParsedDuration) → ℕ → Option Text → Outcome ℕ
merge_timeout parse_duration old none = ok old
merge_timeout parse_duration old (some t) = elim (parse_duration t) [
  | bad_duration ↦ err (invalid_timeout t)
  | not_positive ↦ err (timeout_not_positive t)
  | positive d ↦ ok d
]

unfoldable pub merge_raw_profile :
    (Text → ParsedDuration) → RunProfile → RawProfile → Outcome RunProfile
unfolding merge_timeout
merge_raw_profile parse_duration dst src =
    let merged = record dst {
      packages = append_unique dst.packages src.packages;
      exclude_packages = append_unique dst.exclude_packages src.exclude_packages;
      tags = append_unique dst.tags src.tags;
      test_flags = append_unique dst.test_flags src.test_flags;
      short = or_default src.short dst.short;
      short_set = is_set src.short dst.short_set;
      race = or_default src.race dst.race;
      race_set = is_set src.race dst.race_set;
    } in
    elim (merge_timeout parse_duration dst.timeout src.timeout) [
      | ok t ↦ ok (record merged { timeout = t })
      | err e ↦ err e
      | out_of_fuel ↦ out_of_fuel
    ]
