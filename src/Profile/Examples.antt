-- ===== src/Profile/Examples.antt =====
-- profile.go: three profiles of a configuration, one of which includes the others.
use gotst.Prelude.{
  ◌≡◌, refl, true, false, [], ◌∷◌, none, some, Text, text, text_eq, text_beq, ◌==◌, if◌then◌else◌,
  lookup, insert, contains, is_empty,
}
use gotst.Profile.Data.{
  RawProfile, RunProfile, Profiles, ParsedDuration, bad_duration, positive, ok, err, include_cycle,
  empty_profile,
}
use gotst.Profile.Merge.{append_unique, merge_run_profile, merge_timeout, merge_raw_profile}
use gotst.Profile.Visit.{
  visit_includes, enter, visit_step, visit, resolve_profile, resolve, from_first, drop_last,
}
use gotst.Profile.Spec.{Ensures, Resolves, profile, end, more, IsGenuine}
use gotst.Profile.Soundness.{resolve_profile-Ensures}
use gotst.Profile.Normal.{IsNormal, resolve_profile-exact, resolve-IsNormal}

abbrev parse : Text → ParsedDuration
parse t = if t == text "5m" then positive 300_000_000_000 else bad_duration

abbrev base : RawProfile
base = record {
  includes = [];
  packages = text "./..." ∷ [];
  exclude_packages = [];
  tags = text "unit" ∷ [];
  test_flags = [];
  short = some true;
  race = none;
  timeout = some (text "5m");
}

abbrev ci : RawProfile
ci = record {
  includes = text "base" ∷ [];
  packages = text "./..." ∷ text "./cmd" ∷ [];
  exclude_packages = [];
  tags = text "ci" ∷ text "unit" ∷ [];
  test_flags = [];
  short = some false;
  race = none;
  timeout = none;
}

abbrev looping : RawProfile
looping = record ci { includes = text "loop" ∷ [] }

abbrev profiles : Profiles
profiles = (text "base", base) ∷ (text "ci", ci) ∷ (text "loop", looping) ∷ []

abbrev ci_profile : RunProfile
ci_profile = record empty_profile {
  packages = text "./..." ∷ text "./cmd" ∷ [];
  tags = text "unit" ∷ text "ci" ∷ [];
  short = false;
  short_set = true;
  timeout = 300_000_000_000;
}

ci_resolved : resolve_profile parse profiles (text "ci") ≡ ok ci_profile
unfolding resolve_profile visit visit_step enter visit_includes merge_raw_profile merge_timeout
    merge_run_profile append_unique lookup insert contains drop_last text_beq
ci_resolved = refl

loop_refused :
    resolve_profile parse profiles (text "loop")
    ≡ err (include_cycle (text "loop" ∷ text "loop" ∷ []))
unfolding resolve_profile visit visit_step enter visit_includes lookup contains text_beq from_first
loop_refused = refl

abbrev base_out : RunProfile
base_out = record empty_profile {
  packages = text "./..." ∷ [];
  tags = text "unit" ∷ [];
  short = true;
  short_set = true;
  timeout = 300_000_000_000;
}

base_profile : Resolves parse profiles (text "base") base_out
unfolding merge_raw_profile merge_timeout append_unique lookup contains text_beq
base_profile = profile base empty_profile refl (end refl) refl

ci_declared : Resolves parse profiles (text "ci") ci_profile
unfolding merge_raw_profile merge_run_profile merge_timeout append_unique lookup contains text_beq
ci_declared =
    profile ci (merge_run_profile empty_profile base_out) refl
      (more base_out base_profile (end refl)) refl

resolve_profile-Ensures_example :
    Ensures
      (Resolves parse profiles (text "loop"))
      (IsGenuine parse profiles)
      (resolve_profile parse profiles (text "loop"))
resolve_profile-Ensures_example = resolve_profile-Ensures parse profiles (text "loop")

resolve_profile-exact_example : ci_profile ≡ ci_profile
resolve_profile-exact_example =
    resolve_profile-exact parse profiles (text "ci") ci_profile ci_profile ci_resolved ci_declared

resolve-IsNormal_example :
    IsNormal (record ci_profile { name = text "ci"; root = text "/src" })
    × (is_empty ci_profile.packages ≡ false)
    × (text "/src" ≡ text "/src")
    × (text "ci" ≡ (if is_empty (text "ci") then text "default" else text "ci"))
unfolding resolve resolve_profile visit visit_step enter visit_includes merge_raw_profile
    merge_timeout merge_run_profile append_unique lookup insert contains drop_last text_beq
resolve-IsNormal_example =
    resolve-IsNormal parse profiles (text "/src") (text "ci")
      (record ci_profile { name = text "ci"; root = text "/src" }) refl
