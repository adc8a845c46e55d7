-- ===== src/TestCache/Examples.antt =====
-- testcache.go: a log that reads a variable twice and a file, and an entry that is put and found.
use gotst.Prelude.{
  ◌≡◌, refl, Bool, true, ◌↔◌, List, [], ◌∷◌, ◌++◌, Option, none, some, Text, text, text_eq,
  text_beq, ◌==◌, contains, All, if◌then◌else◌,
}
use gotst.Go.Strings.{has_prefix}
use gotst.TestCache.Data.{
  FileDependency, CacheDependency, TestCacheKey, TestCacheEntry, Stored, absent,
}
use gotst.TestCache.Inputs.{environment_dependency, file_dependency, validate_dependencies}
use gotst.TestCache.Log.{
  dependency_key, deduplicate, deduplicate_dependencies, cut_space, path_within_root, log_lines,
  parse_test_log,
}
use gotst.TestCache.InputLaws.{Unchanged, validate_dependencies-All}
use gotst.TestCache.LogLaws.{parse_test_log-validate_dependencies}
use gotst.TestCache.Unique.{DistinctKeys, last_with, deduplicate_dependencies-last_with}

abbrev env : Text → Option Text
env name = if name == text "HOME" then some (text "/root") else none

abbrev hash : Text → Text
hash v = text "#" ++ v

abbrev fingerprint : Text → Bool → Option FileDependency
fingerprint path content = some (record {
  exists = true;
  error = [];
  stat = none;
  lstat = none;
  content_sha256 = [];
  directory_sha256 = [];
  fingerprint_sha256 = hash path;
})

abbrev clean : Text → Text
clean p = p

abbrev rel : Text → Text → Option Text
rel root path = if has_prefix path root then some (text "in") else none

abbrev lines : List Text
lines =
    text "# test log"
    ∷ text "getenv HOME"
    ∷ text "open /src/p/data"
    ∷ text "stat /tmp/x"
    ∷ text "getenv HOME"
    ∷ []

abbrev deps : List CacheDependency
deps =
    environment_dependency env hash fingerprint (text "GODEBUG")
    ∷ file_dependency env hash fingerprint (text "open") (text "/src/p/data") (text "/src/p/data")
        (record {
          exists = true;
          error = [];
          stat = none;
          lstat = none;
          content_sha256 = [];
          directory_sha256 = [];
          fingerprint_sha256 = text "#/src/p/data";
        })
    ∷ environment_dependency env hash fingerprint (text "HOME")
    ∷ []

lines_parsed :
    parse_test_log clean rel env hash fingerprint (text "/src") (text "/src/p") lines ≡ some deps
unfolding parse_test_log log_lines cut_space path_within_root has_prefix environment_dependency
    deduplicate_dependencies deduplicate dependency_key contains text_beq
lines_parsed = refl

parse_test_log-validate_dependencies_example :
    validate_dependencies env hash fingerprint deps ≡ some true
parse_test_log-validate_dependencies_example =
    parse_test_log-validate_dependencies env hash fingerprint clean rel (text "/src")
      (text "/src/p") lines deps lines_parsed

validate_dependencies-All_example :
    (validate_dependencies env hash fingerprint deps ≡ some true)
    ↔ All (Unchanged env hash fingerprint) deps
validate_dependencies-All_example = validate_dependencies-All env hash fingerprint deps

deduplicate_dependencies-last_with_example :
    DistinctKeys (deduplicate_dependencies (deps ++ deps))
    × ((k : Text)
        → last_with k (deduplicate_dependencies (deps ++ deps)) ≡ last_with k (deps ++ deps))
deduplicate_dependencies-last_with_example = deduplicate_dependencies-last_with (deps ++ deps)

abbrev key : Text → TestCacheKey
key test = record {
  binary_sha256 = text "abc";
  package_path = text "p";
  test = test;
  working_dir = text "/src/p";
  args = [];
}

abbrev passed : TestCacheEntry
passed = record {
  version = 2;
  key = key (text "TestA");
  created = 0;
  passed_in = 5;
  dependencies = deps;
}

abbrev path : TestCacheKey → Text
path k = k.binary_sha256 ++ text "/" ++ k.test

abbrev empty : TestCacheKey → Stored
empty k = absent
