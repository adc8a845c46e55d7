-- ===== src/TestCache/Inputs.antt =====
-- testcache.go: the inputs of a test, compared with what they are now. The environment, the hash and
-- the fingerprints of files are parameters; a fingerprint that fails is `none`.
use gotst.Prelude.{
  Bool, true, false, not, ◌&&◌, ◌||◌, List, [], ◌∷◌, Option, none, some, Text, text, text_eq,
  is_empty, is_some, ◌==◌, if◌then◌else◌, ◌>>=◌,
}
use gotst.TestCache.Data.{FileDependency, CacheDependency}

abbrev pub same_present : Option Bool → Option Bool → Bool
same_present none none = true
same_present none (some b) = false
same_present (some a) none = false
same_present (some true) (some b) = b
same_present (some false) (some b) = not b

abbrev pub same_file : Option FileDependency → Option FileDependency → Bool
same_file none none = true
same_file none (some b) = false
same_file (some a) none = false
same_file (some a) (some b) = a.fingerprint_sha256 == b.fingerprint_sha256

unfoldable pub dependencies_equal : CacheDependency → CacheDependency → Bool
dependencies_equal a b =
    if not (a.operation == b.operation)
      || not (a.name == b.name)
      || not (a.path == b.path)
      || not (a.value_sha256 == b.value_sha256)
    then false
    else same_present a.present b.present && same_file a.file b.file

-- The bytes that `hashPresenceAndValue` hashes.
abbrev pub presence_and_value : Option Text → Text
presence_and_value none = 0 ∷ []
presence_and_value (some v) = 1 ∷ v

abbrev pub is_file_operation : Text → Bool
is_file_operation op = op == text "open" || op == text "stat" || op == text "chdir"

module _ (env : Text → Option Text) (hash : Text → Text)
    (fingerprint : Text → Bool → Option FileDependency) where
  unfoldable pub environment_dependency : Text → CacheDependency
  environment_dependency name = record {
    operation = text "getenv";
    name = name;
    path = [];
    present = some (is_some (env name));
    value_sha256 = hash (presence_and_value (env name));
    file = none;
  }

  -- A dependency on a file, by its current fingerprint.
  abbrev pub file_dependency : Text → Text → Text → FileDependency → CacheDependency
  file_dependency op name path fd = record {
    operation = op;
    name = name;
    path = path;
    present = none;
    value_sha256 = [];
    file = some fd;
  }

  unfoldable pub current_dependency : CacheDependency → Option CacheDependency
  unfolding environment_dependency
  current_dependency old =
      if old.operation == text "getenv"
      then some (environment_dependency old.name)
      else if not (is_file_operation old.operation)
      then none
      else do
        fd ← fingerprint old.path (old.operation == text "open")
        some (file_dependency old.operation old.name old.path fd)

  -- `changedDependencies`: the dependencies that changed, in place of their descriptions.
  unfoldable pub changed_dependencies : List CacheDependency → Option (List CacheDependency)
  changed_dependencies [] = some []
  changed_dependencies (old ∷ deps) = do
    current ← current_dependency old
    changes ← changed_dependencies deps
    some (if not (dependencies_equal old current) then old ∷ changes else changes)

  -- `validateDependencies`, `none` for an error.
  unfoldable pub validate_dependencies : List CacheDependency → Option Bool
  unfolding changed_dependencies
  validate_dependencies deps = do changes ← changed_dependencies deps; some (is_empty changes)
