-- ===== src/TestCache/Log.antt =====
-- testcache.go: parseTestLog on the lines of the log, and deduplicateDependencies.
use gotst.Prelude.{
  Bool, true, false, not, ◌&&◌, List, [], ◌∷◌, ◌++◌, Option, none, some, Text, text, text_eq,
  is_empty, contains, ◌==◌, eqb, if◌then◌else◌, ◌>>=◌,
}
use gotst.Go.Strings.{has_prefix}
use gotst.TestCache.Data.{FileDependency, CacheDependency}
use gotst.TestCache.Inputs.{environment_dependency, file_dependency, is_file_operation}

-- `dep.Operation + "\x00" + dep.Name + "\x00" + dep.Path`
unfoldable pub dependency_key : CacheDependency → Text
dependency_key d = d.operation ++ (0 ∷ []) ++ d.name ++ (0 ∷ []) ++ d.path

-- The loop over `slices.Backward(deps)` with `slices.Reverse`: what stands behind is decided first.
unfoldable pub deduplicate : List CacheDependency → List Text × List CacheDependency
deduplicate [] = ([], [])
deduplicate (d ∷ deps) =
    let rest = deduplicate deps in
    if contains rest.0 (dependency_key d) then rest else (dependency_key d ∷ rest.0, d ∷ rest.1)

unfoldable pub deduplicate_dependencies : List CacheDependency → List CacheDependency
unfolding deduplicate
deduplicate_dependencies deps = (deduplicate deps).1

-- `strings.Cut(line, " ")`
unfoldable pub cut_space : Text → Option (Text × Text)
cut_space [] = none
cut_space (c ∷ s) =
    let rest = cut_space s in
    if eqb c b' ' then some ([], s) else elim rest [ none ↦ none | some (a, b) ↦ some (c ∷ a, b) ]

abbrev pub is_abs : Text → Bool
is_abs s = has_prefix s (text "/")

-- `clean` is `filepath.Clean`, and `rel` is `filepath.Rel`.
module _ (clean : Text → Text) (rel : Text → Text → Option Text) where
  unfoldable pub path_within_root : Text → Text → Bool
  path_within_root path root = if is_empty root then false else elim (rel root path) [
    | none ↦ false
    | some r ↦ not (r == text "..") && not (has_prefix r (text "../"))
  ]

  -- `filepath.Join` of two names that are not empty, and cleaned.
  abbrev pub resolve_path : Text → Text → Text
  resolve_path pwd name =
      if is_abs name then clean name else clean (clean (pwd ++ text "/" ++ name))

  module _ (env : Text → Option Text) (hash : Text → Text)
      (fingerprint : Text → Bool → Option FileDependency) (package_root : Text) where
    -- The loop over the lines, with the directory so far; the dependencies that follow.
    unfoldable pub log_lines : Text → List Text → Option (List CacheDependency)
    log_lines pwd [] = some []
    log_lines pwd (line ∷ lines) = do
      cut ← cut_space line
      let path = resolve_path pwd cut.1
      elim (is_empty cut.1) [
        | true ↦ none
        | false ↦ elim (cut.0 == text "getenv") [
          | true ↦ do
            rest ← log_lines pwd lines
            some (environment_dependency env hash fingerprint cut.1 ∷ rest)
          | false ↦ elim (is_file_operation cut.0) [
            | false ↦ none
            | true ↦
                elim (not (cut.0 == text "chdir") && not (path_within_root path package_root)) [
                  | true ↦ log_lines pwd lines
                  | false ↦ do
                    fd ← fingerprint path (cut.0 == text "open")
                    rest ← log_lines (if cut.0 == text "chdir" then path else pwd) lines
                    some (file_dependency env hash fingerprint cut.0 cut.1 path fd ∷ rest)
                ]
          ]
        ]
      ]

    unfoldable pub parse_test_log : Text → List Text → Option (List CacheDependency)
    unfolding log_lines deduplicate_dependencies
    parse_test_log work_dir [] = none
    parse_test_log work_dir (header ∷ lines) =
        if not (header == text "# test log") then none else do
          deps ← log_lines work_dir lines
          let godebug = environment_dependency env hash fingerprint (text "GODEBUG")
          some (deduplicate_dependencies (godebug ∷ deps))
