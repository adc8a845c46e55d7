-- ===== src/HistoryStore/Portable.antt =====
-- history.go: historyDependencies, portableHistoryPath and relativeWithin. SHA-256, filepath.Clean and
-- filepath.Rel are parameters.
use gotst.Prelude.{
  map, Bool, true, false, ◌&&◌, ◌||◌, List, [], ◌∷◌, ◌++◌, Option, none, some, Text, text, text_eq,
  ◌==◌, is_empty, take, if◌then◌else◌,
}
use Prim.Native.Nat.{Ordering}
use gotst.Go.Strings.{compare_text, has_prefix}
use gotst.Go.Sort.{sort_by}
use gotst.Go.Paths.{base}
use gotst.Go.Hex.{encode_to_string}
use gotst.History.{Dependency}
use gotst.TestCache.{CacheDependency}

-- The order of `slices.SortFunc` in `historyDependencies`: whether `a` is not behind `b`.
unfoldable pub dependency_before : Dependency → Dependency → Bool
dependency_before a b =
    let paths : Bool = elim (compare_text a.path b.path) [ Ordering.gt ↦ false | _ ↦ true ] in
    let names : Bool = elim (compare_text a.name b.name) [
      | Ordering.lt ↦ true
      | Ordering.eq ↦ paths
      | Ordering.gt ↦ false
    ] in
    elim (compare_text a.operation b.operation) [
      | Ordering.lt ↦ true
      | Ordering.eq ↦ names
      | Ordering.gt ↦ false
    ]

abbrev pub same_dependency : Dependency → Dependency → Bool
same_dependency a b = a.operation == b.operation && a.name == b.name && a.path == b.path

-- `slices.Compact` behind an element.
compact_from : Dependency → List Dependency → List Dependency
compact_from a [] = a ∷ []
compact_from a (b ∷ bs) = elim (same_dependency a b) [
  | true ↦ compact_from a bs
  | false ↦ a ∷ compact_from b bs
]

unfoldable pub compact : List Dependency → List Dependency
unfolding compact_from
compact [] = []
compact (a ∷ r) = compact_from a r

module _ (sha256 : Text → Text) (clean : Text → Text) (rel : Text → Text → Option Text) where
  -- `relativeWithin`; `none` is a false result.
  unfoldable pub relative_within : Text → Text → Option Text
  relative_within path root = if is_empty root then none else elim (rel root path) [
    | none ↦ none
    | some r ↦
        if r == text ".." || has_prefix r (text "../")
        then none
        else if r == text "."
        then some []
        else some r
  ]

  -- `portableHistoryPath`
  unfoldable pub portable_history_path : Text → Text → Text → Text
  unfolding relative_within
  portable_history_path raw package_dir module_root =
      let path = clean raw in
      elim (relative_within path package_dir) [
        | some r ↦ text "$PACKAGE/" ++ r
        | none ↦ elim (relative_within path module_root) [
          | some r ↦ text "$MODULE/" ++ r
          | none ↦
              text "$EXTERNAL/" ++ (encode_to_string (take 8 (sha256 path)) ++ (b'/' ∷ base path))
        ]
      ]

  -- The loop of `historyDependencies`
  unfoldable pub history_dependency : Text → Text → CacheDependency → Dependency
  unfolding portable_history_path
  history_dependency package_dir module_root dep = record {
    operation = dep.operation;
    name = if dep.operation == text "getenv" then dep.name else [];
    path = if is_empty dep.path then [] else portable_history_path dep.path package_dir module_root;
  }

  -- `historyDependencies`; `none` is nil.
  unfoldable pub history_dependencies :
      Option (List CacheDependency) → Text → Text → Option (List Dependency)
  unfolding history_dependency compact dependency_before sort_by
  history_dependencies none package_dir module_root = none
  history_dependencies (some deps) package_dir module_root =
      some (
        compact (sort_by dependency_before (map (history_dependency package_dir module_root) deps)))
