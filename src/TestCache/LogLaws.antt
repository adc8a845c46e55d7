-- ===== src/TestCache/LogLaws.antt =====
-- testcache.go: parseTestLog and the validation of its dependencies.
use gotst.Prelude.{
  ◌≡◌, refl, Bool, true, false, not, ◌&&◌, List, [], ◌∷◌, Option, some, arith, Text, text, text_eq,
  text_beq, is_empty, contains, ◌==◌, if◌then◌else◌, All, Bool-cases, inl, inr, IfSome, IfSome-bind,
  IfSome-self, IfSome-eq,
}
use gotst.TestCache.Data.{FileDependency, CacheDependency}
use gotst.TestCache.Inputs.{
  current_dependency, validate_dependencies, environment_dependency, file_dependency,
  is_file_operation,
}
use gotst.TestCache.InputLaws.{Unchanged, dependencies_equal_refl, validate_dependencies-All}
use gotst.TestCache.Log.{
  dependency_key, deduplicate, deduplicate_dependencies, cut_space, path_within_root, resolve_path,
  log_lines, parse_test_log,
}

pub All-deduplicate :
    (P : CacheDependency → Type 0) (deps : List CacheDependency)
    → All P deps
    → All P (deduplicate deps).1
unfolding deduplicate
All-deduplicate P [] h = tt
All-deduplicate P (d ∷ deps) h =
    elim (Bool-cases (contains (deduplicate deps).0 (dependency_key d))) [
      | inl old ↦ rw old (All-deduplicate P deps h.1)
      | inr new ↦ rw new (h.0, All-deduplicate P deps h.1)
    ]

module _ (env : Text → Option Text) (hash : Text → Text)
    (fingerprint : Text → Bool → Option FileDependency) where
  environment_dependency-Unchanged :
      (name : Text)
      → Unchanged env hash fingerprint (environment_dependency env hash fingerprint name)
  environment_dependency-Unchanged name = (
    environment_dependency env hash fingerprint name,
    unfold current_dependency environment_dependency text_beq in refl,
    dependencies_equal_refl _,
  )

  file_dependency-Unchanged :
      (op name path : Text) (fd : FileDependency)
      → (op == text "getenv") ≡ false
      → is_file_operation op ≡ true
      → fingerprint path (op == text "open") ≡ some fd
      → Unchanged env hash fingerprint (file_dependency env hash fingerprint op name path fd)
  file_dependency-Unchanged op name path fd a b e = (
    file_dependency env hash fingerprint op name path fd,
    unfold current_dependency in ground arith,
    dependencies_equal_refl _,
  )

  module _ (clean : Text → Text) (rel : Text → Text → Option Text) (package_root : Text) where
    log_lines-Unchanged :
        (pwd : Text) (lines : List Text)
        → IfSome
            (All (Unchanged env hash fingerprint))
            (log_lines clean rel env hash fingerprint package_root pwd lines)
    unfolding log_lines
    log_lines-Unchanged pwd [] = tt
    log_lines-Unchanged pwd (line ∷ lines) =
        let Q = All (Unchanged env hash fingerprint) in
        IfSome-bind (λ c. cut_space line ≡ some c) Q (cut_space line) _
          (IfSome-self (cut_space line))
          (λ cut _.
            let path = resolve_path clean rel pwd cut.1 in
            elim (Bool-cases (is_empty cut.1)) [
              | inl e ↦ rw e tt
              | inr e ↦ rw e (elim (Bool-cases (cut.0 == text "getenv")) [
                | inl g ↦ rw g (
                    IfSome-bind Q Q
                      (log_lines clean rel env hash fingerprint package_root pwd lines) _
                      (log_lines-Unchanged pwd lines)
                      (λ rest p. (environment_dependency-Unchanged cut.1, p)))
                | inr g ↦ rw g (elim (Bool-cases (is_file_operation cut.0)) [
                  | inr other ↦ rw other tt
                  | inl file ↦
                      rw file
                        (elim (Bool-cases (
                          not (cut.0 == text "chdir")
                          && not (path_within_root clean rel path package_root))) [
                            | inl outside ↦ rw outside (log_lines-Unchanged pwd lines)
                            | inr within ↦ rw within (
                                IfSome-bind
                                  (λ fd. fingerprint path (cut.0 == text "open") ≡ some fd) Q
                                  (fingerprint path (cut.0 == text "open")) _
                                  (IfSome-self (fingerprint path (cut.0 == text "open")))
                                  (λ fd found.
                                    IfSome-bind Q Q _ _
                                      (log_lines-Unchanged
                                        (if cut.0 == text "chdir" then path else pwd) lines)
                                      (λ rest p. (
                                        file_dependency-Unchanged cut.0 cut.1 path fd g file found,
                                        p,
                                      ))))
                          ])
                ])
              ])
            ])

    -- The dependencies that a parsed test log gives are valid in the same environment and file
    -- system.
    pub parse_test_log-validate_dependencies :
        (work_dir : Text) (lines : List Text) (deps : List CacheDependency)
        → parse_test_log clean rel env hash fingerprint package_root work_dir lines ≡ some deps
        → validate_dependencies env hash fingerprint deps ≡ some true
    unfolding parse_test_log deduplicate_dependencies
    parse_test_log-validate_dependencies work_dir [] deps h = ground arith
    parse_test_log-validate_dependencies work_dir (header ∷ lines) deps h =
        elim (Bool-cases (header == text "# test log")) [
          | inr other ↦ absurd (ground arith)
          | inl e ↦
              let Q = All (Unchanged env hash fingerprint) in
              (validate_dependencies-All env hash fingerprint deps).1 (
                IfSome-eq Q
                  (parse_test_log clean rel env hash fingerprint package_root work_dir
                    (header ∷ lines))
                  deps h
                  (rw e (
                    IfSome-bind Q Q
                      (log_lines clean rel env hash fingerprint package_root work_dir lines) _
                      (log_lines-Unchanged work_dir lines)
                      (λ rest p.
                        All-deduplicate (Unchanged env hash fingerprint)
                          (environment_dependency env hash fingerprint (text "GODEBUG") ∷ rest)
                          (environment_dependency-Unchanged (text "GODEBUG"), p)))))
        ]
