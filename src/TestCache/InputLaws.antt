-- ===== src/TestCache/InputLaws.antt =====
-- testcache.go: what dependenciesEqual compares, and when the inputs of a test are valid.
use gotst.Prelude.{
  ◌≡◌, refl, Bool, true, false, List, [], ◌∷◌, Option, none, some, arith, Text, text_eq, is_empty,
  ==_refl, All, Bool-cases, Option-cases, inl, inr, ◌>>=◌, ◌↔◌,
}
use gotst.TestCache.Data.{FileDependency, CacheDependency}
use gotst.TestCache.Inputs.{
  dependencies_equal, same_present, same_file, current_dependency, changed_dependencies,
  validate_dependencies,
}

same_present_refl : (p : Option Bool) → same_present p p ≡ true
same_present_refl none = refl
same_present_refl (some true) = refl
same_present_refl (some false) = refl

same_file_refl : (f : Option FileDependency) → same_file f f ≡ true
same_file_refl none = refl
same_file_refl (some f) = ==_refl f.fingerprint_sha256

pub dependencies_equal_refl : (d : CacheDependency) → dependencies_equal d d ≡ true
unfolding dependencies_equal
dependencies_equal_refl d = ground (
  arith,
  ==_refl d.operation,
  ==_refl d.name,
  ==_refl d.path,
  ==_refl d.value_sha256,
  same_present_refl d.present,
  same_file_refl d.file,
)

no_changes :
    (m : Option (List CacheDependency))
    → (m >>= λ changes. some (is_empty changes)) ≡ some true
    → m ≡ some []
no_changes none h = ground arith
no_changes (some []) h = refl
no_changes (some (d ∷ deps)) h = ground arith

module _ (env : Text → Option Text) (hash : Text → Text)
    (fingerprint : Text → Bool → Option FileDependency) where
  -- A dependency is unchanged if it can be read again, and is the same then.
  abbrev pub Unchanged : CacheDependency → Type 0
  Unchanged d =
      (c : CacheDependency) × (current_dependency env hash fingerprint d ≡ some c)
      × (dependencies_equal d c ≡ true)

  changed_dependencies-All :
      (deps : List CacheDependency)
      → changed_dependencies env hash fingerprint deps ≡ some []
      → All Unchanged deps
  unfolding changed_dependencies
  changed_dependencies-All [] h = tt
  changed_dependencies-All (d ∷ deps) h =
      elim (Option-cases (current_dependency env hash fingerprint d)) [
        | inl e ↦ absurd (ground arith)
        | inr (c, e) ↦ elim (Bool-cases (dependencies_equal d c)) [
          | inl same ↦ ((c, e, same), changed_dependencies-All deps (ground arith))
          | inr other ↦ absurd (ground arith)
        ]
      ]

  All-changed_dependencies :
      (deps : List CacheDependency)
      → All Unchanged deps
      → changed_dependencies env hash fingerprint deps ≡ some []
  unfolding changed_dependencies
  All-changed_dependencies [] h = refl
  All-changed_dependencies (d ∷ deps) h =
      let (c, e, same) = h.0 in let rest = All-changed_dependencies deps h.1 in ground arith

  -- Dependencies are valid if and only if each can be read again and is equal to what is read.
  pub validate_dependencies-All :
      (deps : List CacheDependency)
      → (validate_dependencies env hash fingerprint deps ≡ some true) ↔ All Unchanged deps
  unfolding validate_dependencies
  validate_dependencies-All deps = (
    (λ h. changed_dependencies-All deps (no_changes _ h)),
    (λ h. let e = All-changed_dependencies deps h in ground arith),
  )
