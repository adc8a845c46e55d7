-- ===== src/Invocation/Laws.antt =====
-- invocation.go: what the arguments select.
use gotst.Prelude.{
  ◌≡◌, ◌∙◌, Bool, true, false, not, ◌&&◌, ◌||◌, List, [], ◌∷◌, ◌++◌, filter, none, some, arith,
  Text, text, text_eq, text_beq_iff, ◌==◌, is_empty, is_some, contains, eqb_iff, Bool-cases,
  Option-cases, inl, inr,
}
use gotst.Profile.{append_unique}
use gotst.Profile.Unique.{contains-append_unique}
use gotst.Invocation.Data.{
  QualifiedTest, TestSelection, active, qualifies, requested_names, wants, package_tests,
  package_tests_onto, describe_missing,
}
use gotst.Invocation.Parse.{add_qualified, last_dot, is_test_name, split_qualified_test, sort_args}

last_dot-append :
    (s before after : Text) → last_dot s ≡ some (before, after) → s ≡ before ++ text "." ++ after
unfolding last_dot
last_dot-append [] before after h = ground arith
last_dot-append (c ∷ s) before after h = elim (Option-cases (last_dot s)) [
  | inl e ↦ ground (arith, eqb_iff c 46)
  | inr ((p, t), e) ↦ ground (arith, last_dot-append s p t e)
]

contains_one : (x k : Text) → contains (x ∷ []) k ≡ (x == k)
unfolding contains
contains_one x k = ground arith

package_tests_onto-contains :
    (ret : List Text) (qs : List QualifiedTest) (pkg test : Text)
    → contains (package_tests_onto ret qs pkg) test
      ≡ (contains ret test || (not (is_empty test) && qualifies qs pkg test))
unfolding package_tests_onto qualifies
package_tests_onto-contains ret [] pkg test = ground arith
package_tests_onto-contains ret (q ∷ qs) pkg test = elim (Bool-cases (q.package_path == pkg)) [
  | inl e ↦ rw e (
      package_tests_onto-contains (append_unique ret (q.name ∷ [])) qs pkg test
      ∙ ground (
        arith,
        contains-append_unique ret (q.name ∷ []) test,
        contains_one q.name test,
        text_beq_iff q.name test,
      ))
  | inr e ↦ rw e (package_tests_onto-contains ret qs pkg test)
]

-- A test with a nonempty name is wanted if and only if nothing is selected, its name is an
-- unqualified test, or it is among the tests of its package.
pub wants-package_tests :
    (s : TestSelection) (pkg test : Text)
    → is_empty test ≡ false
    → wants s pkg test
      ≡ (not (active s) || contains s.unqualified test || contains (package_tests s pkg) test)
unfolding wants package_tests contains
wants-package_tests s pkg test h =
    ground (arith, package_tests_onto-contains [] s.qualified pkg test)

-- Where an argument is split, it is the package, a dot and the test, the package is not empty, and
-- the test is a test's name.
pub split_qualified_test-append :
    (is_identifier : Text → Bool) (arg pkg test : Text)
    → split_qualified_test is_identifier arg ≡ some (pkg, test)
    → (arg ≡ pkg ++ text "." ++ test)
      × (is_empty pkg ≡ false)
      × (is_test_name is_identifier test ≡ true)
unfolding split_qualified_test
split_qualified_test-append is_identifier arg pkg test h = elim (Option-cases (last_dot arg)) [
  | inl e ↦ ground arith
  | inr ((p, t), e) ↦
      let joined = last_dot-append arg p t e in (ground (arith, joined), ground arith, ground arith)
]

-- Where an argument goes.
abbrev pub is_package : (Text → Bool) → Text → Bool
is_package is_identifier arg =
    not (is_test_name is_identifier arg) && not (is_some (split_qualified_test is_identifier arg))

module _ (is_identifier : Text → Bool) where
  sort_args-test :
      (packages : List Text) (tests : TestSelection) (arg : Text) (args : List Text)
      → is_test_name is_identifier arg ≡ true
      → sort_args is_identifier packages tests (arg ∷ args)
        ≡ sort_args is_identifier packages
            (record tests { unqualified = append_unique tests.unqualified (arg ∷ []) })
            args
  unfolding sort_args
  sort_args-test packages tests arg args e = ground arith

  sort_args-package :
      (packages : List Text) (tests : TestSelection) (arg : Text) (args : List Text)
      → is_test_name is_identifier arg ≡ false
      → split_qualified_test is_identifier arg ≡ none
      → sort_args is_identifier packages tests (arg ∷ args)
        ≡ sort_args is_identifier (append_unique packages (arg ∷ [])) tests args
  unfolding sort_args
  sort_args-package packages tests arg args e o = ground arith

  sort_args-qualified :
      (packages : List Text) (tests : TestSelection) (arg : Text) (args : List Text)
      (q : Text × Text)
      → is_test_name is_identifier arg ≡ false
      → split_qualified_test is_identifier arg ≡ some q
      → sort_args is_identifier packages tests (arg ∷ args)
        ≡ sort_args is_identifier packages
            (record tests { qualified = add_qualified tests.qualified q.0 q.1 })
            args
  unfolding sort_args
  sort_args-qualified packages tests arg args q e o = ground arith

  -- The packages and the unqualified tests of a result, at one text.
  abbrev pub Sorts :
      List Text → TestSelection → List Text → Text → List Text × TestSelection → Type 0
  Sorts packages tests args k r =
      (contains r.0 k ≡ (
        contains packages k || (not (is_empty k) && contains args k && is_package is_identifier k)))
      × (contains r.1.unqualified k ≡ (
          contains tests.unqualified k
          || (not (is_empty k) && contains args k && is_test_name is_identifier k)))

  -- The packages of a command line are, besides those given, just its nonempty arguments that are
  -- neither a test's name nor split as a package and a test's name, and its unqualified tests just
  -- the nonempty arguments that are a test's name.
  pub sort_args-Sorts :
      (packages : List Text) (tests : TestSelection) (args : List Text) (k : Text)
      → Sorts packages tests args k (sort_args is_identifier packages tests args)
  unfolding contains
  sort_args-Sorts packages tests [] k = unfold sort_args in (ground arith, ground arith)
  sort_args-Sorts packages tests (arg ∷ args) k =
      elim (Bool-cases (is_test_name is_identifier arg)) [
        | inl e ↦
            let tests' = record tests {
              unqualified = append_unique tests.unqualified (arg ∷ []);
            } in
            let rest = sort_args-Sorts packages tests' args k in
            rw (sort_args-test packages tests arg args e) (
              ground (arith, rest.0, text_beq_iff arg k),
              ground (
                arith,
                rest.1,
                contains-append_unique tests.unqualified (arg ∷ []) k,
                contains_one arg k,
                text_beq_iff arg k,
              ),
            )
        | inr e ↦ elim (Option-cases (split_qualified_test is_identifier arg)) [
          | inl o ↦
              let rest = sort_args-Sorts (append_unique packages (arg ∷ [])) tests args k in
              rw (sort_args-package packages tests arg args e o) (
                ground (
                  arith,
                  rest.0,
                  contains-append_unique packages (arg ∷ []) k,
                  contains_one arg k,
                  text_beq_iff arg k,
                ),
                ground (arith, rest.1, text_beq_iff arg k),
              )
          | inr (q, o) ↦
              let tests' = record tests { qualified = add_qualified tests.qualified q.0 q.1 } in
              let rest = sort_args-Sorts packages tests' args k in
              rw (sort_args-qualified packages tests arg args q e o) (
                ground (arith, rest.0, text_beq_iff arg k),
                ground (arith, rest.1, text_beq_iff arg k),
              )
        ]
      ]

filter-is_empty :
    (found names : List Text)
    → is_empty (filter (λ name. not (contains found name)) names) ≡ true
    → (k : Text) → contains names k ≡ true
    → contains found k ≡ true
unfolding contains
filter-is_empty found [] h k p = ground arith
filter-is_empty found (x ∷ xs) h k p =
    ground (arith, filter-is_empty found xs (ground arith) k, text_beq_iff x k)

-- Where describeMissing gives no error, every requested name is among the found ones.
pub describe_missing-none :
    (s : TestSelection) (found : List Text)
    → describe_missing s found ≡ none
    → (k : Text) → contains (requested_names s) k ≡ true
    → contains found k ≡ true
unfolding describe_missing
describe_missing-none s found h k p = filter-is_empty found (requested_names s) (ground arith) k p
