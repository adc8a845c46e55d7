-- ===== src/Profile/Termination.antt =====
-- profile.go: the fuel of `visit`, measured by the profiles that are not being visited.
use gotst.Prelude.{
  ℕ, ◌+◌, ◌≤◌, ◌<◌, ◌≡◌, false, List, [], ◌∷◌, ◌++◌, some, arith, Text, text_eq, text_beq,
  text_beq_iff, contains, contains-append, lookup, length, Bool-cases, inl, inr, if◌then◌else◌,
}
use gotst.Profile.Data.{RawProfile, Profiles}

-- The names that may still be entered, which bound the depth of the calls.
abbrev pub free : Profiles → List Text → ℕ
free [] s = 0
free ((n, raw) ∷ ps) s = (if contains s n then 0 else 1) + free ps s

pub free-le-length : (ps : Profiles) (s : List Text) → free ps s ≤ length ps
free-le-length [] s = omega arith
free-le-length ((n, raw) ∷ ps) s = ground (arith, free-le-length ps s)

free-snoc-le : (ps : Profiles) (s : List Text) (cur : Text) → free ps (s ++ cur ∷ []) ≤ free ps s
free-snoc-le [] s cur = omega arith
free-snoc-le ((n, raw) ∷ ps) s cur =
    ground (arith, free-snoc-le ps s cur, contains-append s (cur ∷ []) n)

pub free-snoc-lt :
    (ps : Profiles) (s : List Text) (cur : Text) (raw : RawProfile)
    → lookup cur ps ≡ some raw
    → contains s cur ≡ false
    → free ps (s ++ cur ∷ []) < free ps s
unfolding lookup contains
free-snoc-lt [] s cur raw h k = ground arith
free-snoc-lt ((n, other) ∷ ps) s cur raw h k = elim (Bool-cases (text_beq n cur)) [
  | inl same ↦
      rw (contains-append s (cur ∷ []) n, (text_beq_iff n cur).0 same, k)
        (ground (arith, free-snoc-le ps s cur, text_beq_iff cur cur))
  | inr differ ↦ ground (arith, free-snoc-lt ps s cur raw, contains-append s (cur ∷ []) n)
]
