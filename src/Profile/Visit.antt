-- ===== src/Profile/Visit.antt =====
-- profile.go: resolveProfile and profileDefinitions.resolve. `visit` takes fuel; one unit for each
-- profile and one more are enough, since a profile that is being visited is not entered again.
use gotst.Prelude.{
  ℕ, zero, suc, ◌+◌, List, [], ◌∷◌, ◌++◌, none, some, Text, text, ◌==◌, if◌then◌else◌, contains,
  lookup, insert, length, is_empty, text_eq,
}
use gotst.Go.Sort.{sort_texts}
use gotst.Profile.Data.{
  RawProfile, RunProfile, Profiles, ParsedDuration, Outcome, ok, err, out_of_fuel, unknown_profile,
  include_cycle, empty_profile, ◌>>=◌,
}
use gotst.Profile.Merge.{merge_run_profile, merge_raw_profile}

-- The variables that the closure shares: the profiles done, and the stack of those being visited.
-- `visiting[n]` is true exactly for the names on the stack, so the stack stands for both.
pub record Visiting : Type 0 where
  pub resolved : List (Text × RunProfile)
  pub stack : List Text

abbrev pub names : Profiles → List Text
names [] = []
names ((n, p) ∷ ps) = n ∷ names ps

-- `stack[slices.Index(stack, cur):]`.
unfoldable pub from_first : Text → List Text → List Text
from_first cur [] = []
from_first cur (n ∷ ns) = if n == cur then n ∷ ns else from_first cur ns

-- `stack[:len(stack)-1]`.
unfoldable pub drop_last : List Text → List Text
drop_last [] = []
drop_last (n ∷ []) = []
drop_last (n ∷ m ∷ ns) = n ∷ drop_last (m ∷ ns)

-- The loop over `raw.Include`; `go` is the recursive call of `visit`.
unfoldable pub visit_includes :
    (Visiting → Text → Outcome (RunProfile × Visiting))
    → RunProfile
    → Visiting
    → List Text
    → Outcome (RunProfile × Visiting)
visit_includes go out st [] = ok (out, st)
visit_includes go out st (inc ∷ rest) = do
  r ← go st inc
  visit_includes go (merge_run_profile out r.0) r.1 rest

module _ (parse_duration : Text → ParsedDuration) (profiles : Profiles) where
  -- The body for a profile that is known and not being visited.
  unfoldable pub enter :
      (Visiting → Text → Outcome (RunProfile × Visiting))
      → Visiting
      → Text
      → RawProfile
      → Outcome (RunProfile × Visiting)
  enter go st cur raw = do
    r ← visit_includes go empty_profile (record st { stack = st.stack ++ cur ∷ [] }) raw.includes
    out ← merge_raw_profile parse_duration r.0 raw
    ok (out, record { resolved = insert cur out r.1.resolved; stack = drop_last r.1.stack })

  unfoldable pub visit_step :
      (Visiting → Text → Outcome (RunProfile × Visiting))
      → Visiting
      → Text
      → Outcome (RunProfile × Visiting)
  unfolding enter
  visit_step go st cur = elim (lookup cur st.resolved) [
    | some p ↦ ok (p, st)
    | none ↦ elim (lookup cur profiles) [
      | none ↦ err (unknown_profile cur (sort_texts (names profiles)))
      | some raw ↦
          if contains st.stack cur
          then err (include_cycle (from_first cur st.stack ++ cur ∷ []))
          else enter go st cur raw
    ]
  ]

  unfoldable pub visit : ℕ → Visiting → Text → Outcome (RunProfile × Visiting)
  unfolding visit_step
  visit zero st cur = out_of_fuel
  visit (suc fuel) st cur = visit_step (visit fuel) st cur

  unfoldable pub resolve_profile : Text → Outcome RunProfile
  unfolding visit
  resolve_profile name = do
    r ← visit (length profiles + 1) (record { resolved = []; stack = [] }) name
    ok r.0

  -- `profileDefinitions.resolve`: the default name, and the default package set.
  unfoldable pub resolve : Text → Text → Outcome RunProfile
  unfolding resolve_profile
  resolve root name =
      let chosen = if is_empty name then text "default" else name in
      do
        p ← resolve_profile chosen
        let packages = if is_empty p.packages then text "./..." ∷ [] else p.packages
        ok (record p { name = chosen; root = root; packages = packages })
