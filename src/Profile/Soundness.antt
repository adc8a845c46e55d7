-- ===== src/Profile/Soundness.antt =====
-- profile.go: resolveProfile and its declarative reading.
use gotst.Prelude.{
  ℕ, zero, suc, ◌+◌, ◌<◌, ◌≡◌, ◌≢◌, refl, ap, sym, subst, ◌∙◌, true, false, List, [], ◌∷◌, ◌++◌,
  none, some, arith, Text, text_eq, text_beq, text_beq_iff, contains, lookup, insert, lookup-insert,
  length, Bool-cases, Option-cases, inl, inr,
}
use gotst.Profile.Data.{
  RawProfile, RunProfile, Profiles, ParsedDuration, ProfileError, Outcome, ok, err, out_of_fuel,
  unknown_profile, include_cycle, invalid_timeout, timeout_not_positive, empty_profile,
}
use gotst.Profile.Merge.{merge_run_profile, merge_raw_profile}
use gotst.Profile.Visit.{
  Visiting, names, from_first, drop_last, visit_includes, enter, visit_step, visit, resolve_profile,
}
use gotst.Go.Sort.{sort_texts}
use gotst.Profile.Spec.{
  Ensures, Ensures-bind, Ensures-map, Ensures-self, Resolves, profile, Includes, end, more, IsChain,
  IsGenuine,
}
use gotst.Profile.Cycles.{IsChain-snoc, from_first-cycle}
use gotst.Profile.Termination.{free, free-le-length, free-snoc-lt}

module _ (parse_duration : Text → ParsedDuration) (profiles : Profiles) where
  -- The profiles that are done are resolved as the declarative reading says.
  abbrev Settled : List (Text × RunProfile) → Type 0
  Settled done =
      (n : Text) (p : RunProfile) → lookup n done ≡ some p → Resolves parse_duration profiles n p

  abbrev Visited : List Text → Text → RunProfile × Visiting → Type 0
  Visited s cur r =
      Resolves parse_duration profiles cur r.0 × Settled r.1.resolved × (r.1.stack ≡ s)

  Settled-insert :
      (done : List (Text × RunProfile)) (cur : Text) (out : RunProfile)
      → Settled done
      → Resolves parse_duration profiles cur out
      → Settled (insert cur out done)
  Settled-insert done cur out s r n p h = elim (Bool-cases (text_beq cur n)) [
    | inl same ↦
        subst (λ x. Resolves parse_duration profiles x p) ((text_beq_iff cur n).0 same)
          (subst (λ x. Resolves parse_duration profiles cur x)
            (ground (arith, lookup-insert cur n out done)) r)
    | inr other ↦ s n p (ground (arith, lookup-insert cur n out done))
  ]

  drop_last-snoc : (s : List Text) (cur : Text) → drop_last (s ++ cur ∷ []) ≡ s
  unfolding drop_last
  drop_last-snoc [] cur = refl
  drop_last-snoc (a ∷ []) cur = refl
  drop_last-snoc (a ∷ b ∷ s) cur = ap (λ x. a ∷ x) (drop_last-snoc (b ∷ s) cur)

  module _ (s : List Text) (go : Visiting → Text → Outcome (RunProfile × Visiting))
      (go_lem : (st : Visiting) (inc : Text)
        → st.stack ≡ s
        → Settled st.resolved
        → IsChain profiles (s ++ inc ∷ [])
        → Ensures (Visited s inc) (IsGenuine parse_duration profiles) (go st inc)) where
    abbrev IncludesDone : List Text → RunProfile → RunProfile × Visiting → Type 0
    IncludesDone incs out r =
        Includes parse_duration profiles incs out r.0 × Settled r.1.resolved × (r.1.stack ≡ s)

    visit_includes-done :
        (out : RunProfile) (st : Visiting) (incs : List Text)
        → st.stack ≡ s
        → Settled st.resolved
        → ((inc : Text) → contains incs inc ≡ true → IsChain profiles (s ++ inc ∷ []))
        → Ensures
            (IncludesDone incs out)
            (IsGenuine parse_duration profiles)
            (visit_includes go out st incs)
    unfolding visit_includes
    visit_includes-done out st [] e d c = (end refl, d, e)
    visit_includes-done out st (inc ∷ rest) e d c =
        Ensures-bind (Visited s inc) (IncludesDone (inc ∷ rest) out)
          (IsGenuine parse_duration profiles) (go st inc)
          (λ r. visit_includes go (merge_run_profile out r.0) r.1 rest)
          (go_lem st inc e d (c inc (unfold contains in ground (arith, text_beq_iff inc inc))))
          (λ r v.
            Ensures-map (IncludesDone rest (merge_run_profile out r.0))
              (IncludesDone (inc ∷ rest) out) (IsGenuine parse_duration profiles)
              (visit_includes go (merge_run_profile out r.0) r.1 rest)
              (visit_includes-done (merge_run_profile out r.0) r.1 rest v.2 v.1
                (λ x h. c x (unfold contains in ground arith)))
              (λ q w. (more r.0 v.0 w.0, w.1, w.2)))

  merge_raw_profile-error :
      (dst : RunProfile) (src : RawProfile) (e : ProfileError)
      → merge_raw_profile parse_duration dst src ≡ err e
      → IsGenuine parse_duration profiles e
  unfolding merge_raw_profile
  merge_raw_profile-error dst src (unknown_profile n l) h = absurd (ground arith)
  merge_raw_profile-error dst src (include_cycle c) h = absurd (ground arith)
  merge_raw_profile-error dst src (invalid_timeout t) h = ground arith
  merge_raw_profile-error dst src (timeout_not_positive t) h = ground arith

  merge_raw_profile-fuel :
      (dst : RunProfile) (src : RawProfile) → merge_raw_profile parse_duration dst src ≢ out_of_fuel
  unfolding merge_raw_profile
  merge_raw_profile-fuel dst src h = ground arith

  merge_raw_profile-IsGenuine :
      (dst : RunProfile) (src : RawProfile)
      → Ensures
          (λ out. merge_raw_profile parse_duration dst src ≡ ok out)
          (IsGenuine parse_duration profiles)
          (merge_raw_profile parse_duration dst src)
  merge_raw_profile-IsGenuine dst src =
      Ensures-self (IsGenuine parse_duration profiles) (merge_raw_profile parse_duration dst src)
        (merge_raw_profile-error dst src) (λ h. merge_raw_profile-fuel dst src h)

  module _ (st : Visiting) (cur : Text) (raw : RawProfile)
      (go : Visiting → Text → Outcome (RunProfile × Visiting))
      (known : lookup cur profiles ≡ some raw) (chain : IsChain profiles (st.stack ++ cur ∷ []))
      (settled : Settled st.resolved) where
    enter-done :
        ((st' : Visiting) (inc : Text)
          → st'.stack ≡ st.stack ++ cur ∷ []
          → Settled st'.resolved
          → IsChain profiles ((st.stack ++ cur ∷ []) ++ inc ∷ [])
          → Ensures
              (Visited (st.stack ++ cur ∷ []) inc)
              (IsGenuine parse_duration profiles)
              (go st' inc))
        → Ensures
            (Visited st.stack cur)
            (IsGenuine parse_duration profiles)
            (enter parse_duration profiles go st cur raw)
    unfolding enter
    enter-done go_lem =
        Ensures-bind (IncludesDone (st.stack ++ cur ∷ []) go go_lem raw.includes empty_profile)
          (Visited st.stack cur) (IsGenuine parse_duration profiles) _ _
          (visit_includes-done (st.stack ++ cur ∷ []) go go_lem empty_profile
            (record st { stack = st.stack ++ cur ∷ [] }) raw.includes refl settled
            (λ inc h. IsChain-snoc profiles st.stack cur inc chain (raw, known, h)))
          (λ r v.
            Ensures-bind (λ out. merge_raw_profile parse_duration r.0 raw ≡ ok out)
              (Visited st.stack cur) (IsGenuine parse_duration profiles)
              (merge_raw_profile parse_duration r.0 raw) _ (merge_raw_profile-IsGenuine r.0 raw)
              (λ out e.
                let found = profile {n = cur} raw r.0 known v.0 e in
                (
                  found,
                  Settled-insert r.1.resolved cur out v.1 found,
                  ap drop_last v.2 ∙ drop_last-snoc st.stack cur,
                )))

  module _ (go : Visiting → Text → Outcome (RunProfile × Visiting)) (st : Visiting)
      (cur : Text) where
    visit_step-known :
        (p : RunProfile)
        → lookup cur st.resolved ≡ some p
        → visit_step parse_duration profiles go st cur ≡ ok (p, st)
    unfolding visit_step
    visit_step-known p e = ground arith

    visit_step-unknown :
        lookup cur st.resolved ≡ none
        → lookup cur profiles ≡ none
        → visit_step parse_duration profiles go st cur
          ≡ err (unknown_profile cur (sort_texts (names profiles)))
    unfolding visit_step
    visit_step-unknown e h = ground arith

    visit_step-again :
        (raw : RawProfile)
        → lookup cur st.resolved ≡ none
        → lookup cur profiles ≡ some raw
        → contains st.stack cur ≡ true
        → visit_step parse_duration profiles go st cur
          ≡ err (include_cycle (from_first cur st.stack ++ cur ∷ []))
    unfolding visit_step
    visit_step-again raw e h k = ground arith

    visit_step-enter :
        (raw : RawProfile)
        → lookup cur st.resolved ≡ none
        → lookup cur profiles ≡ some raw
        → contains st.stack cur ≡ false
        → visit_step parse_duration profiles go st cur ≡ enter parse_duration profiles go st cur raw
    unfolding visit_step
    visit_step-enter raw e h k = ground arith

  abbrev Good : Visiting → Text → Outcome (RunProfile × Visiting) → Type 0
  Good st cur r = Ensures (Visited st.stack cur) (IsGenuine parse_duration profiles) r

  visit-done :
      (fuel : ℕ) (st : Visiting) (cur : Text)
      → free profiles st.stack < fuel
      → Settled st.resolved
      → IsChain profiles (st.stack ++ cur ∷ [])
      → Good st cur (visit parse_duration profiles fuel st cur)
  unfolding visit
  visit-done zero st cur h d c = elim h [ ]
  visit-done (suc fuel) st cur h d c = elim (Option-cases (lookup cur st.resolved)) [
    | inr (p, e) ↦
        subst (Good st cur) (sym (visit_step-known (visit parse_duration profiles fuel) st cur p e))
          (d cur p e, d, refl)
    | inl fresh ↦ elim (Option-cases (lookup cur profiles)) [
      | inl e ↦
          subst (Good st cur)
            (sym (visit_step-unknown (visit parse_duration profiles fuel) st cur fresh e)) e
      | inr (raw, e) ↦ elim (Bool-cases (contains st.stack cur)) [
        | inl again ↦
            subst (Good st cur)
              (sym (visit_step-again (visit parse_duration profiles fuel) st cur raw fresh e again))
              (from_first-cycle profiles cur st.stack again c)
        | inr new ↦
            subst (Good st cur)
              (sym (visit_step-enter (visit parse_duration profiles fuel) st cur raw fresh e new))
              (enter-done st cur raw (visit parse_duration profiles fuel) e c d (λ st' inc s d' c'.
                subst
                  (λ x.
                    Ensures (Visited x inc) (IsGenuine parse_duration profiles)
                      (visit parse_duration profiles fuel st' inc))
                  s
                  (visit-done fuel st' inc
                    (rw s (omega (arith, free-snoc-lt profiles st.stack cur raw e new))) d'
                    (rw s c'))))
      ]
    ]
  ]

  -- For any profiles and name, resolution does not run out of fuel; its result is the declarative
  -- one, and an error names a profile that is not there, a real cycle of includes or a timeout
  -- that is refused.
  pub resolve_profile-Ensures :
      (name : Text)
      → Ensures
          (Resolves parse_duration profiles name)
          (IsGenuine parse_duration profiles)
          (resolve_profile parse_duration profiles name)
  unfolding resolve_profile lookup
  resolve_profile-Ensures name =
      Ensures-bind (Visited [] name) (Resolves parse_duration profiles name)
        (IsGenuine parse_duration profiles) _ _
        (visit-done (length profiles + 1) (record { resolved = []; stack = [] }) name
          (omega (arith, free-le-length profiles [])) (λ n p h. ground arith) tt)
        (λ r v. v.0)
