-- ===== src/Profile/Normal.antt =====
-- profile.go: the lists of a resolved profile, and the determinism of the declarative reading.
use gotst.Prelude.{
  ◌≡◌, sym, subst, ◌∙◌, false, List, [], ◌∷◌, arith, Text, text, text_eq, is_empty, contains,
  if◌then◌else◌,
}
use gotst.Profile.Data.{
  RawProfile, RunProfile, Profiles, ParsedDuration, Outcome, ok, empty_profile, >>=-eq-ok,
}
use gotst.Profile.Merge.{merge_run_profile, merge_raw_profile}
use gotst.Profile.Visit.{resolve_profile, resolve}
use gotst.Profile.Unique.{Distinct, Distinct-append_unique}
use gotst.Profile.Spec.{Ensures, Resolves, profile, Includes, end, more, IsGenuine}
use gotst.Profile.Soundness.{resolve_profile-Ensures}

pub record IsNormal (p : RunProfile) : Type 0 where
  pub packages : Distinct p.packages
  pub exclude_packages : Distinct p.exclude_packages
  pub tags : Distinct p.tags
  pub test_flags : Distinct p.test_flags

merge_run_profile-IsNormal :
    (dst src : RunProfile) → IsNormal dst → IsNormal (merge_run_profile dst src)
unfolding merge_run_profile
merge_run_profile-IsNormal dst src v = record {
  packages = Distinct-append_unique dst.packages src.packages v.packages;
  exclude_packages =
      Distinct-append_unique dst.exclude_packages src.exclude_packages v.exclude_packages;
  tags = Distinct-append_unique dst.tags src.tags v.tags;
  test_flags = Distinct-append_unique dst.test_flags src.test_flags v.test_flags;
}

-- The last steps of `resolve`.
with_default :
    (q : RunProfile) (root chosen : Text) (p : RunProfile)
    → IsNormal q
    → ◌≡◌ {A = Outcome RunProfile}
        (ok (record q {
          name = chosen;
          root = root;
          packages = if is_empty q.packages then text "./..." ∷ [] else q.packages;
        }))
        (ok p)
    → IsNormal p × (is_empty p.packages ≡ false) × (p.root ≡ root) × (p.name ≡ chosen)
unfolding contains
with_default q root chosen p v h = ground arith

module _ (parse_duration : Text → ParsedDuration) where
  merge_raw_profile-IsNormal :
      (dst : RunProfile) (src : RawProfile) (out : RunProfile)
      → IsNormal dst
      → merge_raw_profile parse_duration dst src ≡ ok out
      → IsNormal out
  unfolding merge_raw_profile
  merge_raw_profile-IsNormal dst src out v h = record {
    packages = ground (arith, Distinct-append_unique dst.packages src.packages v.packages);
    exclude_packages = ground (
      arith,
      Distinct-append_unique dst.exclude_packages src.exclude_packages v.exclude_packages,
    );
    tags = ground (arith, Distinct-append_unique dst.tags src.tags v.tags);
    test_flags = ground (arith, Distinct-append_unique dst.test_flags src.test_flags v.test_flags);
  }

  module _ (profiles : Profiles) where
    mutual
      Resolves-IsNormal :
          {n : Text} {p : RunProfile} → Resolves parse_duration profiles n p → IsNormal p
      Resolves-IsNormal {p = p} (profile raw acc known includes merged) =
          merge_raw_profile-IsNormal acc raw p
            (Includes-IsNormal includes
              (record { packages = tt; exclude_packages = tt; tags = tt; test_flags = tt }))
            merged

      Includes-IsNormal :
          {l : List Text} {out acc : RunProfile}
          → Includes parse_duration profiles l out acc
          → IsNormal out
          → IsNormal acc
      Includes-IsNormal (end e) v = subst IsNormal (sym e) v
      Includes-IsNormal {out = out} (more p r rest) v =
          Includes-IsNormal rest (merge_run_profile-IsNormal out p v)

    mutual
      Resolves-unique :
          {n : Text} {p q : RunProfile}
          → Resolves parse_duration profiles n p
          → Resolves parse_duration profiles n q
          → p ≡ q
      Resolves-unique (profile raw acc known includes merged)
            (profile raw' acc' known' includes' merged') =
          let same : raw' ≡ raw = cc in
          let accs : acc ≡ acc' = Includes-unique includes (
            subst
              (λ (x : RawProfile). Includes parse_duration profiles x.includes empty_profile acc')
              same includes') in
          cc (same, accs)

      Includes-unique :
          {l : List Text} {out acc acc' : RunProfile}
          → Includes parse_duration profiles l out acc
          → Includes parse_duration profiles l out acc'
          → acc ≡ acc'
      Includes-unique (end e) (end e') = e ∙ sym e'
      Includes-unique {out = o} {acc' = a'} (more {rest = l} p r rest) (more p' r' rest') =
          Includes-unique rest (
            subst (λ x. Includes parse_duration profiles l (merge_run_profile o x) a')
              (sym (Resolves-unique r r')) rest')

    -- A profile that resolves has just one declarative resolution, which is the result.
    pub resolve_profile-exact :
        (name : Text) (p q : RunProfile)
        → resolve_profile parse_duration profiles name ≡ ok p
        → Resolves parse_duration profiles name q
        → p ≡ q
    resolve_profile-exact name p q h r =
        Resolves-unique
          (subst
            (Ensures (Resolves parse_duration profiles name) (IsGenuine parse_duration profiles)) h
            (resolve_profile-Ensures parse_duration profiles name))
          r

    -- In what resolve returns no list has a repeated or an empty entry, there is a package
    -- pattern, the root is the one given, and the name is the one given, or default for an empty
    -- name.
    pub resolve-IsNormal :
        (root name : Text) (p : RunProfile)
        → resolve parse_duration profiles root name ≡ ok p
        → IsNormal p
          × (is_empty p.packages ≡ false)
          × (p.root ≡ root)
          × (p.name ≡ (if is_empty name then text "default" else name))
    unfolding resolve
    resolve-IsNormal root name p h =
        let (q, found, rest) = >>=-eq-ok (resolve_profile parse_duration profiles _) _ h in
        let v : IsNormal q = Resolves-IsNormal (
          subst
            (Ensures
              (Resolves parse_duration profiles (if is_empty name then text "default" else name))
              (IsGenuine parse_duration profiles))
            found
            (resolve_profile-Ensures parse_duration profiles
              (if is_empty name then text "default" else name))) in
        with_default q root (if is_empty name then text "default" else name) p v rest
