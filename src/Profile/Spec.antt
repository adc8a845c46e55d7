-- ===== src/Profile/Spec.antt =====
-- profile.go: the declarative reading of resolveProfile, where a profile is its includes merged in
-- order and then its own keys, with no memory of what is done and no stack; and what its errors say.
use gotst.Prelude.{
  ◌≡◌, ◌≢◌, refl, true, List, [], ◌∷◌, ◌++◌, none, some, Text, text_eq, contains, lookup,
}
use gotst.Profile.Data.{
  RawProfile, RunProfile, Profiles, ParsedDuration, ProfileError, Outcome, ok, err, out_of_fuel,
  unknown_profile, include_cycle, invalid_timeout, timeout_not_positive, empty_profile,
  bad_duration, not_positive, ◌>>=◌,
}
use gotst.Profile.Merge.{merge_run_profile, merge_raw_profile}

-- A result with property `P`, or an error with property `E`; never without fuel.
abbrev pub Ensures : {A : Type 0} → (A → Type 0) → (ProfileError → Type 0) → Outcome A → Type 0
Ensures P E (ok a) = P a
Ensures P E (err e) = E e
Ensures P E out_of_fuel = ⊥

pub Ensures-bind :
    {A B : Type 0} (P : A → Type 0) (Q : B → Type 0) (E : ProfileError → Type 0) (m : Outcome A)
    (f : A → Outcome B)
    → Ensures P E m
    → ((a : A) → P a → Ensures Q E (f a))
    → Ensures Q E (m >>= f)
Ensures-bind P Q E (ok a) f h k = k a h
Ensures-bind P Q E (err e) f h k = h
Ensures-bind P Q E out_of_fuel f h k = h

pub Ensures-map :
    {A : Type 0} (P Q : A → Type 0) (E : ProfileError → Type 0) (m : Outcome A)
    → Ensures P E m
    → ((a : A) → P a → Q a)
    → Ensures Q E m
Ensures-map P Q E (ok a) h k = k a h
Ensures-map P Q E (err e) h k = h
Ensures-map P Q E out_of_fuel h k = h

pub Ensures-self :
    {A : Type 0} (E : ProfileError → Type 0) (m : Outcome A)
    → ((e : ProfileError) → m ≡ err e → E e)
    → m ≢ out_of_fuel
    → Ensures (λ a. m ≡ ok a) E m
Ensures-self E (ok a) h k = refl
Ensures-self E (err e) h k = h e refl
Ensures-self E out_of_fuel h k = k refl

module _ (profiles : Profiles) where
  -- The profile `a` is there and lists `b` among its includes.
  abbrev pub Lists : Text → Text → Type 0
  Lists a b = (raw : RawProfile) × (lookup a profiles ≡ some raw) × (contains raw.includes b ≡ true)

  -- Each profile lists the next one.
  abbrev pub IsChain : List Text → Type 0
  IsChain [] = Unit
  IsChain (a ∷ []) = Unit
  IsChain (a ∷ b ∷ r) = Lists a b × IsChain (b ∷ r)

module _ (parse_duration : Text → ParsedDuration) (profiles : Profiles) where
  mutual
    pub data Resolves : Text → RunProfile → Type 0 where
      profile :
          {n : Text} {out : RunProfile} (raw : RawProfile) (acc : RunProfile)
          → lookup n profiles ≡ some raw
          → Includes raw.includes empty_profile acc
          → merge_raw_profile parse_duration acc raw ≡ ok out
          → Resolves n out

    pub data Includes : List Text → RunProfile → RunProfile → Type 0 where
      end : {out acc : RunProfile} → acc ≡ out → Includes [] out acc
      more :
          {inc : Text} {rest : List Text} {out acc : RunProfile} (p : RunProfile)
          → Resolves inc p
          → Includes rest (merge_run_profile out p) acc
          → Includes (inc ∷ rest) out acc

  -- What an error says is so.
  abbrev pub IsGenuine : ProfileError → Type 0
  IsGenuine (unknown_profile n available) = lookup n profiles ≡ none
  IsGenuine (include_cycle c) =
      IsChain profiles c × ((n : Text) × (mid : List Text) × (c ≡ n ∷ (mid ++ n ∷ [])))
  IsGenuine (invalid_timeout t) = parse_duration t ≡ bad_duration
  IsGenuine (timeout_not_positive t) = parse_duration t ≡ not_positive
