-- ===== src/Profile/Data.antt =====
-- profile.go: the types, and the errors of resolution as values.
use gotst.Prelude.{ℕ, Bool, false, List, [], Option, Text, ◌≡◌, refl, arith}

-- `rawProfile`, as decoded; an absent key of the YAML file is `none`.
pub record RawProfile : Type 0 where
  pub includes : List Text
  pub packages : List Text
  pub exclude_packages : List Text
  pub tags : List Text
  pub test_flags : List Text
  pub short : Option Bool
  pub race : Option Bool
  pub timeout : Option Text

-- `runProfile`; the timeout in nanoseconds, 0 if there is none.
pub record RunProfile : Type 0 where
  pub name : Text
  pub root : Text
  pub packages : List Text
  pub exclude_packages : List Text
  pub tags : List Text
  pub test_flags : List Text
  pub short : Bool
  pub race : Bool
  pub timeout : ℕ
  pub short_set : Bool
  pub race_set : Bool

-- The zero value of `runProfile`.
abbrev pub empty_profile : RunProfile
empty_profile = record {
  name = [];
  root = [];
  packages = [];
  exclude_packages = [];
  tags = [];
  test_flags = [];
  short = false;
  race = false;
  timeout = 0;
  short_set = false;
  race_set = false;
}

abbrev pub Profiles : Type 0
Profiles = List (Text × RawProfile)

-- What `time.ParseDuration` returns: an error, a positive number of nanoseconds, or none above 0.
pub data ParsedDuration : Type 0 where
  bad_duration not_positive : ParsedDuration
  positive : ℕ → ParsedDuration

pub data ProfileError : Type 0 where
  unknown_profile : Text → List Text → ProfileError
  include_cycle : List Text → ProfileError
  invalid_timeout timeout_not_positive : Text → ProfileError

-- `out_of_fuel` is no result of the code, but where the recursion of the model ends.
pub data Outcome {ℓ} (A : Type ℓ) : Type ℓ where
  ok : A → Outcome A
  err : ProfileError → Outcome A
  out_of_fuel : Outcome A

infixl 5 ◌>>=◌
abbrev pub ◌>>=◌ {ℓ κ} : {S : Type ℓ} {T : Type κ} → Outcome S → (S → Outcome T) → Outcome T
out_of_fuel >>= next = out_of_fuel
err e >>= next = err e
ok out >>= next = next out

pub >>=-eq-ok {ℓ κ} :
    {S : Type ℓ} {T : Type κ} (m : Outcome S) (next : S → Outcome T) {out : T}
    → (m >>= next) ≡ ok out
    → (s : S) × (m ≡ ok s) × (next s ≡ ok out)
>>=-eq-ok (ok a) f h = (a, refl, h)
>>=-eq-ok (err e) f h = ground arith
>>=-eq-ok out_of_fuel f h = ground arith
