-- ===== src/Prelude/Tests.antt =====
-- Boolean tests on numbers, the conditional, and splits that keep their equation.
use Prim.Native.Nat.{ℕ, ◌≤◌, ◌<◌, compare, Ordering}
use mathlib.Core.Path.{ap, ◌≡◌, refl, subst}
use mathlib.Core.Logic.{◌↔◌, ◌⊎◌, inl, inr}
use mathlib.Core.Bool.{Bool, true, false}
use mathlib.Core.Option.{Option, none, some}
use native.Mathlib.Omega.{arith}

abbrev pub ltb : ℕ → ℕ → Bool
ltb a b = elim (compare a b) [ Ordering.lt ↦ true | _ ↦ false ]

abbrev pub leb : ℕ → ℕ → Bool
leb a b = elim (compare a b) [ Ordering.gt ↦ false | _ ↦ true ]

abbrev pub eqb : ℕ → ℕ → Bool
eqb a b = elim (compare a b) [ Ordering.eq ↦ true | _ ↦ false ]

infix 1 if◌then◌else◌
abbrev pub if◌then◌else◌ {ℓ} : {A : Type ℓ} → Bool → A → A → A
if true then x else y = x
if false then x else y = y

-- A property of a conditional, by its test.
pub if-cases {ℓ κ} :
    {A : Type ℓ} (P : A → Type κ) (b : Bool) (x y : A)
    → (b ≡ true → P x)
    → (b ≡ false → P y)
    → P (if b then x else y)
if-cases P true x y hx hy = hx refl
if-cases P false x y hx hy = hy refl

pub ltb→lt : (a b : ℕ) → ltb a b ≡ true → a < b
ltb→lt a b h = ground arith

pub lt→ltb : (a b : ℕ) → a < b → ltb a b ≡ true
lt→ltb a b h = ground arith

pub leb→le : (a b : ℕ) → leb a b ≡ true → a ≤ b
leb→le a b h = ground arith

pub le→leb : (a b : ℕ) → a ≤ b → leb a b ≡ true
le→leb a b h = ground arith

pub eqb_iff : (a b : ℕ) → (eqb a b ≡ true) ↔ (a ≡ b)
eqb_iff a b = ground arith

pub ruleset tests = (arith, ltb→lt, lt→ltb, leb→le, le→leb)

abbrev pub is_some {ℓ} : {A : Type ℓ} → Option A → Bool
is_some none = false
is_some (some a) = true

pub Bool-cases : (b : Bool) → (b ≡ true) ⊎ (b ≡ false)
Bool-cases true = inl refl
Bool-cases false = inr refl

pub Option-cases {ℓ} : {A : Type ℓ} (o : Option A) → (o ≡ none) ⊎ ((a : A) × (o ≡ some a))
Option-cases none = inl refl
Option-cases (some a) = inr (a, refl)

-- A chain of steps that may stop: `none` is the stop.
infixl 5 ◌>>=◌
abbrev pub ◌>>=◌ {ℓ κ} : {A : Type ℓ} {B : Type κ} → Option A → (A → Option B) → Option B
none >>= k = none
some a >>= k = k a

pub >>=-eq-some {ℓ κ} :
    {A : Type ℓ} {B : Type κ} (m : Option A) (f : A → Option B) {b : B}
    → (m >>= f) ≡ some b
    → (a : A) × (m ≡ some a) × (f a ≡ some b)
>>=-eq-some none f h = ground arith
>>=-eq-some (some a) f h = (a, refl, h)

-- The chain does not stop, and its result has the property `P`.
abbrev pub Returns : {A : Type 0} → (A → Type 0) → Option A → Type 0
Returns P none = ⊥
Returns P (some a) = P a

pub Returns-bind :
    {A B : Type 0} (P : A → Type 0) (Q : B → Type 0) (m : Option A) (f : A → Option B)
    → Returns P m
    → ((a : A) → P a → Returns Q (f a))
    → Returns Q (m >>= f)
Returns-bind P Q (some a) f h k = k a h
Returns-bind P Q none f h k = h

pub Returns-map :
    {A : Type 0} (P Q : A → Type 0) (m : Option A)
    → Returns P m
    → ((a : A) → P a → Q a)
    → Returns Q m
Returns-map P Q (some a) h k = k a h
Returns-map P Q none h k = h

-- What is there is returned, with the equation.
pub Returns-self : {A : Type 0} (m : Option A) → is_some m ≡ true → Returns (λ a. m ≡ some a) m
Returns-self (some a) h = refl
Returns-self none h = ground arith

-- What a chain returns, with the equation.
pub Returns-with :
    {A : Type 0} (P : A → Type 0) (m : Option A) → Returns P m → Returns (λ a. P a × (m ≡ some a)) m
Returns-with P (some a) h = (h, refl)
Returns-with P none h = h

-- Two chains, of which the first ends in a function of its result.
pub Returns-bind-map :
    {A B C : Type 0} (P : A → Type 0) (Q : C → Type 0) (m : Option A) (g : A → B) (k : B → Option C)
    → Returns P m
    → ((a : A) → P a → Returns Q (k (g a)))
    → Returns Q ((m >>= λ a. some (g a)) >>= k)
Returns-bind-map P Q (some a) g k h r = r a h
Returns-bind-map P Q none g k h r = h

-- What a chain returns, and `d` if it stops.
abbrev pub value : {A : Type 0} → Option A → A → A
value none d = d
value (some a) d = a

pub Returns-value :
    {A : Type 0} (P : A → Type 0) (m : Option A) (d : A) → Returns P m → P (value m d)
Returns-value P (some a) d h = h
Returns-value P none d h = absurd h

pub Returns-eq :
    {A : Type 0} (P : A → Type 0) (m : Option A) (a : A) → m ≡ some a → Returns P m → P a
Returns-eq P m a e h = subst (Returns P) e h

pub value-eq :
    {A : Type 0} (P : A → Type 0) (m : Option A) (d : A) → Returns P m → m ≡ some (value m d)
value-eq P (some a) d h = refl
value-eq P none d h = absurd h

-- What a chain returns, if it does, has the property `P`.
abbrev pub IfSome : {A : Type 0} → (A → Type 0) → Option A → Type 0
IfSome P none = Unit
IfSome P (some a) = P a

pub IfSome-bind :
    {A B : Type 0} (P : A → Type 0) (Q : B → Type 0) (m : Option A) (f : A → Option B)
    → IfSome P m
    → ((a : A) → P a → IfSome Q (f a))
    → IfSome Q (m >>= f)
IfSome-bind P Q (some a) f h k = k a h
IfSome-bind P Q none f h k = tt

pub IfSome-self : {A : Type 0} (m : Option A) → IfSome (λ a. m ≡ some a) m
IfSome-self (some a) = refl
IfSome-self none = tt

pub IfSome-eq : {A : Type 0} (P : A → Type 0) (m : Option A) (a : A) → m ≡ some a → IfSome P m → P a
IfSome-eq P m a e h = subst (IfSome P) e h

pub some-injective {ℓ} : {A : Type ℓ} (a b : A) → some a ≡ some b → a ≡ b
some-injective a b h = ap (λ o. elim o [ none ↦ a | some c ↦ c ]) h
