-- ===== src/Profile/Unique.antt =====
-- profile.go: what appendUnique keeps, and with it the merges.
use gotst.Prelude.{
  ◌≡◌, refl, true, false, not, ◌&&◌, ◌||◌, List, [], ◌∷◌, ◌++◌, arith, Text, text_eq, text_beq_iff,
  contains, contains-append, is_empty, Bool-cases, inl, inr, if◌then◌else◌,
}
use gotst.Profile.Merge.{append_unique}

-- No text comes twice, and none is empty.
abbrev pub Distinct : List Text → Type 0
Distinct [] = Unit
Distinct (x ∷ xs) = (contains xs x ≡ false) × (is_empty x ≡ false) × Distinct xs

contains_self : (v : Text) → contains (v ∷ []) v ≡ true
unfolding contains
contains_self v = ground (arith, text_beq_iff v v)

Distinct-snoc :
    (xs : List Text) (v : Text)
    → Distinct xs
    → contains xs v ≡ false
    → is_empty v ≡ false
    → Distinct (xs ++ v ∷ [])
unfolding contains
Distinct-snoc [] v d h k = (refl, k, tt)
Distinct-snoc (x ∷ xs) v d h k = ground (
  arith,
  Distinct-snoc xs v d.2 (ground arith) k,
  contains-append xs (v ∷ []) x,
  text_beq_iff x v,
  text_beq_iff v x,
)

pub Distinct-append_unique :
    (dst values : List Text) → Distinct dst → Distinct (append_unique dst values)
unfolding append_unique
Distinct-append_unique dst [] d = d
Distinct-append_unique dst (v ∷ values) d =
    elim (Bool-cases (not (is_empty v) && not (contains dst v))) [
      | inl new ↦
          rw new
            (Distinct-append_unique _ values (Distinct-snoc dst v d (ground arith) (ground arith)))
      | inr old ↦ rw old (Distinct-append_unique dst values d)
    ]

-- The values are appended, but for the empty ones and those that are there.
pub contains-append_unique :
    (dst values : List Text) (k : Text)
    → contains (append_unique dst values) k
      ≡ (contains dst k || (not (is_empty k) && contains values k))
unfolding append_unique
contains-append_unique dst [] k = unfold contains in ground arith
contains-append_unique dst (v ∷ values) k =
    rw
      (contains-append_unique
        (if not (is_empty v) && not (contains dst v) then dst ++ v ∷ [] else dst) values k)
      (unfold contains in ground (arith, contains-append dst (v ∷ []) k, text_beq_iff v k))

-- Appending the same values again changes nothing.
pub append_unique-known :
    (dst values : List Text)
    → ((k : Text) → contains values k ≡ true → is_empty k ≡ false → contains dst k ≡ true)
    → append_unique dst values ≡ dst
unfolding append_unique
append_unique-known dst [] h = refl
append_unique-known dst (v ∷ values) h =
    elim (Bool-cases (not (is_empty v) && not (contains dst v))) [
      | inl new ↦ absurd (unfold contains in ground (arith, h v, text_beq_iff v v))
      | inr old ↦
          rw old (append_unique-known dst values (λ k p q. unfold contains in ground (arith, h k)))
    ]
