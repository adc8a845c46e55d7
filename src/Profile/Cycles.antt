-- ===== src/Profile/Cycles.antt =====
-- profile.go: the stack of resolveProfile as a chain of includes.
use gotst.Prelude.{
  ◌≡◌, ap, sym, true, List, [], ◌∷◌, ◌++◌, arith, Text, text_eq, text_beq, text_beq_iff, contains,
  Bool-cases, inl, inr,
}
use gotst.Profile.Data.{Profiles}
use gotst.Profile.Visit.{from_first}
use gotst.Profile.Spec.{Lists, IsChain}

module _ (profiles : Profiles) where
  pub IsChain-snoc :
      (s : List Text) (cur inc : Text)
      → IsChain profiles (s ++ cur ∷ [])
      → Lists profiles cur inc
      → IsChain profiles ((s ++ cur ∷ []) ++ inc ∷ [])
  IsChain-snoc [] cur inc c l = (l, tt)
  IsChain-snoc (a ∷ []) cur inc c l = (c.0, (l, tt))
  IsChain-snoc (a ∷ b ∷ r) cur inc c l = (c.0, IsChain-snoc (b ∷ r) cur inc c.1 l)

  IsChain-tail : (a : Text) (s : List Text) → IsChain profiles (a ∷ s) → IsChain profiles s
  IsChain-tail a [] c = tt
  IsChain-tail a (b ∷ s) c = c.1

  pub from_first-cycle :
      (cur : Text) (s : List Text)
      → contains s cur ≡ true
      → IsChain profiles (s ++ cur ∷ [])
      → IsChain profiles (from_first cur s ++ cur ∷ [])
        × ((n : Text) × (mid : List Text) × (from_first cur s ++ cur ∷ [] ≡ n ∷ (mid ++ n ∷ [])))
  unfolding contains from_first
  from_first-cycle cur [] h c = ground arith
  from_first-cycle cur (a ∷ s) h c = elim (Bool-cases (text_beq a cur)) [
    | inl here ↦
        rw here (c, (a, s, ap (λ x. a ∷ (s ++ x ∷ [])) (sym ((text_beq_iff a cur).0 here))))
    | inr later ↦
        rw later (from_first-cycle cur s (ground arith) (IsChain-tail a (s ++ cur ∷ []) c))
  ]
