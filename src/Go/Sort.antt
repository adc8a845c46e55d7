-- ===== src/Go/Sort.antt =====
-- Go's sorts: insertion sort stands for `sort.Strings` and the stable `slices.SortFunc`; any sort
-- returns the same list where the order is total.
use gotst.Prelude.{Bool, true, false, List, [], ◌∷◌, if◌then◌else◌, Text}
use Prim.Native.Nat.{Ordering}
use gotst.Go.Strings.{compare_text}

module _ {ℓ} {A : Type ℓ} where
  -- `before a b` says that `a` need not be moved behind `b`.
  unfoldable pub insert_sorted : (A → A → Bool) → A → List A → List A
  insert_sorted before a [] = a ∷ []
  insert_sorted before a (b ∷ bs) =
      let rest = insert_sorted before a bs in if before a b then a ∷ b ∷ bs else b ∷ rest

  unfoldable pub sort_by : (A → A → Bool) → List A → List A
  sort_by before [] = []
  sort_by before (a ∷ r) = insert_sorted before a (sort_by before r)

abbrev pub text_before : Text → Text → Bool
text_before a b = elim (compare_text a b) [ Ordering.gt ↦ false | _ ↦ true ]

unfoldable pub sort_texts : List Text → List Text
unfolding sort_by insert_sorted
sort_texts = sort_by text_before
