-- ===== src/Go/SortLaws.antt =====
-- Go's sorts: the order of what they return.
use gotst.Prelude.{
  filter, ◌+◌, arith, length, ℕ, zero, suc, ◌≡◌, refl, Bool, true, false, List, [], ◌∷◌, All, take,
  drop, if-cases,
}
use mathlib.Core.List.{Perm}
use mathlib.Core.List.Perm
use gotst.Go.Sort.{insert_sorted, sort_by}

-- Each element is related to all behind it.
abbrev pub Sorted {ℓ κ} : {A : Type ℓ} → (A → A → Type κ) → List A → Type κ
Sorted R [] = Unit
Sorted R (a ∷ r) = All (R a) r × Sorted R r

module _ {ℓ} {A : Type ℓ} where
  pub All-insert_sorted {κ} :
      (P : A → Type κ) (before : A → A → Bool) (a : A) (bs : List A)
      → P a
      → All P bs
      → All P (insert_sorted before a bs)
  unfolding insert_sorted
  All-insert_sorted P before a [] h hs = (h, tt)
  All-insert_sorted P before a (b ∷ bs) h hs =
      if-cases (All P) (before a b) (a ∷ b ∷ bs) (b ∷ insert_sorted before a bs) (λ e. (h, hs))
        λ e. (hs.0, All-insert_sorted P before a bs h hs.1)

  pub All-sorted {κ} :
      (P : A → Type κ) (before : A → A → Bool) (as' : List A)
      → All P as'
      → All P (sort_by before as')
  unfolding sort_by
  All-sorted P before [] h = tt
  All-sorted P before (a ∷ r) h =
      All-insert_sorted P before a (sort_by before r) h.0 (All-sorted P before r h.1)

  pub All-take {κ} : (P : A → Type κ) (n : ℕ) (as' : List A) → All P as' → All P (take n as')
  All-take P zero as' h = tt
  All-take P (suc n) [] h = tt
  All-take P (suc n) (a ∷ r) h = (h.0, All-take P n r h.1)

  pub All-drop {κ} : (P : A → Type κ) (n : ℕ) (as' : List A) → All P as' → All P (drop n as')
  All-drop P zero as' h = h
  All-drop P (suc n) [] h = tt
  All-drop P (suc n) (a ∷ r) h = All-drop P n r h.1

  All-imp {κ} : (P Q : A → Type κ) (as' : List A) → ((b : A) → P b → Q b) → All P as' → All Q as'
  All-imp P Q [] f h = tt
  All-imp P Q (a ∷ r) f h = (f a h.0, All-imp P Q r f h.1)

  module _ {κ} (R : A → A → Type κ) where
    pub Sorted-take : (n : ℕ) (as' : List A) → Sorted R as' → Sorted R (take n as')
    Sorted-take zero as' h = tt
    Sorted-take (suc n) [] h = tt
    Sorted-take (suc n) (a ∷ r) h = (All-take (R a) n r h.0, Sorted-take n r h.1)

    -- What is taken from the front is related to the rest.
    pub take-drop :
        (n : ℕ) (as' : List A) → Sorted R as' → All (λ a. All (R a) (drop n as')) (take n as')
    take-drop zero as' h = tt
    take-drop (suc n) [] h = tt
    take-drop (suc n) (a ∷ r) h = (All-drop (R a) n r h.0, take-drop n r h.1)

    module _ (before : A → A → Bool) (keeps : (a b : A) → before a b ≡ true → R a b)
        (moves : (a b : A) → before a b ≡ false → R b a)
        (trans : (a b c : A) → R a b → R b c → R a c) where
      insert_sorted-Sorted :
          (a : A) (bs : List A) → Sorted R bs → Sorted R (insert_sorted before a bs)
      unfolding insert_sorted
      insert_sorted-Sorted a [] h = (tt, tt)
      insert_sorted-Sorted a (b ∷ bs) h =
          if-cases (Sorted R) (before a b) (a ∷ b ∷ bs) (b ∷ insert_sorted before a bs)
            (λ e.
              ((keeps a b e, All-imp (R b) (R a) bs (λ c g. trans a b c (keeps a b e) g) h.0), h))
            λ e.
              (All-insert_sorted (R b) before a bs (moves a b e) h.0, insert_sorted-Sorted a bs h.1)

      pub sort_by-Sorted : (as' : List A) → Sorted R (sort_by before as')
      unfolding sort_by
      sort_by-Sorted [] = tt
      sort_by-Sorted (a ∷ r) = insert_sorted-Sorted a (sort_by before r) (sort_by-Sorted r)

module _ {ℓ} {A : Type ℓ} where
  length-insert_sorted :
      (before : A → A → Bool) (a : A) (bs : List A)
      → length (insert_sorted before a bs) ≡ length bs + 1
  unfolding insert_sorted
  length-insert_sorted before a [] = refl
  length-insert_sorted before a (b ∷ bs) = ground (arith, length-insert_sorted before a bs)

  pub length-sort_by :
      (before : A → A → Bool) (as' : List A) → length (sort_by before as') ≡ length as'
  unfolding sort_by
  length-sort_by before [] = refl
  length-sort_by before (a ∷ r) =
      omega (arith, length-insert_sorted before a (sort_by before r), length-sort_by before r)

module _ {ℓ} {A : Type ℓ} (before : A → A → Bool) where
  insert_sorted-Perm : (a : A) (bs : List A) → Perm (insert_sorted before a bs) (a ∷ bs)
  unfolding insert_sorted
  insert_sorted-Perm a [] = Perm.refl (a ∷ [])
  insert_sorted-Perm a (b ∷ bs) =
      if-cases (λ cs. Perm cs (a ∷ b ∷ bs)) (before a b) (a ∷ b ∷ bs)
        (b ∷ insert_sorted before a bs) (λ e. Perm.refl (a ∷ b ∷ bs))
        λ e. Perm.trans (Perm.cons b (insert_sorted-Perm a bs)) (Perm.swap a b bs)

  -- A sort keeps what it sorts.
  pub sort_by-Perm : (as' : List A) → Perm (sort_by before as') as'
  unfolding sort_by
  sort_by-Perm [] = Perm.refl []
  sort_by-Perm (a ∷ r) =
      Perm.trans (insert_sorted-Perm a (sort_by before r)) (Perm.cons a (sort_by-Perm r))

  module _ (p : A → Bool) (ties : (a b : A) → p a ≡ true → p b ≡ true → before a b ≡ true) where
    insert_sorted-filter :
        (a : A) (bs : List A) → filter p (insert_sorted before a bs) ≡ filter p (a ∷ bs)
    unfolding insert_sorted
    insert_sorted-filter a [] = refl
    insert_sorted-filter a (b ∷ bs) = ground (arith, ties a b, insert_sorted-filter a bs)

    -- A sort is stable: elements that it does not tell apart keep their order.
    pub sort_by-filter : (as' : List A) → filter p (sort_by before as') ≡ filter p as'
    unfolding sort_by
    sort_by-filter [] = refl
    sort_by-filter (a ∷ r) =
        ground (arith, insert_sorted-filter a (sort_by before r), sort_by-filter r)
