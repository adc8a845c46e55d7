-- ===== src/Web/PatchLaws.antt =====
-- web.go: a patch of the page gives the new page.
use gotst.Prelude.{
  take-drop_append, append-nil, append_assoc, ltb, length-take-le, if◌then◌else◌, eqb_iff, zero,
  suc, ℕ, ◌+◌, ◌-◌, ◌≤◌, ◌≡◌, refl, sym, ap, ◌∙◌, false, List, [], ◌∷◌, ◌++◌, length, length-append,
  take, drop, eqb, arith, Bool-cases, inl, inr,
}
use gotst.Web.{common_prefix, backwards, common_suffix, make_html_patch, slice_end, apply_patch}

common_prefix-take :
    (as' bs : List ℕ)
    → (common_prefix as' bs ≤ length as')
      × (common_prefix as' bs ≤ length bs)
      × (take (common_prefix as' bs) as' ≡ take (common_prefix as' bs) bs)
unfolding common_prefix
common_prefix-take [] bs = (omega arith, omega arith, refl)
common_prefix-take (a ∷ as') [] = (omega arith, omega arith, refl)
common_prefix-take (a ∷ as') (b ∷ bs) =
    let rest = common_prefix-take as' bs in
    elim (Bool-cases (eqb a b)) [
      | inr e ↦ rw (e) (omega arith, omega arith, refl)
      | inl e ↦ rw (e) (
        omega (arith, rest.0),
        omega (arith, rest.1),
        ap (λ c. c ∷ take (common_prefix as' bs) as') ((eqb_iff a b).0 e) ∙ ap (λ r. b ∷ r) rest.2,
      )
    ]

length-backwards : (as' : List ℕ) → length (backwards as') ≡ length as'
length-backwards [] = refl
length-backwards (a ∷ r) = omega (arith, length-append (backwards r) (a ∷ []), length-backwards r)

backwards-append : (as' bs : List ℕ) → backwards (as' ++ bs) ≡ backwards bs ++ backwards as'
backwards-append [] bs = sym (append-nil (backwards bs))
backwards-append (a ∷ r) bs =
    ap (λ s. s ++ (a ∷ [])) (backwards-append r bs)
    ∙ append_assoc (backwards bs) (backwards r) (a ∷ [])

backwards-backwards : (as' : List ℕ) → backwards (backwards as') ≡ as'
backwards-backwards [] = refl
backwards-backwards (a ∷ r) =
    backwards-append (backwards r) (a ∷ []) ∙ ap (λ s. a ∷ s) (backwards-backwards r)

drop-length : (as' : List ℕ) → drop (length as') as' ≡ []
drop-length [] = refl
drop-length (a ∷ r) = drop-length r

take-take : (m n : ℕ) (as' : List ℕ) → m ≤ n → take m (take n as') ≡ take m as'
take-take zero n as' h = refl
take-take (suc m) zero as' h = absurd (omega (arith, h))
take-take (suc m) (suc n) [] h = refl
take-take (suc m) (suc n) (a ∷ r) h = ap (λ s. a ∷ s) (take-take m n r (omega (arith, h)))

drop-append : (n : ℕ) (as' bs : List ℕ) → n ≤ length as' → drop n (as' ++ bs) ≡ drop n as' ++ bs
drop-append zero as' bs h = refl
drop-append (suc n) [] bs h = absurd (omega (arith, h))
drop-append (suc n) (a ∷ r) bs h = drop-append n r bs (omega (arith, h))

drop-empty : (n : ℕ) → drop {A = ℕ} n [] ≡ []
drop-empty zero = refl
drop-empty (suc n) = refl

drop-drop : (m n : ℕ) (as' : List ℕ) → drop m (drop n as') ≡ drop (n + m) as'
drop-drop m zero as' = ap (λ k. drop k as') (omega arith)
drop-drop m (suc n) [] = drop-empty m ∙ sym (drop-empty (suc n + m))
drop-drop m (suc n) (a ∷ r) =
    drop-drop m n r ∙ ap (λ k. drop k (a ∷ r)) {x = suc (n + m)} {y = suc n + m} (omega arith)

drop-backwards :
    (s : ℕ) (as' : List ℕ)
    → s ≤ length as'
    → drop (length as' - s) (backwards as') ≡ backwards (take s as')
drop-backwards zero as' h =
    ap (λ n. drop n (backwards as')) (omega (arith, length-backwards as'))
    ∙ drop-length (backwards as')
drop-backwards (suc s) [] h = absurd (omega (arith, h))
drop-backwards (suc s) (a ∷ r) h =
    ap (λ n. drop n (backwards r ++ (a ∷ []))) (omega arith)
    ∙ drop-append (length r - s) (backwards r) (a ∷ []) (omega (arith, length-backwards r))
    ∙ ap (λ t. t ++ (a ∷ [])) (drop-backwards s r (omega (arith, h)))

-- The end of a list, read from behind.
end-backwards :
    (s : ℕ) (as' : List ℕ)
    → s ≤ length as'
    → drop (length as' - s) as' ≡ backwards (take s (backwards as'))
end-backwards s as' h =
    ap (λ t. drop (length as' - s) t) (sym (backwards-backwards as'))
    ∙ ap (λ n. drop (n - s) (backwards (backwards as'))) (sym (length-backwards as'))
    ∙ drop-backwards s (backwards as') (omega (arith, h, length-backwards as'))

-- What is said of the suffix of a patch.
common_suffix-end :
    (p : ℕ) (old new : List ℕ)
    → (common_suffix p old new ≤ length old - p)
      × (common_suffix p old new ≤ length new - p)
      × (drop (length old - common_suffix p old new) old
          ≡ drop (length new - common_suffix p old new) new)
unfolding common_suffix
common_suffix-end p old new =
    let s = common_suffix p old new in
    let both =
      common_prefix-take (take (length old - p) (backwards old))
        (take (length new - p) (backwards new)) in
    let less : s ≤ length old - p =
      omega (arith, both.0, length-take-le (length old - p) (backwards old)) in
    let less' : s ≤ length new - p =
      omega (arith, both.1, length-take-le (length new - p) (backwards new)) in
    (
      less,
      less',
      end-backwards s old (omega (arith, less))
          ∙ ap backwards (
              sym (take-take s (length old - p) (backwards old) less)
              ∙ both.2
              ∙ take-take s (length new - p) (backwards new) less')
          ∙ sym (end-backwards s new (omega (arith, less'))),
    )

ltb-false : (s n : ℕ) → s ≤ n → ltb n s ≡ false
ltb-false s n h = ground arith

slice_end-drop :
    (s : ℕ) (old : List ℕ)
    → s ≤ length old
    → (if eqb s 0 then [] else slice_end s old) ≡ drop (length old - s) old
unfolding slice_end
slice_end-drop s old h = elim (Bool-cases (eqb s 0)) [
  | inl e ↦ rw (e) (sym (ap (λ n. drop n old) (omega (arith, (eqb_iff s 0).0 e)) ∙ drop-length old))
  | inr e ↦ rw (e, ltb-false s (length old) h) refl
]

-- A list in three parts.
three_parts :
    (p s : ℕ) (as' : List ℕ)
    → p + s ≤ length as'
    → take p as' ++ take (length as' - s - p) (drop p as') ++ drop (length as' - s) as' ≡ as'
three_parts p s as' h =
    let q = length as' - s - p in
    append_assoc (take p as') (take q (drop p as')) (drop (length as' - s) as')
    ∙ ap (λ t. take p as' ++ (take q (drop p as') ++ t))
        (ap (λ n. drop n as') (omega (arith, h)) ∙ sym (drop-drop q p as'))
    ∙ ap (λ t. take p as' ++ t) (take-drop_append q (drop p as'))
    ∙ take-drop_append p as'

-- The page applies the patch of two documents to the old one and has the new one.
pub apply_patch-make_html_patch :
    (old new : List ℕ) → apply_patch old (make_html_patch old new) ≡ new
unfolding apply_patch make_html_patch
apply_patch-make_html_patch old new =
    let p = common_prefix old new in
    let s = common_suffix p old new in
    let front = common_prefix-take old new in
    let back = common_suffix-end p old new in
    let insert = take (length new - s - p) (drop p new) in
    ap (λ t. take p old ++ insert ++ t) (slice_end-drop s old (omega (arith, back.0)) ∙ back.2)
    ∙ ap (λ t. t ++ insert ++ drop (length new - s) new) front.2
    ∙ three_parts p s new (omega (arith, front.1, back.1))
