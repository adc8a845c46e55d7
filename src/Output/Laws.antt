-- ===== src/Output/Laws.antt =====
-- gotst.go: what a cappedBuffer keeps.
use gotst.Prelude.{
  ℕ, zero, suc, ◌-◌, ◌≤◌, ◌≡◌, refl, sym, ◌∙◌, ap, false, ◌||◌, List, [], ◌∷◌, ◌++◌, Text, arith,
  length, length-append, take, ltb, if◌then◌else◌, append-nil, append_assoc,
}
use gotst.Output.Capped.{CappedBuffer, write, write_all}

take_same : (a b : ℕ) (p : Text) → a ≡ b → take a p ≡ take b p
take_same a b p e = ap (λ k. take k p) e

take-append : (m : ℕ) (x p : Text) → take m (x ++ p) ≡ take m x ++ take (m - length x) p
take-append zero [] p = take_same 0 (0 - 0) p (omega arith)
take-append (suc m) [] p = take_same (suc m) (suc m - 0) p (omega arith)
take-append zero (c ∷ x) p = take_same 0 (0 - suc (length x)) p (omega arith)
take-append (suc m) (c ∷ x) p =
    ap (λ (r : Text). c ∷ r)
      (take-append m x p
        ∙ ap (λ (r : Text). take m x ++ r)
            (take_same (m - length x) (suc m - suc (length x)) p (omega arith)))

take_all : (m : ℕ) (p : Text) → length p ≤ m → take m p ≡ p
take_all zero [] h = refl
take_all zero (c ∷ p) h = absurd (omega (arith, h))
take_all (suc m) [] h = refl
take_all (suc m) (c ∷ p) h = ap (λ (r : Text). c ∷ r) (take_all m p (omega (arith, h)))

length-take : (m : ℕ) (x : Text) → length (take m x) ≡ (if ltb m (length x) then m else length x)
length-take zero [] = ground arith
length-take zero (c ∷ x) = ground arith
length-take (suc m) [] = ground arith
length-take (suc m) (c ∷ x) = ground (arith, length-take m x)

-- The buffer after the text `x`.
abbrev holding : ℕ → Text → CappedBuffer
holding m x = record { buf = take m x; max = m; truncated = ltb m (length x) }

take_remain : (m : ℕ) (x : Text) → m - length (take m x) ≡ m - length x
take_remain m x = ground (arith, length-take m x)

take_clip : (r : ℕ) (p : Text) → (if ltb r (length p) then take r p else p) ≡ take r p
take_clip r p = ground (arith, take_all r p)

take_zero : (x p : Text) (r : ℕ) → ltb 0 r ≡ false → x ≡ x ++ take r p
take_zero x p zero h = sym (append-nil x)
take_zero x p (suc r) h = ground arith

write_buf :
    (x p : Text) (r : ℕ)
    → (if ltb 0 r then x ++ (if ltb r (length p) then take r p else p) else x) ≡ x ++ take r p
write_buf x p r = ground (arith, take_zero x p r, take_clip r p)

write-holding : (m : ℕ) (x p : Text) → write (holding m x) p ≡ holding m (x ++ p)
unfolding write
write-holding m x p =
    let r = m - length (take m x) in
    let bufs =
      write_buf (take m x) p r
      ∙ ap (λ (q : Text). take m x ++ q) (take_same r (m - length x) p (take_remain m x))
      ∙ sym (take-append m x p) in
    let flags : (ltb m (length x) || ltb r (length p)) ≡ ltb m (length (x ++ p)) =
      ground (arith, take_remain m x, length-append x p) in
    cc (bufs, flags)

abbrev pub concat : List Text → Text
concat [] = []
concat (p ∷ ps) = p ++ concat ps

write_all-holding :
    (m : ℕ) (x : Text) (ps : List Text) → write_all (holding m x) ps ≡ holding m (x ++ concat ps)
unfolding write_all
write_all-holding m x [] = ap (holding m) (sym (append-nil x))
write_all-holding m x (p ∷ ps) =
    ap (λ b. write_all b ps) (write-holding m x p)
    ∙ write_all-holding m (x ++ p) ps
    ∙ ap (holding m) (append_assoc x p (concat ps))

-- A new buffer.
abbrev pub new_buffer : ℕ → CappedBuffer
new_buffer m = record { buf = []; max = m; truncated = false }

new_buffer-holding : (m : ℕ) → new_buffer m ≡ holding m []
new_buffer-holding zero = ground arith
new_buffer-holding (suc m) = ground arith

-- After any writes to a new buffer it holds the first `max` bytes of all that was written, and is
-- marked as truncated if and only if more was written.
pub write_all-take :
    (m : ℕ) (ps : List Text)
    → let b = write_all (new_buffer m) ps in
      (b.buf ≡ take m (concat ps)) × (b.truncated ≡ ltb m (length (concat ps)))
write_all-take m ps =
    let e = ap (λ b. write_all b ps) (new_buffer-holding m) ∙ write_all-holding m [] ps in
    (ap (λ (b : CappedBuffer). b.buf) e, ap (λ (b : CappedBuffer). b.truncated) e)
