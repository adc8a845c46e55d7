-- ===== src/Output/Examples.antt =====
-- gotst.go: two writes to a buffer of four bytes.
use gotst.Prelude.{◌≡◌, true, [], ◌∷◌}
use gotst.Output.Capped.{write_all}
use gotst.Output.Laws.{new_buffer, write_all-take}

write_all-take_example :
    let b = write_all (new_buffer 4) ((1 ∷ 2 ∷ 3 ∷ []) ∷ (4 ∷ 5 ∷ []) ∷ []) in
    (b.buf ≡ 1 ∷ 2 ∷ 3 ∷ 4 ∷ []) × (b.truncated ≡ true)
write_all-take_example = write_all-take 4 ((1 ∷ 2 ∷ 3 ∷ []) ∷ (4 ∷ 5 ∷ []) ∷ [])
