-- ===== src/Output/Capped.antt =====
-- gotst.go: cappedBuffer.
use gotst.Prelude.{
  ℕ, ◌-◌, Bool, ◌||◌, List, [], ◌∷◌, ◌++◌, Text, text, length, take, ltb, if◌then◌else◌,
}
use gotst.Go.Duration.{decimal}

-- `cappedBuffer`; the code keeps the length of `buf` at most `max`, so that `max - length buf`, which
-- stops at 0, is what remains.
pub record CappedBuffer : Type 0 where
  pub buf : Text
  pub max : ℕ
  pub truncated : Bool

unfoldable pub write : CappedBuffer → Text → CappedBuffer
write b p =
    let remain = b.max - length b.buf in
    record b {
      buf =
          if ltb 0 remain
          then b.buf ++ (if ltb remain (length p) then take remain p else p)
          else b.buf;
      truncated = b.truncated || ltb remain (length p);
    }

unfoldable pub write_all : CappedBuffer → List Text → CappedBuffer
unfolding write
write_all b [] = b
write_all b (p ∷ ps) = write_all (write b p) ps

-- `cappedBuffer.String`
unfoldable pub to_text : CappedBuffer → Text
to_text b =
    if b.truncated
    then b.buf
      ++ (10 ∷ text "[gotst: output truncated after ")
      ++ decimal b.max
      ++ text " bytes]"
      ++ 10 ∷ []
    else b.buf
