-- ===== src/CacheProg/ShimExamples.antt =====
-- cacheprog.go: tests and examples of the shim with a disk in memory.
use gotst.Go.Strings.{has_prefix}
use gotst.Prelude.{
  contains, ◌<◌, text_beq, arith, zero, suc, ℕ, ◌≡◌, refl, true, false, [], ◌∷◌, some, Text, text,
  text_eq, lookup, Option, ◌%◌, length,
}
use gotst.Go.Hex.{decode_string, AreBytes, encode_to_string}
use gotst.Files.Memory.{Memory, memory_os, memory-Laws}
use gotst.LocalCache.{CacheProgRequest, CacheProgResponse, empty_response, command_get}
use gotst.CacheProg.Executables.{
  runs, materialize_executable, matches, looks_like_executable, exec_target,
}
use gotst.CacheProg.Shim.{
  serve_executable, register_end, register_begin, forward_get, CacheShim, ExecutableRegistration,
  forward, register_executable, with_output, report_lookup,
}
use gotst.CacheProg.ShimLaws.{ExecSound, ServedOrMissed, forward-ServedOrMissed}
use gotst.CacheProg.RegisterLaws.{Registers, register_executable-Registers}

abbrev copies : ℕ → ℕ → Text
copies zero b = []
copies (suc n) b = b ∷ copies n b

-- A hash for tests.
abbrev size_hash : Text → Text
size_hash s = copies 32 (length s % 256)

abbrev elf : Text
elf = 0x7f ∷ text "ELF"

abbrev helper_disk : Memory
helper_disk = (text "/h", elf) ∷ []

abbrev zero_action : Text
zero_action = copies 32 0

-- The action's prefix is twenty times the letter A.
abbrev elf_build_id : Memory → Text → Option Text
elf_build_id d path = some (text "AAAAAAAAAAAAAAAAAAAA/b/c/d")

abbrev test_shim : CacheShim
test_shim = record {
  can_get = true;
  can_put = true;
  reports_lookups = true;
  misses = (text "AAAAAAAAAAAAAAAAAAAA", zero_action) ∷ [];
  uploaded = [];
  exec_hit = [];
  verified_exec = [];
  exec_hits = 0;
  exec_puts = 0;
  lookups = [];
}

abbrev get_request : CacheProgRequest
get_request = record {
  id = 1;
  command = command_get;
  action_id = zero_action;
  output_id = [];
  object_id = [];
  body_size = 0;
}

abbrev elf_response : CacheProgResponse
elf_response = record empty_response { object_id = size_hash elf; size = 4; disk_path = text "/h" }

helper_disk-ExecSound :
    ExecSound memory_os memory-Laws size_hash elf_build_id
      (λ p. p)
      false
      true
      (text "/e")
      helper_disk
unfolding lookup exec_target text_beq
helper_disk-ExecSound o s ho h = absurd (ground (arith, h))

elf_output : with_output elf_response ≡ record elf_response { output_id = size_hash elf }
unfolding with_output
elf_output = refl

elf_looks : looks_like_executable memory_os helper_disk (text "/h") ≡ true
unfolding looks_like_executable lookup text_beq has_prefix
elf_looks = refl

copies-AreBytes : (n b : ℕ) → b < 256 → AreBytes (copies n b)
copies-AreBytes zero b h = tt
copies-AreBytes (suc n) b h = (h, copies-AreBytes n b h)

elf_output-AreBytes : AreBytes (with_output elf_response).output_id
elf_output-AreBytes = rw elf_output (copies-AreBytes 32 4 (omega arith))

forward-ServedOrMissed_example :
    ServedOrMissed memory_os memory-Laws size_hash elf_build_id
      (λ p. p)
      false
      true
      (text "/e")
      zero_action
      (with_output elf_response)
      (report_lookup zero_action true test_shim)
      (forward memory_os size_hash elf_build_id
        (λ p. p)
        false
        true
        (text "/e")
        get_request
        (some elf_response)
        helper_disk
        test_shim)
forward-ServedOrMissed_example =
    forward-ServedOrMissed memory_os memory-Laws size_hash elf_build_id (λ p. p) false true
      (text "/e") get_request elf_response helper_disk test_shim refl refl refl elf_looks
      elf_output-AreBytes helper_disk-ExecSound

serves_elf :
    (forward memory_os size_hash elf_build_id
      (λ p. p)
      false
      true
      (text "/e")
      get_request
      (some elf_response)
      helper_disk
      test_shim).shim.exec_hits
    ≡ 1
unfolding forward forward_get with_output looks_like_executable lookup text_beq has_prefix
    serve_executable materialize_executable matches runs
serves_elf = refl

abbrev elf_registration : ExecutableRegistration
elf_registration = record {
  path = text "/h";
  output_hash = encode_to_string (size_hash elf);
  size = 4;
}

abbrev put_response : CacheProgResponse
put_response = record empty_response { disk_path = text "/p" }

uploads_elf :
    (register_executable memory_os size_hash elf_build_id
      (λ p. p)
      false
      true
      (text "/e")
      elf_registration
      (λ r body. some put_response)
      helper_disk
      test_shim).2.exec_puts
    ≡ 1
unfolding register_executable register_begin lookup text_beq decode_string encode_to_string contains
    register_end
uploads_elf = refl

register_executable-Registers_example :
    Registers memory_os size_hash elf_build_id
      (λ p. p)
      false
      true
      (text "/e")
      elf_registration
      (λ r body. some put_response)
      helper_disk
      test_shim
      (register_executable memory_os size_hash elf_build_id
        (λ p. p)
        false
        true
        (text "/e")
        elf_registration
        (λ r body. some put_response)
        helper_disk
        test_shim)
register_executable-Registers_example =
    register_executable-Registers memory_os size_hash elf_build_id (λ p. p) false true (text "/e")
      elf_registration (λ r body. some put_response) helper_disk test_shim
