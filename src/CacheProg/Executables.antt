-- ===== src/CacheProg/Executables.antt =====
-- cacheprog.go: the files of executables. What `go tool buildid` prints for a file is a parameter.
use gotst.Prelude.{
  ◌-◌, ℕ, ◌+◌, ◌*◌, ◌/◌, ◌%◌, Bool, true, false, not, ◌&&◌, ◌||◌, List, [], ◌∷◌, ◌++◌, Option, none,
  some, Text, text, text_eq, ◌==◌, length, take, eqb, ltb, is_some, is_empty, if◌then◌else◌,
}
use gotst.Go.Strings.{has_prefix}
use gotst.Go.Hex.{encode_to_string}
use gotst.Files.{missing, unreadable, contents, Os, Disk, checked, ◌>>=◌, ◌>>◌}

-- The letter of a number below 64 in base64 for URLs.
abbrev url_letter : ℕ → ℕ
url_letter n =
    if ltb n 26
    then n + 65
    else if ltb n 52
    then n + 71
    else if ltb n 62
    then n - 4
    else if eqb n 62
    then b'-'
    else b'_'

-- `base64.RawURLEncoding.EncodeToString` for a number of bytes that three divides.
unfoldable pub base64_url : Text → Text
base64_url (a ∷ b ∷ c ∷ s) =
    url_letter (a / 4)
    ∷ url_letter (a % 4 * 16 + b / 16)
    ∷ url_letter (b % 16 * 4 + c / 64)
    ∷ url_letter (c % 64)
    ∷ base64_url s
base64_url _ = []

-- `actionIDPrefix`
unfoldable pub action_id_prefix : Text → Text
unfolding base64_url
action_id_prefix action_id =
    if ltb (length action_id) 15 then [] else base64_url (take 15 action_id)

-- `strings.Split` at the slashes; `part` is the part that is being read.
unfoldable pub split_slashes : Text → Text → List Text
split_slashes part [] = part ∷ []
split_slashes part (c ∷ s) = elim (eqb c b'/') [
  | true ↦ part ∷ split_slashes [] s
  | false ↦ split_slashes (part ++ c ∷ []) s
]

-- The first part of a build ID that has four.
unfoldable pub build_id_action : Text → Option Text
unfolding split_slashes
build_id_action build_id = elim (split_slashes [] build_id) [
  | [] ↦ none
  | p ∷ ps ↦ if eqb (length ps) 3 then some p else none
]

-- The first four bytes of ELF, PE, WebAssembly and Mach-O files.
unfoldable pub executable_start : Text → Bool
executable_start s =
    not (ltb (length s) 4)
    && (has_prefix s (0x7f ∷ text "ELF")
        || has_prefix s (text "MZ")
        || has_prefix s (0 ∷ text "asm")
        || has_prefix s (0xfe ∷ 0xed ∷ 0xfa ∷ 0xce ∷ [])
        || has_prefix s (0xfe ∷ 0xed ∷ 0xfa ∷ 0xcf ∷ [])
        || has_prefix s (0xce ∷ 0xfa ∷ 0xed ∷ 0xfe ∷ [])
        || has_prefix s (0xcf ∷ 0xfa ∷ 0xed ∷ 0xfe ∷ []))

abbrev pub executable_temp : Text
executable_temp = text ".gotst-executable-"

module _ {D : Type 0} (os : Os D) where
  -- `looksLikeExecutable`
  unfoldable pub looks_like_executable : D → Text → Bool
  unfolding executable_start
  looks_like_executable d path = elim (os.read_file d path) [
    | missing ↦ false
    | unreadable ↦ false
    | contents s ↦ executable_start s
  ]

  -- The temporary file of `copyExecutable` gets its contents and is renamed.
  unfoldable pub install_copy : Text → Text → Text → Disk D (Unit {0})
  install_copy tmp dst s = do
    checked (λ d. os.write d tmp s)
    checked (λ d. os.chmod d tmp 0o700)
    checked (λ d. os.close d tmp)
    λ d.
        let r = os.rename d tmp dst in
        (r.0, if r.1 || is_some (os.stat r.0 dst) then some tt else none)

  unfoldable pub clean_up_copy : Text → Disk D (Unit {0}) → Disk D (Unit {0})
  clean_up_copy tmp body d =
      let r = body d in
      let closed = (os.close r.0 tmp).0 in
      elim r.1 [ some u ↦ (closed, some u) | none ↦ ((os.remove closed tmp).0, none) ]

  -- `copyExecutable` into the directory `dir` of `dst`
  unfoldable pub copy_executable : Text → Text → Text → Disk D (Unit {0})
  unfolding install_copy clean_up_copy
  copy_executable dir src dst d = elim (os.read_file d src) [
    | missing ↦ (d, none)
    | unreadable ↦ (d, none)
    | contents s ↦
        (do
          tmp ← λ e. os.create_temp e dir executable_temp
          clean_up_copy tmp (install_copy tmp dst s))
          d
  ]

  module _ (sha256 : Text → Text) where
    -- Whether `hashFile` of the path gives the hash.
    unfoldable pub has_hash : D → Text → Text → Bool
    has_hash d path hash = elim (os.read_file d path) [
      | missing ↦ false
      | unreadable ↦ false
      | contents s ↦ sha256 s == hash
    ]

    -- Whether the path is a regular file that its owner may execute.
    unfoldable pub runs : D → Text → Bool
    runs d path = elim (os.stat d path) [ none ↦ false | some i ↦ i.regular && i.executable ]

    module _ (build_id : D → Text → Option Text) (windows direct : Bool) (exec_dir : Text) where
      unfoldable pub exec_target : Text → Text
      exec_target output_id = exec_dir ++ b'/' ∷ encode_to_string output_id

      -- The checks of `materializeExecutable` on the helper's file.
      unfoldable pub matches : D → Text → Text → Text → Bool
      unfolding has_hash build_id_action action_id_prefix looks_like_executable
      matches d action_id output_id path =
          not (is_empty path)
          && looks_like_executable d path
          && has_hash d path output_id
          && elim (build_id d path) [
            | none ↦ false
            | some id ↦ elim (build_id_action id) [
              | none ↦ false
              | some p ↦ p == action_id_prefix action_id
            ]
          ]

      -- `materializeExecutable`; `none` is a false result.
      unfoldable pub materialize_executable : Text → Text → Text → Disk D Text
      materialize_executable action_id output_id path d =
          let target = exec_target output_id in
          if not (matches d action_id output_id path)
          then (d, none)
          else if direct && (windows || runs d path)
          then (d, some path)
          else if runs d target && has_hash d target output_id
          then (d, some target)
          else (do copy_executable exec_dir path target; λ e. (e, some target)) d
