-- ===== src/Daemon/Examples.antt =====
-- cmd/testhistoryd: tests and examples.
use gotst.Go.Hex.{decode_string}
use gotst.Prelude.{get_elem?, ◌≡◌, refl, [], ◌∷◌, some, Text, text}
use gotst.Daemon.{refused, parse_uuid}
use gotst.Daemon.Laws.{Parsed, parse_uuid-Parsed}

abbrev uuid : Text
uuid = text "12345678-1234-1234-1234-1234567890ab"

abbrev uuid_bytes : Text
uuid_bytes =
    0x12 ∷ 0x34 ∷ 0x56 ∷ 0x78 ∷ 0x12 ∷ 0x34 ∷ 0x12 ∷ 0x34 ∷ 0x12 ∷ 0x34 ∷ 0x12 ∷ 0x34 ∷ 0x56 ∷ 0x78
    ∷ 0x90 ∷ 0xab ∷ []

uuid_parses : parse_uuid uuid ≡ some uuid_bytes
unfolding parse_uuid refused get_elem? decode_string
uuid_parses = refl

parse_uuid-Parsed_example : Parsed uuid uuid_bytes
parse_uuid-Parsed_example = parse_uuid-Parsed uuid uuid_bytes uuid_parses

-- Two more dashes, and a zero byte that is not in the text.
short_uuid :
    parse_uuid (text "--345678-1234-1234-1234-1234567890ab")
    ≡ some (
        0x34 ∷ 0x56 ∷ 0x78 ∷ 0x12 ∷ 0x34 ∷ 0x12 ∷ 0x34 ∷ 0x12 ∷ 0x34 ∷ 0x12 ∷ 0x34 ∷ 0x56 ∷ 0x78
        ∷ 0x90 ∷ 0xab ∷ 0 ∷ [])
unfolding parse_uuid refused get_elem? decode_string
short_uuid = refl
