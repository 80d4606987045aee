-- ===== src/SerialEcho/Tests.antt =====
-- The serial program on concrete bytes.
use halm_examples.Base.{
  ℕ, ◌+◌, ◌≤◌, ◌≡◌, ◌≢◌, refl, true, false, List, [], ◌∷◌, ◌++◌, length, arith, ◌==◌,
}
use halm_examples.SerialEcho.{
  bin_to_hex, high_digit, serialize_from, serialized, message, decimal, is_success,
}
use halm_examples.SerialEcho.Dump.{
  parse_bytes, parse_bytes-serialized, length-serialized, bin_to_hex-high_digit_signed,
}
use halm_examples.SerialEcho.Loop.{ticks, receive, total, nothing, receive-ticks}

-- "RX: [54 0A]\r\n"
serialized_test :
    serialized false (0x54 ∷ 0x0A ∷ [])
    ≡ 0x52 ∷ 0x58 ∷ 0x3A ∷ 0x20 ∷ 0x5B ∷ 0x35 ∷ 0x34 ∷ 0x20 ∷ 0x30 ∷ 0x41 ∷ 0x5D ∷ 0x0D ∷ 0x0A ∷ []
unfolding serialized serialize_from bin_to_hex high_digit
serialized_test = refl

-- "Test 000000007\r\n"
message_test :
    message 7
    ≡ 0x54 ∷ 0x65 ∷ 0x73 ∷ 0x74 ∷ 0x20 ∷ 0x30 ∷ 0x30 ∷ 0x30 ∷ 0x30 ∷ 0x30 ∷ 0x30 ∷ 0x30 ∷ 0x30
      ∷ 0x37 ∷ 0x0D ∷ 0x0A ∷ []
unfolding message decimal
message_test = refl

-- The first digit of 0x80 where `char` is signed is a slash.
signed_test : bin_to_hex (high_digit true 0x80) ≡ 0x2F
unfolding bin_to_hex high_digit
signed_test = refl

parse_bytes-serialized_example :
    parse_bytes (serialize_from false 0 3 (0x54 ∷ 0xFF ∷ 0x80 ∷ [])) ≡ 0x54 ∷ 0xFF ∷ 0x80 ∷ []
parse_bytes-serialized_example =
    parse_bytes-serialized 0x54 (0xFF ∷ 0x80 ∷ []) (omega arith, (omega arith, (omega arith, tt)))

length-serialized_example : length (serialized true (0x54 ∷ 0xFF ∷ 0x80 ∷ [])) + 1 ≤ 256
length-serialized_example = length-serialized true 0x54 (0xFF ∷ 0x80 ∷ []) (omega arith)

bin_to_hex-high_digit_signed_example : bin_to_hex (high_digit true 0xF5) ≢ bin_to_hex 15
bin_to_hex-high_digit_signed_example = bin_to_hex-high_digit_signed 0xF5 (omega arith) (omega arith)

abbrev pieces : List (List ℕ)
pieces = (message 0 ++ (0x41 ∷ 0x42 ∷ [])) ∷ [] ∷ message 9 ∷ []

receive-ticks_example :
    ((ticks 11 0).1 ≡ true)
    × (is_success (receive true pieces nothing) ≡ (total pieces == length (ticks 11 0).0))
unfolding message decimal
receive-ticks_example = receive-ticks true 11 pieces (omega arith) (omega arith)
